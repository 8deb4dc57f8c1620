-- ===== src/Scan.antt =====
-- libc/stdio/sscanf.c and libc/stdlib/atoi.c: numbers read from text. An `int` that wraps is its
-- 32-bit pattern.
pub mod ReadBack
mod Examples
use hojicha.CString.{isspace, peek, advance}
use hojicha.Common.{
  ℕ, zero, suc, ◌+◌, ◌-◌, ◌*◌, ◌%◌, ◌^◌, Bool, true, false, not, ◌&&◌, ◌||◌, Option, none, some,
  List, [], ◌∷◌, ◌++◌, ltb, leb, ◌==◌, if◌then◌else◌, ℤ, pos, neg,
}

abbrev pub digit_of : ℕ → Option ℕ
digit_of c =
    if leb b'0' c && leb c b'9'
    then some (c - b'0')
    else if leb b'a' c && leb c b'f'
    then some (c - b'a' + 10)
    else if leb b'A' c && leb c b'F'
    then some (c - b'A' + 10)
    else none

abbrev pub within : ℕ → Option ℕ → Option ℕ
within base none = none
within base (some value) = if leb base value then none else some value

unfoldable pub digit_value : ℕ → ℕ → Option ℕ
digit_value c base = within base (digit_of c)

-- The loop of `scan_int`: the value as an `unsigned int`, whether a digit was seen, and the rest.
unfoldable pub scan_digits : ℕ → List ℕ → ℕ → Bool → ℕ × Bool × List ℕ
scan_digits base [] value saw_digit = (value, saw_digit, [])
scan_digits base (c ∷ input) value saw_digit = elim (digit_value c base) [
  | none ↦ (value, saw_digit, c ∷ input)
  | some digit ↦ scan_digits base input ((value * base + digit) % 2 ^ 32) true
]

abbrev pub is_sign : ℕ → Bool
is_sign c = c == b'+' || c == b'-'

abbrev pub has_hex_prefix : List ℕ → Bool
has_hex_prefix input =
    peek input == b'0' && (peek (advance input) == b'x' || peek (advance input) == b'X')

-- The base that the prefix decides, and the input after the prefix.
abbrev pub choose_base : ℕ → List ℕ → ℕ × List ℕ
choose_base base input =
    if (base == 0 || base == 16) && has_hex_prefix input
    then (16, advance (advance input))
    else if base == 0 && peek input == b'0'
    then (8, input)
    else if base == 0
    then (10, input)
    else (base, input)

-- The value as a 32-bit pattern; of 2 ^ 31 the negation is undefined in C and taken to wrap.
abbrev pub int_of : (negative : Bool) → ℕ × Bool × List ℕ → Option (ℕ × List ℕ)
int_of negative (value, saw_digit, rest) =
    if saw_digit then some (if negative then (2 ^ 32 - value) % 2 ^ 32 else value, rest) else none

-- The value and the input after it.
unfoldable pub scan_int : List ℕ → ℕ → Option (ℕ × List ℕ)
scan_int input base =
    let unsigned = if is_sign (peek input) then advance input else input in
    let (base', digits) = choose_base base unsigned in
    int_of (peek input == b'-') (scan_digits base' digits 0 false)

abbrev pub skip_space : List ℕ → List ℕ
skip_space [] = []
skip_space (c ∷ input) = if isspace c then skip_space input else c ∷ input

abbrev pub conversion_base : ℕ → Option ℕ
conversion_base c =
    if c == b'd'
    then some 10
    else if c == b'i'
    then some 0
    else if c == b'o'
    then some 8
    else if c == b'x' || c == b'X'
    then some 16
    else none

-- What `sscanf` returns, the values that it stores, in order, and whether it sets `errno`.
pub record Scanned : Type 0 where
  pub assigned : ℕ
  pub stored : List ℕ
  pub errno : Bool

abbrev pub stop : ℕ → List ℕ → Bool → Scanned
stop assigned stored errno = record { assigned = assigned; stored = stored; errno = errno }

-- The `while` loop over the format. A run of spaces in it is taken one space at a time: after the
-- first the input has no leading space left.
unfoldable pub sscanf_loop : List ℕ → List ℕ → ℕ → List ℕ → Scanned
unfolding scan_int
sscanf_loop [] input assigned stored = stop assigned stored false
sscanf_loop (c ∷ []) input assigned stored = stop assigned stored (c == b'%')
sscanf_loop (c ∷ d ∷ format) input assigned stored =
    let literal = sscanf_loop (d ∷ format) (advance input) assigned stored in
    let spaces = sscanf_loop (d ∷ format) (skip_space input) assigned stored in
    let converted = λ (value : ℕ) (rest : List ℕ).
      sscanf_loop format rest (assigned + 1) (stored ++ value ∷ []) in
    if isspace c
    then spaces
    else if not (c == b'%')
    then (if peek input == c then literal else stop assigned stored false)
    else elim (conversion_base d) [
      | none ↦ stop assigned stored true
      | some base ↦ elim (scan_int (skip_space input) base) [
        | none ↦ stop assigned stored false
        | some (value, rest) ↦ converted value rest
      ]
    ]

-- `none` is EOF with EINVAL, for a NULL argument.
unfoldable pub sscanf : Option (List ℕ) → Option (List ℕ) → Option Scanned
unfolding sscanf_loop
sscanf none format = none
sscanf (some str) none = none
sscanf (some str) (some format) = some (sscanf_loop format str 0 [])

unfoldable pub atoi_digits : List ℕ → ℕ → ℕ
atoi_digits [] value = value
atoi_digits (c ∷ str) value =
    let more = atoi_digits str (value * 10 + (c - b'0')) in
    if leb b'0' c && leb c b'9' then more else value

-- The C code leaves a value past `INT_MAX` undefined.
unfoldable pub atoi : List ℕ → ℤ
unfolding atoi_digits
atoi nptr =
    let str = skip_space nptr in
    let value = atoi_digits (if is_sign (peek str) then advance str else str) 0 in
    if peek str == b'-' then neg value else pos value
