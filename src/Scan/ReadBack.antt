-- ===== src/Scan/ReadBack.antt =====
-- What libc/stdio/__vformat.c prints, libc/stdio/sscanf.c and libc/stdlib/atoi.c read back.
use hojicha.CString.{isspace, peek}
use hojicha.Format.{digit_char, digit_loop, backwards, format_unsigned}
use hojicha.Format.Digits.{
  IsBase, digit_number, digit_number-digit_char, read_number, read_number-format_unsigned,
}
use hojicha.Scan.{
  digit_value, scan_digits, is_sign, has_hex_prefix, choose_base, int_of, scan_int, atoi_digits,
  atoi,
}
use hojicha.Common.{
  ℕ, zero, suc, ◌+◌, ◌-◌, ◌*◌, ◌/◌, ◌%◌, ◌^◌, ◌<◌, ◌≡◌, ◌≢◌, refl, Bool, true, false, ◌&&◌, ◌||◌,
  Option, none, some, List, [], ◌∷◌, ◌++◌, leb, ◌==◌, if◌then◌else◌, if_ind, arith, ap, ◌∙◌, sym,
  inl, inr, All, pos, neg, length,
}

-- A digit of the base, as it is printed.
abbrev pub IsDigit : ℕ → ℕ → Type 0
IsDigit base c = (d : ℕ) × (d < base) × (c ≡ digit_char d)

digit_loop-IsDigit :
    (fuel value base : ℕ) → IsBase base → All (IsDigit base) (digit_loop fuel value base)
unfolding digit_loop
digit_loop-IsDigit zero value base b = tt
digit_loop-IsDigit (suc fuel) value base b =
    if_ind (All (IsDigit base)) (value == 0) [] _ (λ t. tt)
      (λ f.
        ((value % base, below value base b, refl), digit_loop-IsDigit fuel (value / base) base b))
  where
    below : (value base : ℕ) → IsBase base → value % base < base
    below value base (inl e) = rw e (omega arith)
    below value base (inr e) = rw e (omega arith)

backwards-All :
    (P : ℕ → Type 0) (tmp rest : List ℕ) → All P tmp → All P rest → All P (backwards tmp rest)
backwards-All P [] rest a b = b
backwards-All P (c ∷ tmp) rest a b = backwards-All P tmp (c ∷ rest) a.1 (a.0, b)

format_unsigned-IsDigit :
    (value base : ℕ) → IsBase base → All (IsDigit base) (format_unsigned value base)
unfolding format_unsigned
format_unsigned-IsDigit value base b =
    backwards-All (IsDigit base) _ []
      (if_ind (All (IsDigit base)) (value == 0) (48 ∷ []) _ (λ t. ((0, pos_base base b, refl), tt))
        (λ f. digit_loop-IsDigit 64 value base b))
      tt
  where
    pos_base : (base : ℕ) → IsBase base → 0 < base
    pos_base base (inl e) = omega arith
    pos_base base (inr e) = omega arith

below_sixteen : (d base : ℕ) → IsBase base → d < base → d < 16
below_sixteen d base (inl e) p = omega arith
below_sixteen d base (inr e) p = omega arith

-- A printed digit is read as itself.
digit_value-digit_char :
    (d base : ℕ) → IsBase base → d < base → digit_value (digit_char d) base ≡ some d
unfolding digit_value
digit_value-digit_char d base b h = ground (arith, below_sixteen d base b h)

scan_step :
    (base c d : ℕ) (input : List ℕ) (value : ℕ) (saw : Bool)
    → digit_value c base ≡ some d
    → scan_digits base (c ∷ input) value saw
      ≡ scan_digits base input ((value * base + d) % 2 ^ 32) true
unfolding scan_digits
scan_step base c d input value saw e =
    ap
      (λ (o : Option ℕ). elim o as (λ _. ℕ × Bool × List ℕ) [
        | none ↦ (value, saw, c ∷ input)
        | some digit ↦ scan_digits base input ((value * base + digit) % 2 ^ 32) true
      ])
      e

scan_stop :
    (base value : ℕ) (saw : Bool) (rest : List ℕ)
    → digit_value (peek rest) base ≡ none
    → scan_digits base rest value saw ≡ (value, saw, rest)
unfolding scan_digits
scan_stop base value saw [] e = refl
scan_stop base value saw (c ∷ rest) e =
    ap
      (λ (o : Option ℕ). elim o as (λ _. ℕ × Bool × List ℕ) [
        | none ↦ (value, saw, c ∷ rest)
        | some digit ↦ scan_digits base rest ((value * base + digit) % 2 ^ 32) true
      ])
      e

-- The value stays right under the wrap of an `unsigned int`.
wrap_step :
    (n base d : ℕ) → IsBase base → (n % 2 ^ 32 * base + d) % 2 ^ 32 ≡ (n * base + d) % 2 ^ 32
wrap_step n base d (inl e) = rw e (omega arith)
wrap_step n base d (inr e) = rw e (omega arith)

scan_digit :
    (base c : ℕ) (input : List ℕ) (n : ℕ) (saw : Bool)
    → IsBase base
    → IsDigit base c
    → scan_digits base (c ∷ input) (n % 2 ^ 32) saw
      ≡ scan_digits base input ((n * base + digit_number c) % 2 ^ 32) true
scan_digit base c input n saw b (d, lt, e) =
    let number : digit_number c ≡ d =
      ap digit_number e ∙ digit_number-digit_char d (below_sixteen d base b lt) in
    scan_step base c d input (n % 2 ^ 32) saw
      (ap (λ k. digit_value k base) e ∙ digit_value-digit_char d base b lt)
    ∙ ap (λ v. scan_digits base input v true) (wrap_step n base d b)
    ∙ ap (λ k. scan_digits base input ((n * base + k) % 2 ^ 32) true) (sym number)

scan_digits-read_number :
    (base : ℕ) (digits rest : List ℕ) (n : ℕ)
    → IsBase base
    → All (IsDigit base) digits
    → scan_digits base (digits ++ rest) (n % 2 ^ 32) true
      ≡ scan_digits base rest (read_number base n digits % 2 ^ 32) true
scan_digits-read_number base [] rest n b a = refl
scan_digits-read_number base (c ∷ digits) rest n b a =
    scan_digit base c (digits ++ rest) n true b a.0
    ∙ scan_digits-read_number base digits rest (n * base + digit_number c) b a.1

-- Where the number ends: no digit of the base follows, and no letter that makes a prefix.
pub record Ends (base : ℕ) (rest : List ℕ) : Type 0 where
  pub no_digit : digit_value (peek rest) base ≡ none
  pub no_prefix : (peek rest == b'x' || peek rest == b'X') ≡ false

-- A number in text: its sign and its digits.
abbrev pub signed : Bool → List ℕ → List ℕ
signed negative digits = if negative then b'-' ∷ digits else digits

module _ (base : ℕ) (b : IsBase base) where
  digit_not : (c : ℕ) → IsDigit base c → (is_sign c ≡ false) × ((c == b'x' || c == b'X') ≡ false)
  digit_not c (d, lt, e) = ground (arith, below_sixteen d base b lt)

  no_prefix :
      (digits rest : List ℕ)
      → All (IsDigit base) digits
      → digits ≢ []
      → Ends base rest
      → has_hex_prefix (digits ++ rest) ≡ false
  no_prefix [] rest a ne h = absurd (ne refl)
  no_prefix (c ∷ []) [] a ne h = ground arith
  no_prefix (c ∷ []) (r ∷ rest) a ne h = ground (arith, h.no_prefix)
  no_prefix (c ∷ d ∷ digits) rest a ne h = ground (arith, digit_not d a.1.0)

  choose_base_lem :
      (input : List ℕ) → has_hex_prefix input ≡ false → choose_base base input ≡ (base, input)
  choose_base_lem input h = elim b [ inl e ↦ rw e refl | inr e ↦ rw (h, e) refl ]

  -- The digits of a number after its sign.
  scan_rest :
      (digits rest : List ℕ) (negative : Bool)
      → All (IsDigit base) digits
      → digits ≢ []
      → Ends base rest
      → int_of negative (
          scan_digits
            (choose_base base (digits ++ rest)).0
            (choose_base base (digits ++ rest)).1
            0
            false)
        ≡ int_of negative (read_number base 0 digits % 2 ^ 32, true, rest)
  scan_rest [] rest negative a ne h = absurd (ne refl)
  scan_rest (c ∷ digits) rest negative a ne h =
      ap (λ p. int_of negative (scan_digits p.0 p.1 0 false))
        (choose_base_lem (c ∷ digits ++ rest) (no_prefix (c ∷ digits) rest a ne h))
      ∙ ap (int_of negative) (
          scan_digit base c (digits ++ rest) 0 false b a.0
          ∙ scan_digits-read_number base digits rest (0 * base + digit_number c) b a.1
          ∙ scan_stop base (read_number base 0 (c ∷ digits) % 2 ^ 32) true rest h.no_digit)

  scan_int_digits :
      (digits rest : List ℕ) (negative : Bool)
      → All (IsDigit base) digits
      → digits ≢ []
      → Ends base rest
      → scan_int (signed negative (digits ++ rest)) base
        ≡ int_of negative (read_number base 0 digits % 2 ^ 32, true, rest)
  unfolding scan_int
  scan_int_digits digits rest true a ne h = scan_rest digits rest true a ne h
  scan_int_digits [] rest false a ne h = absurd (ne refl)
  scan_int_digits (c ∷ digits) rest false a ne h =
      let (no_sign, no_minus) : (is_sign c ≡ false) × ((c == b'-') ≡ false) =
        ground (arith, digit_not c a.0) in
      rw (no_sign, no_minus) (scan_rest (c ∷ digits) rest false a ne h)

backwards_some : (tmp rest : List ℕ) (c : ℕ) → backwards tmp (c ∷ rest) ≢ []
backwards_some [] rest c e = omega (arith, ap length e)
backwards_some (d ∷ tmp) rest c e = backwards_some tmp (c ∷ rest) d e

loop_some :
    (fuel value base : ℕ)
    → (value == 0) ≡ false
    → backwards (digit_loop (suc fuel) value base) [] ≢ []
unfolding digit_loop
loop_some fuel value base h =
    rw h (backwards_some (digit_loop fuel (value / base) base) [] (digit_char (value % base)))

digits_some : (value base : ℕ) → format_unsigned value base ≢ []
unfolding format_unsigned
digits_some value base =
    if_ind (λ t. backwards t [] ≢ []) (value == 0) (48 ∷ []) (digit_loop 64 value base)
      (λ t. backwards_some [] [] 48) (loop_some 63 value base)

-- A number below 2^32 that `format_unsigned` printed, with or without a minus sign before it, is
-- read back by `scan_int` in the same base, 10 or 16: the result is the number or the pattern of its
-- negation in 32 bits, and the input that is left is what stood after the digits. What stands there
-- is no digit of the base and no `x`.
pub scan_int-format_unsigned :
    (value base : ℕ) (negative : Bool) (rest : List ℕ)
    → IsBase base
    → value < 2 ^ 32
    → Ends base rest
    → scan_int (signed negative (format_unsigned value base ++ rest)) base
      ≡ some (if negative then (2 ^ 32 - value) % 2 ^ 32 else value, rest)
scan_int-format_unsigned value base negative rest b h ends =
    scan_int_digits base b (format_unsigned value base) rest negative
      (format_unsigned-IsDigit value base b) (digits_some value base) ends
    ∙ ap (λ n. int_of negative (n, true, rest))
        (ap (λ n. n % 2 ^ 32) (read_number-format_unsigned value base (omega arith) b)
          ∙ omega arith)

atoi_digits-read_number :
    (digits rest : List ℕ) (n : ℕ)
    → All (IsDigit 10) digits
    → digit_value (peek rest) 10 ≡ none
    → atoi_digits (digits ++ rest) n ≡ read_number 10 n digits
unfolding atoi_digits digit_value
atoi_digits-read_number [] [] n a h = refl
atoi_digits-read_number [] (r ∷ rest) n a h = ground (arith, h)
atoi_digits-read_number (c ∷ digits) rest n ((d, lt, e), a) h =
    let inside : (leb b'0' c && leb c b'9') ≡ true = ground arith in
    let number : c - b'0' ≡ digit_number c = ground arith in
    rw inside (
      ap (λ k. atoi_digits (digits ++ rest) (n * 10 + k)) number
      ∙ atoi_digits-read_number digits rest (n * 10 + digit_number c) a h)

atoi_digits-printed :
    (value : ℕ) (rest : List ℕ)
    → value < 2 ^ 64
    → digit_value (peek rest) 10 ≡ none
    → atoi_digits (format_unsigned value 10 ++ rest) 0 ≡ value
atoi_digits-printed value rest h ends =
    atoi_digits-read_number (format_unsigned value 10) rest 0
      (format_unsigned-IsDigit value 10 (inl refl)) ends
    ∙ read_number-format_unsigned value 10 h (inl refl)

-- Digits with no sign and no space before them.
atoi_plain :
    (digits rest : List ℕ)
    → All (IsDigit 10) digits
    → digits ≢ []
    → atoi (digits ++ rest) ≡ pos (atoi_digits (digits ++ rest) 0)
unfolding atoi
atoi_plain [] rest a ne = absurd (ne refl)
atoi_plain (c ∷ digits) rest ((d, lt, e), a) ne =
    let (no_space, no_sign, no_minus) : (isspace c ≡ false)
        × (is_sign c ≡ false)
        × ((c == b'-') ≡ false) =
      ground arith in
    rw (no_space, no_sign, no_minus) refl

-- A number below 2^64 that `format_unsigned` printed in base 10, with or without a minus sign
-- before it, is what `atoi` returns, when no decimal digit follows.
pub atoi-format_unsigned :
    (value : ℕ) (negative : Bool) (rest : List ℕ)
    → value < 2 ^ 64
    → digit_value (peek rest) 10 ≡ none
    → atoi (signed negative (format_unsigned value 10 ++ rest))
      ≡ (if negative then neg value else pos value)
unfolding atoi
atoi-format_unsigned value true rest h ends = ap neg (atoi_digits-printed value rest h ends)
atoi-format_unsigned value false rest h ends =
    atoi_plain (format_unsigned value 10) rest (format_unsigned-IsDigit value 10 (inl refl))
      (digits_some value 10)
    ∙ ap pos (atoi_digits-printed value rest h ends)
