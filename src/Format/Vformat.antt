-- ===== src/Format/Vformat.antt =====
-- The main loop of libc/stdio/__vformat.c, `__hojicha_vformat`, with `itoa` of libc/stdlib/itoa.c.
-- The arguments are the words that `va_arg` reads one after the other; `string_at` reads the string
-- that a pointer points to, and 0 is NULL.
pub mod Verbatim
mod Shrinks
pub mod Pieces
pub mod Counts
use hojicha.Format.{
  FormatSpec, parse_format_spec, digit_char, backwards, write_all, write_formatted_number,
}
use hojicha.Common.{
  ℕ, zero, suc, ◌+◌, ◌-◌, ◌/◌, ◌%◌, ◌^◌, Bool, true, false, not, ◌&&◌, ◌||◌, Option, none, some,
  List, [], ◌∷◌, ◌++◌, leb, ◌==◌, if◌then◌else◌, length,
}

-- The letter of the base.
abbrev base_letter : ℕ → List ℕ
base_letter base =
    if base == 16
    then b'x' ∷ []
    else if base == 10
    then b'd' ∷ []
    else if base == 8
    then b'o' ∷ []
    else if base == 2
    then b'b' ∷ []
    else []

-- The digits, the lowest first. The remainder of a negative number is not positive.
unfoldable pub itoa_loop : (negative : Bool) → ℕ → (magnitude base : ℕ) → List ℕ
itoa_loop negative zero magnitude base = []
itoa_loop negative (suc fuel) magnitude base =
    let more = itoa_loop negative fuel (magnitude / base) base in
    let remainder = magnitude % base in
    if magnitude == 0
    then []
    else (if negative then b'0' - remainder else digit_char remainder) ∷ more

-- The number is the pattern of an `int64_t`. The text before its reversal is the digits, the letter
-- of the base, a zero and the sign. A number has at most 64 digits.
unfoldable pub itoa : (num base : ℕ) → List ℕ
unfolding itoa_loop
itoa num base =
    let below_zero = leb (2 ^ 63) num in
    let is_negative = below_zero && base == 10 in
    let magnitude = if below_zero then 2 ^ 64 - num else num in
    let digits =
      if num == 0 then b'0' ∷ [] else itoa_loop (below_zero && not is_negative) 64 magnitude base in
    backwards (digits ++ base_letter base ++ b'0' ∷ (if is_negative then b'-' ∷ [] else [])) []

-- `format[0 .. n]` for the first `n` from 1 on where the string ends or has a `%`, and what is left.
unfoldable pub take_text : List ℕ → List ℕ × List ℕ
take_text [] = ([], [])
take_text (c ∷ format) =
    let (text, rest) = take_text format in if c == b'%' then ([], c ∷ format) else (c ∷ text, rest)

abbrev pub take_chunk : List ℕ → List ℕ × List ℕ
take_chunk [] = ([], [])
take_chunk (c ∷ format) = let (text, rest) = take_text format in (c ∷ text, rest)

abbrev pub null_text : List ℕ
null_text = b'(' ∷ b'n' ∷ b'u' ∷ b'l' ∷ b'l' ∷ b')' ∷ []

-- Whether the iteration starts with text: no `%`, or `%%`.
abbrev pub starts_text : List ℕ → Bool
starts_text [] = false
starts_text (c ∷ []) = not (c == b'%')
starts_text (c ∷ d ∷ format) = not (c == b'%') || d == b'%'

-- `if (format[0] == '%') ++format`.
abbrev pub skip_percent : List ℕ → List ℕ
skip_percent [] = []
skip_percent (c ∷ format) = if c == b'%' then format else c ∷ format

module _ {S : Type 0} (write : S → List ℕ → Option S) where
  -- `return -1` on a failure, and the new position in the format and the arguments.
  abbrev pub after : List ℕ → ℕ → Option (S × ℕ) → Option ((S × ℕ) × List ℕ × ℕ)
  after rest next none = none
  after rest next (some out) = some (out, rest, next)

  abbrev pub print_with :
      Option (S × ℕ → Option (S × ℕ))
      → S × ℕ
      → (delimiter rest : List ℕ) → ℕ
      → Option ((S × ℕ) × List ℕ × ℕ)
  unfolding write_all
  print_with none out delimiter rest next = after [] next (write_all write out delimiter)
  print_with (some print) out delimiter rest next = after rest (suc next) (print out)

  -- The text that an iteration starts with: the output and what is left of the format.
  unfoldable pub text_at : S × ℕ → List ℕ → ℕ → Option ((S × ℕ) × List ℕ × ℕ)
  unfolding write_all take_text
  text_at out format next =
      let (text, rest) = take_chunk (skip_percent format) in
      if starts_text format
      then after rest next (write_all write out text)
      else some (out, format, next)

  module _ (string_at : ℕ → List ℕ) where
    -- What the `switch` writes for a conversion; `none` is the default case.
    unfoldable pub convert : FormatSpec → ℕ → Option (S × ℕ → Option (S × ℕ))
    unfolding write_all write_formatted_number itoa
    convert spec word =
        if spec.conversion == b'c'
        then some (λ out. write_all write out (word % 256 ∷ []))
        else if spec.conversion == b's'
        then some (λ out. write_all write out (if word == 0 then null_text else string_at word))
        else if spec.conversion == b'd' || spec.conversion == b'i'
        then some (λ out. write_formatted_number write out spec true word)
        else if spec.conversion == b'x' || spec.conversion == b'u'
        then some (λ out. write_formatted_number write out spec false word)
        else if spec.conversion == b'b'
        then some (λ out. write_all write out (itoa (word % 2 ^ 32) 2))
        else none

    -- The part of an iteration from `format_delimiter = format++` on: the output, what is left of the
    -- format and the next argument.
    unfoldable pub convert_at : S × ℕ → List ℕ → (ℕ → ℕ) → ℕ → Option ((S × ℕ) × List ℕ × ℕ)
    unfolding parse_format_spec convert print_with
    convert_at out [] parameters next = some (out, [], next)
    convert_at out (c ∷ format) parameters next =
        let (spec, rest) = parse_format_spec format in
        print_with (convert spec (parameters next)) out (c ∷ format) rest next

    -- An iteration of the loop; `none` is the result -1.
    unfoldable pub iterate : S × ℕ → List ℕ → (ℕ → ℕ) → ℕ → Option ((S × ℕ) × List ℕ × ℕ)
    unfolding text_at convert_at
    iterate out format parameters next = elim (text_at out format next) [
      | none ↦ none
      | some (out', rest, _) ↦ convert_at out' rest parameters next
    ]

    -- On fuel; the inner `none` is a lack of fuel.
    unfoldable pub vformat_loop : ℕ → S × ℕ → List ℕ → (ℕ → ℕ) → ℕ → Option (Option (S × ℕ))
    unfolding iterate
    vformat_loop fuel out [] parameters next = some (some out)
    vformat_loop zero out (c ∷ format) parameters next = none
    vformat_loop (suc fuel) out (c ∷ format) parameters next =
        elim (iterate out (c ∷ format) parameters next) [
          | none ↦ some none
          | some (out', rest, next') ↦ vformat_loop fuel out' rest parameters next'
        ]

    -- Every iteration uses up a character, so the length of the format is fuel enough.
    unfoldable pub vformat : S → List ℕ → (ℕ → ℕ) → Option (Option (S × ℕ))
    unfolding vformat_loop
    vformat ctx format parameters = vformat_loop (length format) (ctx, 0) format parameters 0
