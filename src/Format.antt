-- ===== src/Format.antt =====
-- libc/stdio/__vformat.c: the parts that print a number.
pub mod Digits
pub mod Width
pub mod Vformat
mod Examples
use hojicha.Common.{
  ℕ, zero, suc, ◌+◌, ◌-◌, ◌*◌, ◌/◌, ◌%◌, ◌^◌, Bool, true, false, not, ◌&&◌, ◌||◌, Option, none,
  some, List, [], ◌∷◌, ◌++◌, ltb, leb, ◌==◌, if◌then◌else◌, length,
}

-- `struct format_spec`.
pub record FormatSpec : Type 0 where
  pub width : ℕ
  pub precision : ℕ
  pub precision_set : Bool
  pub zero_pad : Bool
  pub conversion : ℕ

abbrev pub int_max : ℕ
int_max = 2 ^ 31 - 1

abbrev pub is_digit : ℕ → Bool
is_digit c = leb 48 c && leb c 57

-- `while (is_digit(*format)) n = n * 10 + (*format++ - '0');`: the number and what is left. The C
-- code leaves a number past `INT_MAX` undefined.
unfoldable pub parse_number : ℕ → List ℕ → ℕ × List ℕ
parse_number n [] = (n, [])
parse_number n (c ∷ format) =
    let more = parse_number (n * 10 + (c - 48)) format in
    if is_digit c then more else (n, c ∷ format)

-- The end of the string is the end of the list; its conversion is the character 0.
abbrev pub finish : FormatSpec → List ℕ → FormatSpec × List ℕ
finish spec [] = (record spec { conversion = 0 }, [])
finish spec (c ∷ format) = (record spec { conversion = c }, format)

abbrev pub parse_precision : FormatSpec → List ℕ → FormatSpec × List ℕ
parse_precision spec [] = finish spec []
parse_precision spec (c ∷ format) =
    let (precision, rest) = parse_number 0 format in
    if c == 46
    then finish (record spec { precision_set = true; precision = precision }) rest
    else finish spec (c ∷ format)

abbrev pub parse_width : FormatSpec → List ℕ → FormatSpec × List ℕ
parse_width spec format =
    let (width, rest) = parse_number 0 format in
    parse_precision (record spec { width = width }) rest

unfoldable pub parse_format_spec : List ℕ → FormatSpec × List ℕ
unfolding parse_number
parse_format_spec format =
    let spec : FormatSpec = record {
      width = 0;
      precision = 0;
      precision_set = false;
      zero_pad = false;
      conversion = 0;
    } in
    elim format [
      | [] ↦ parse_width spec []
      | c ∷ rest ↦
          if c == 48
          then parse_width (record spec { zero_pad = true }) rest
          else parse_width spec (c ∷ rest)
    ]

-- "0123456789abcdef"[digit].
abbrev pub digit_char : ℕ → ℕ
digit_char digit = if ltb digit 10 then 48 + digit else 87 + digit

-- The digits in `tmp`, the lowest first.
unfoldable pub digit_loop : ℕ → (value base : ℕ) → List ℕ
digit_loop zero value base = []
digit_loop (suc fuel) value base =
    let more = digit_loop fuel (value / base) base in
    if value == 0 then [] else digit_char (value % base) ∷ more

-- `out[i] = tmp[len - i - 1]` for every `i`, before `rest`.
abbrev pub backwards : List ℕ → List ℕ → List ℕ
backwards [] rest = rest
backwards (c ∷ tmp) rest = backwards tmp (c ∷ rest)

-- A 64-bit number has at most 64 digits.
unfoldable pub format_unsigned : (value base : ℕ) → List ℕ
format_unsigned value base = backwards (if value == 0 then 48 ∷ [] else digit_loop 64 value base) []

abbrev pub is_negative : Bool → ℕ → Bool
is_negative is_signed value = is_signed && leb (2 ^ 63) value

-- The magnitude: -(int64_t)value in 64 bits.
abbrev pub magnitude : Bool → ℕ → ℕ
magnitude is_signed value = if is_negative is_signed value then (2 ^ 64 - value) % 2 ^ 64 else value

-- The leading spaces and the zeros: the padding turns into zeros on `0` without a precision.
abbrev pub zeros : FormatSpec → (digit_len : ℕ) → ℕ
zeros spec digit_len =
    if spec.precision_set && ltb digit_len spec.precision then spec.precision - digit_len else 0

-- The length is taken as it is; the code casts it to an int, which only a precision next to INT_MAX
-- would make negative.
abbrev pub padding : FormatSpec → (content_len : ℕ) → ℕ
padding spec content_len = if ltb content_len spec.width then spec.width - content_len else 0

-- The writer takes its context and bytes, and may fail; the state is the context with the count of
-- bytes written.
module _ {S : Type 0} (write : S → List ℕ → Option S) where
  abbrev pub advance : ℕ → ℕ → Option S → Option (S × ℕ)
  advance bytes_written len none = none
  advance bytes_written len (some ctx) = some (ctx, bytes_written + len)

  unfoldable pub write_all : S × ℕ → List ℕ → Option (S × ℕ)
  write_all (ctx, bytes_written) bytes =
      if ltb (int_max - bytes_written) (length bytes)
      then none
      else advance bytes_written (length bytes)
          (if ltb 0 (length bytes) then write ctx bytes else some ctx)

  -- `count` rounds of one byte.
  unfoldable pub write_repeated : ℕ → S × ℕ → ℕ → Option (S × ℕ)
  unfolding write_all
  write_repeated zero out c = some out
  write_repeated (suc count) out c = elim (write_all out (c ∷ [])) [
    | none ↦ none
    | some out' ↦ write_repeated count out' c
  ]

  abbrev pub and_then : Option (S × ℕ) → (S × ℕ → Option (S × ℕ)) → Option (S × ℕ)
  and_then none k = none
  and_then (some out) k = k out

  unfoldable pub write_formatted_number :
      S × ℕ → FormatSpec → (is_signed : Bool) → ℕ → Option (S × ℕ)
  unfolding format_unsigned write_repeated write_all
  write_formatted_number out spec is_signed value =
      let negative = is_negative is_signed value in
      let digits =
        format_unsigned (magnitude is_signed value) (if spec.conversion == 120 then 16 else 10) in
      let zero_count = zeros spec (length digits) in
      let sign_len = if negative then 1 else 0 in
      let pad_count = padding spec (sign_len + zero_count + length digits) in
      let zero_fill = spec.zero_pad && not spec.precision_set in
      and_then (write_repeated (if zero_fill then 0 else pad_count) out 32) (λ out₁.
        and_then (if negative then write_all out₁ (45 ∷ []) else some out₁) (λ out₂.
          and_then
            (write_repeated (if zero_fill then zero_count + pad_count else zero_count) out₂ 48)
            (λ out₃. write_all out₃ digits)))
