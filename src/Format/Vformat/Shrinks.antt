-- ===== src/Format/Vformat/Shrinks.antt =====
-- How libc/stdio/__vformat.c moves through the format string.
use hojicha.Format.{
  FormatSpec, parse_number, finish, parse_precision, parse_width, parse_format_spec,
}
use hojicha.Format.Vformat.{take_text, take_chunk, skip_percent}
use hojicha.Common.{
  ℕ, suc, ◌+◌, ◌-◌, ◌*◌, ◌≤◌, List, [], ◌∷◌, ◌==◌, leb, ◌&&◌, arith, Bool, true, false, length,
  if_ind,
}

parse_number-shrinks : (n : ℕ) (format : List ℕ) → length (parse_number n format).1 ≤ length format
unfolding parse_number
parse_number-shrinks n [] = omega arith
parse_number-shrinks n (c ∷ format) =
    let more = parse_number-shrinks (n * 10 + (c - 48)) format in
    if_ind (λ (p : ℕ × List ℕ). length p.1 ≤ suc (length format)) (leb 48 c && leb c 57) _ _
      (λ t. omega (arith, more)) (λ f. omega arith)

finish-shrinks :
    (spec : FormatSpec) (format : List ℕ) → length (finish spec format).1 ≤ length format
finish-shrinks spec [] = omega arith
finish-shrinks spec (c ∷ format) = omega arith

parse_precision-shrinks :
    (spec : FormatSpec) (format : List ℕ) → length (parse_precision spec format).1 ≤ length format
parse_precision-shrinks spec [] = omega arith
parse_precision-shrinks spec (c ∷ format) =
    let (precision, rest) = parse_number 0 format in
    let less = parse_number-shrinks 0 format in
    let last = finish-shrinks (record spec { precision_set = true; precision = precision }) rest in
    if_ind (λ (p : FormatSpec × List ℕ). length p.1 ≤ suc (length format)) (c == 46) _ _
      (λ t. omega (arith, less, last)) (λ f. finish-shrinks spec (c ∷ format))

parse_width-shrinks :
    (spec : FormatSpec) (format : List ℕ) → length (parse_width spec format).1 ≤ length format
parse_width-shrinks spec format =
    let (width, rest) = parse_number 0 format in
    let less = parse_number-shrinks 0 format in
    let last = parse_precision-shrinks (record spec { width = width }) rest in
    omega (arith, less, last)

abbrev blank : Bool → FormatSpec
blank zero_pad = record {
  width = 0;
  precision = 0;
  precision_set = false;
  zero_pad = zero_pad;
  conversion = 0;
}

pub parse_format_spec-shrinks :
    (format : List ℕ) → length (parse_format_spec format).1 ≤ length format
unfolding parse_format_spec
parse_format_spec-shrinks [] = parse_width-shrinks (blank false) []
parse_format_spec-shrinks (c ∷ format) =
    let less = parse_width-shrinks (blank true) format in
    if_ind (λ (p : FormatSpec × List ℕ). length p.1 ≤ suc (length format)) (c == 48)
      (parse_width (blank true) format) (parse_width (blank false) (c ∷ format))
      (λ t. omega (arith, less)) (λ f. parse_width-shrinks (blank false) (c ∷ format))

take_text-shrinks : (format : List ℕ) → length (take_text format).1 ≤ length format
unfolding take_text
take_text-shrinks [] = omega arith
take_text-shrinks (c ∷ format) =
    let more = take_text-shrinks format in
    if_ind (λ (p : List ℕ × List ℕ). length p.1 ≤ suc (length format)) (c == b'%') _ _
      (λ t. omega arith) (λ f. omega (arith, more))

pub take_chunk-shrinks : (format : List ℕ) → length (take_chunk format).1 ≤ length format
take_chunk-shrinks [] = omega arith
take_chunk-shrinks (c ∷ format) = let more = take_text-shrinks format in omega (arith, more)

pub skip_percent-shrinks : (format : List ℕ) → length (skip_percent format) ≤ length format
skip_percent-shrinks [] = omega arith
skip_percent-shrinks (c ∷ format) =
    if_ind (λ (l : List ℕ). length l ≤ suc (length format)) (c == b'%') _ _ (λ t. omega arith)
      (λ f. omega arith)
