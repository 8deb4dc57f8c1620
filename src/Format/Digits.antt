-- ===== src/Format/Digits.antt =====
-- `format_unsigned` of libc/stdio/__vformat.c: its digits denote the number.
use hojicha.Format.{digit_char, digit_loop, backwards, format_unsigned}
use hojicha.Common.{
  ℕ, zero, suc, ◌+◌, ◌-◌, ◌*◌, ◌/◌, ◌%◌, ◌^◌, ◌≤◌, ◌<◌, ◌≡◌, List, [], ◌∷◌, ◌==◌, ltb,
  if◌then◌else◌, arith, Bool-cases, inl, inr, ap, ◌∙◌, ◌⊎◌, if_ind,
}

-- The number that digits denote, read from the highest on, after those that denote `n`.
abbrev pub digit_number : ℕ → ℕ
digit_number c = if ltb c 58 then c - 48 else c - 87

abbrev pub read_number : (base n : ℕ) → List ℕ → ℕ
read_number base n [] = n
read_number base n (c ∷ cs) = read_number base (n * base + digit_number c) cs

pub digit_number-digit_char : (d : ℕ) → d < 16 → digit_number (digit_char d) ≡ d
digit_number-digit_char d h = ground arith

-- The two bases that are printed in.
abbrev pub IsBase : ℕ → Type 0
IsBase base = (base ≡ 10) ⊎ (base ≡ 16)

-- One digit taken off a number.
div_step :
    (value base : ℕ)
    → IsBase base
    → (value / base * base + value % base ≡ value)
      × (value / base ≤ value / 2)
      × (value % base < 16)
div_step value base (inl e) = rw e (omega arith, omega arith, omega arith)
div_step value base (inr e) = rw e (omega arith, omega arith, omega arith)

pub read_number-digit_loop :
    (fuel base value : ℕ) (rest : List ℕ)
    → IsBase base
    → value < 2 ^ fuel
    → read_number base 0 (backwards (digit_loop fuel value base) rest) ≡ read_number base value rest
unfolding digit_loop
read_number-digit_loop zero base value rest b h = ap (λ v. read_number base v rest) (omega arith)
read_number-digit_loop (suc fuel) base value rest b h = elim (Bool-cases (value == 0)) [
  | inl none_left ↦ rw none_left (ap (λ v. read_number base v rest) (ground (arith, none_left)))
  | inr some_left ↦
      let (whole, less, digit) = div_step value base b in
      let below : value / base < 2 ^ fuel = omega arith in
      rw some_left (
        read_number-digit_loop fuel base (value / base) (digit_char (value % base) ∷ rest) b below
        ∙ ap (λ d. read_number base (value / base * base + d) rest)
            (digit_number-digit_char (value % base) digit)
        ∙ ap (λ v. read_number base v rest) whole)
]

-- Read back in its base, what `format_unsigned` prints is the number, for every 64-bit number in
-- base 10 and in base 16.
pub read_number-format_unsigned :
    (value base : ℕ)
    → value < 2 ^ 64
    → IsBase base
    → read_number base 0 (format_unsigned value base) ≡ value
unfolding format_unsigned
read_number-format_unsigned value base h b =
    if_ind (λ l. read_number base 0 (backwards l []) ≡ value) (value == 0) (48 ∷ [])
      (digit_loop 64 value base) (λ z. ground (arith, z))
      (λ nz. read_number-digit_loop 64 base value [] b h)
