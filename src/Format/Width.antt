-- ===== src/Format/Width.antt =====
-- How many bytes `write_formatted_number` of libc/stdio/__vformat.c writes.
use mathlib.Core.Path.{subst}
use hojicha.Format.{
  FormatSpec, int_max, format_unsigned, advance, write_all, write_repeated, and_then, is_negative,
  zeros, padding, write_formatted_number,
}
use hojicha.Common.{
  ℕ, zero, suc, ◌+◌, ◌-◌, ◌%◌, ◌^◌, ◌≤◌, ◌<◌, ◌≡◌, refl, List, [], ◌∷◌, ◌==◌, ltb, leb, ◌&&◌, not,
  if◌then◌else◌, arith, Bool, inl, inr, ◌⊎◌, true, false, length, Option, none, some, if_ind,
}

-- A call adds `len` to the count and keeps it an `int`, or it fails because the count would leave
-- the `int`s or because the writer fails.
abbrev pub Adds : {S : Type 0} → (S → List ℕ → Option S) → ℕ → ℕ → Option (S × ℕ) → Type 0
Adds {S} write before len none =
    (int_max < before + len) ⊎ ((ctx : S) × (bytes : List ℕ) × (write ctx bytes ≡ none))
Adds write before len (some out) = (out.1 ≡ before + len) × (out.1 ≤ int_max)

-- A failure of a part is one of the whole.
Adds-none :
    {S : Type 0} (write : S → List ℕ → Option S) (before len before' len' : ℕ)
    → before + len ≤ before' + len'
    → Adds write before len none
    → Adds write before' len' none
Adds-none write before len before' len' le (inl h) = inl (omega arith)
Adds-none write before len before' len' le (inr h) = inr h

Adds-shift :
    {S : Type 0} (write : S → List ℕ → Option S) (before before' n : ℕ) (o : Option (S × ℕ))
    → before' ≡ before + 1
    → Adds write before' n o
    → Adds write before (suc n) o
Adds-shift write before before' n none e a =
    Adds-none write before' n before (suc n) (omega arith) a
Adds-shift write before before' n (some out) e (a, b) = (omega arith, b)

module _ {S : Type 0} (write : S → List ℕ → Option S) where
  write_all-Adds :
      (out : S × ℕ) (bytes : List ℕ)
      → out.1 ≤ int_max
      → Adds write out.1 (length bytes) (write_all write out bytes)
  unfolding write_all
  write_all-Adds (ctx, n) bytes h =
      if_ind (Adds write n (length bytes)) (ltb (int_max - n) (length bytes)) none _
        (λ t. inl (ground (arith, t)))
        (λ f.
          if_ind (λ o. Adds write n (length bytes) (advance write n (length bytes) o))
            (ltb 0 (length bytes)) (write ctx bytes) (some ctx)
            (λ t. go (write ctx bytes) refl (ground (arith, f))) (λ z. (refl, ground (arith, f))))
    where
      go :
          (o : Option S)
          → write ctx bytes ≡ o
          → n + length bytes ≤ int_max
          → Adds write n (length bytes) (advance write n (length bytes) o)
      go none e fits = inr (ctx, bytes, e)
      go (some ctx') e fits = (refl, fits)

  -- Two calls in a row add up.
  and_then-Adds :
      (before len len' : ℕ) (o : Option (S × ℕ)) (k : S × ℕ → Option (S × ℕ))
      → Adds write before len o
      → ((out : S × ℕ) → out.1 ≤ int_max → Adds write out.1 len' (k out))
      → Adds write before (len + len') (and_then write o k)
  and_then-Adds before len len' none k a f =
      Adds-none write before len before (len + len') (omega arith) a
  and_then-Adds before len len' (some out) k (e, h) f = go (k out) (f out h)
    where
      go : (o : Option (S × ℕ)) → Adds write out.1 len' o → Adds write before (len + len') o
      go none a = Adds-none write out.1 len' before (len + len') (omega arith) a
      go (some out') (e', h') = (omega arith, h')

  write_repeated-Adds :
      (count : ℕ) (out : S × ℕ) (c : ℕ)
      → out.1 ≤ int_max
      → Adds write out.1 count (write_repeated write count out c)
  unfolding write_repeated
  write_repeated-Adds zero out c h = (omega arith, h)
  write_repeated-Adds (suc count) out c h =
      go (write_all write out (c ∷ [])) (write_all-Adds out (c ∷ []) h)
        (λ out' h'. write_repeated-Adds count out' c h')
    where
      go :
          (o : Option (S × ℕ))
          → Adds write out.1 1 o
          → ((out' : S × ℕ)
              → out'.1 ≤ int_max
              → Adds write out'.1 count (write_repeated write count out' c))
          → Adds write out.1
              (suc count)
              (elim o [ none ↦ none | some out' ↦ write_repeated write count out' c ])
      go none a ih = Adds-none write out.1 1 out.1 (suc count) (omega arith) a
      go (some out') (e, h') ih =
          Adds-shift write out.1 out'.1 count (write_repeated write count out' c) e (ih out' h')

-- The digits filled up to the precision, with the sign, filled up to the width.
abbrev pub at_least : (least n : ℕ) → ℕ
at_least least n = if ltb n least then least else n

abbrev pub printed_length : FormatSpec → Bool → (digit_len : ℕ) → ℕ
printed_length spec negative digit_len =
    let digits = if spec.precision_set then at_least spec.precision digit_len else digit_len in
    at_least spec.width ((if negative then 1 else 0) + digits)

abbrev pub printed_digits : FormatSpec → Bool → ℕ → List ℕ
printed_digits spec is_signed value =
    let negative = is_signed && leb (2 ^ 63) value in
    format_unsigned (if negative then (2 ^ 64 - value) % 2 ^ 64 else value)
      (if spec.conversion == 120 then 16 else 10)

-- What is written in front, and the digits.
total_length :
    (spec : FormatSpec) (negative : Bool) (n : ℕ)
    → (let fill = spec.zero_pad && not spec.precision_set in
        let pad = padding spec ((if negative then 1 else 0) + zeros spec n + n) in
        (if fill then 0 else pad)
        + ((if negative then 1 else 0) + ((if fill then zeros spec n + pad else zeros spec n) + n)))
      ≡ printed_length spec negative n
total_length spec negative n = ground arith

sign-Adds :
    {S : Type 0} (write : S → List ℕ → Option S) (negative : Bool) (out : S × ℕ)
    → out.1 ≤ int_max
    → Adds write out.1
        (if negative then 1 else 0)
        (if negative then write_all write out (45 ∷ []) else some out)
sign-Adds write true out h = write_all-Adds write out (45 ∷ []) h
sign-Adds write false out h = (omega arith, h)

-- `write_formatted_number` adds to the count of bytes the number of digits, filled up to the
-- precision, with the sign, filled up to the width, and the count stays an `int`; it fails only when
-- the count would not, or when the writer fails on some call.
pub write_formatted_number-Adds :
    {S : Type 0} (write : S → List ℕ → Option S) (out : S × ℕ) (spec : FormatSpec)
    (is_signed : Bool) (value : ℕ)
    → out.1 ≤ int_max
    → Adds write out.1
        (printed_length spec
          (is_signed && leb (2 ^ 63) value)
          (length (printed_digits spec is_signed value)))
        (write_formatted_number write out spec is_signed value)
unfolding write_formatted_number
write_formatted_number-Adds write out spec is_signed value h =
    let negative = is_negative is_signed value in
    let digits = printed_digits spec is_signed value in
    let n : ℕ = length digits in
    let fill = spec.zero_pad && not spec.precision_set in
    let pad : ℕ = padding spec ((if negative then 1 else 0) + zeros spec n + n) in
    let left : ℕ = if fill then 0 else pad in
    let mid : ℕ = if fill then zeros spec n + pad else zeros spec n in
    subst (λ len. Adds write out.1 len (write_formatted_number write out spec is_signed value))
      (total_length spec negative n)
      (and_then-Adds write out.1 left ((if negative then 1 else 0) + (mid + n)) _ _
        (write_repeated-Adds write left out 32 h)
        (λ out₁ h₁.
          and_then-Adds write out₁.1 (if negative then 1 else 0) (mid + n) _ _
            (sign-Adds write negative out₁ h₁)
            (λ out₂ h₂.
              and_then-Adds write out₂.1 mid n _ _ (write_repeated-Adds write mid out₂ 48 h₂)
                (λ out₃ h₃. write_all-Adds write out₃ digits h₃))))
