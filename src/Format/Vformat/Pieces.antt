-- ===== src/Format/Vformat/Pieces.antt =====
-- What the parts of libc/stdio/__vformat.c write is counted.
use hojicha.Format.{
  FormatSpec, int_max, format_unsigned, advance, write_all, write_repeated, and_then,
  write_formatted_number, is_negative, magnitude, zeros, padding,
}
use hojicha.Common.{
  ℕ, zero, suc, ◌+◌, ◌-◌, ◌≤◌, ◌≡◌, refl, List, [], ◌∷◌, ◌==◌, ltb, ◌&&◌, not, if◌then◌else◌, arith,
  Bool, length, Option, none, some, if_ind,
}

-- A writer whose context has a size that grows by what is written.
pub record IsWriter {S : Type 0} (write : S → List ℕ → Option S) (size : S → ℕ) : Type 0 where
  pub grows :
      (ctx : S) (bytes : List ℕ) (ctx' : S)
      → write ctx bytes ≡ some ctx'
      → size ctx' ≡ size ctx + length bytes

-- The count is how much the size has grown, and it is an `int`.
abbrev pub Counted : {S : Type 0} → (S → ℕ) → ℕ → S × ℕ → Type 0
Counted size before out = (size out.0 ≡ before + out.1) × (out.1 ≤ int_max)

unfoldable pub CountedIf : {S : Type 0} → (S → ℕ) → ℕ → Option (S × ℕ) → Type 0
CountedIf size before none = Unit
CountedIf size before (some out) = Counted size before out

module _ {S : Type 0} (write : S → List ℕ → Option S) (size : S → ℕ) (w : IsWriter write size)
    (before : ℕ) where
  pub write_all-Counted :
      (bytes : List ℕ) (out : S × ℕ)
      → Counted size before out
      → CountedIf size before (write_all write out bytes)
  unfolding write_all CountedIf
  write_all-Counted bytes (ctx, n) (e, le) =
      if_ind (CountedIf size before) (ltb (int_max - n) (length bytes)) none _ (λ t. tt)
        (λ f.
          if_ind (λ o. CountedIf size before (advance write n (length bytes) o))
            (ltb 0 (length bytes)) (write ctx bytes) (some ctx)
            (λ t. go (write ctx bytes) refl (ground (arith, f))) (λ z. ground (arith, z, e, f)))
    where
      go :
          (o : Option S)
          → write ctx bytes ≡ o
          → n + length bytes ≤ int_max
          → CountedIf size before (advance write n (length bytes) o)
      go none e' fits = tt
      go (some ctx') e' fits =
          let more = w.grows ctx bytes ctx' e' in (omega (arith, more, e), fits)

  and_then-Counted :
      (o : Option (S × ℕ)) (k : S × ℕ → Option (S × ℕ))
      → CountedIf size before o
      → ((out : S × ℕ) → Counted size before out → CountedIf size before (k out))
      → CountedIf size before (and_then write o k)
  unfolding CountedIf
  and_then-Counted none k a f = tt
  and_then-Counted (some out) k a f = f out a

  pub some-Counted : (out : S × ℕ) → Counted size before out → CountedIf size before (some out)
  unfolding CountedIf
  some-Counted out h = h

  write_repeated-Counted :
      (count c : ℕ) (out : S × ℕ)
      → Counted size before out
      → CountedIf size before (write_repeated write count out c)
  unfolding write_repeated CountedIf
  write_repeated-Counted zero c out h = some-Counted out h
  write_repeated-Counted (suc count) c out h =
      go (write_all write out (c ∷ [])) (write_all-Counted (c ∷ []) out h)
        (λ out' h'. write_repeated-Counted count c out' h')
    where
      go :
          (o : Option (S × ℕ))
          → CountedIf size before o
          → ((out' : S × ℕ)
              → Counted size before out'
              → CountedIf size before (write_repeated write count out' c))
          → CountedIf size before
              (elim o [ none ↦ none | some out' ↦ write_repeated write count out' c ])
      go none a ih = tt
      go (some out') a ih = ih out' a

  -- The padding, the sign, the zeros and the digits.
  parts-Counted :
      (left mid : ℕ) (negative : Bool) (digits : List ℕ) (out : S × ℕ)
      → Counted size before out
      → CountedIf size before (
          and_then write (write_repeated write left out 32) (λ out₁.
            and_then write (if negative then write_all write out₁ (45 ∷ []) else some out₁) (λ out₂.
              and_then write
                (write_repeated write mid out₂ 48)
                (λ out₃. write_all write out₃ digits))))
  parts-Counted left mid negative digits out h =
      and_then-Counted _ _ (write_repeated-Counted left 32 out h) (λ out₁ h₁.
        and_then-Counted _ _
          (if_ind (CountedIf size before) negative (write_all write out₁ (45 ∷ [])) (some out₁)
            (λ t. write_all-Counted (45 ∷ []) out₁ h₁) (λ f. some-Counted out₁ h₁))
          (λ out₂ h₂.
            and_then-Counted _ _ (write_repeated-Counted mid 48 out₂ h₂)
              (λ out₃ h₃. write_all-Counted digits out₃ h₃)))

  pub write_formatted_number-Counted :
      (spec : FormatSpec) (is_signed : Bool) (value : ℕ) (out : S × ℕ)
      → Counted size before out
      → CountedIf size before (write_formatted_number write out spec is_signed value)
  unfolding write_formatted_number
  write_formatted_number-Counted spec is_signed value out h =
      let negative = is_negative is_signed value in
      let digits : List ℕ =
        format_unsigned (magnitude is_signed value) (if spec.conversion == 120 then 16 else 10) in
      let n : ℕ = length digits in
      let fill = spec.zero_pad && not spec.precision_set in
      let pad : ℕ = padding spec ((if negative then 1 else 0) + zeros spec n + n) in
      parts-Counted (if fill then 0 else pad) (if fill then zeros spec n + pad else zeros spec n)
        negative digits out h
