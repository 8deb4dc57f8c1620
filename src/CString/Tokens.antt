-- ===== src/CString/Tokens.antt =====
-- `strtok_r` of libc/string.
use mathlib.Core.List.{append_assoc, nil≢cons}
use mathlib.Core.Path.{subst}
use hojicha.CString.{is_delim, skip_delims, cut_token, token_from, strtok_r}
use hojicha.Common.{
  ℕ, ◌≡◌, ◌≢◌, refl, true, false, Option, none, some, List, [], ◌∷◌, ◌++◌, ap, ◌∙◌, sym, Bool-cases,
  inl, inr, ◌⊎◌, All, All-append,
}

module _ (delim : List ℕ) where
  abbrev pub AllDelims : List ℕ → Type 0
  AllDelims = All (λ c. is_delim delim c ≡ true)

  abbrev pub NoDelims : List ℕ → Type 0
  NoDelims = All (λ c. is_delim delim c ≡ false)

  -- What one call makes of the string `str`: NULL when it holds delimiters only; otherwise the token
  -- after the leading delimiters, not empty, up to the next delimiter, which is dropped, or the end.
  abbrev pub Tokenizes : List ℕ → Option (List ℕ) × Option (List ℕ) → Type 0
  Tokenizes str (none, saved) = AllDelims str × (saved ≡ some [])
  Tokenizes str (some token, saved) =
      (skipped : List ℕ) × (rest : List ℕ) × AllDelims skipped
      × NoDelims token
      × (token ≢ [])
      × (saved ≡ some rest)
      × (((str ≡ skipped ++ token) × (rest ≡ []))
          ⊎ ((c : ℕ) × (is_delim delim c ≡ true) × (str ≡ skipped ++ (token ++ c ∷ rest))))

  skip_delims_lem :
      (str : List ℕ)
      → (skipped : List ℕ) × AllDelims skipped × (str ≡ skipped ++ skip_delims delim str)
  unfolding skip_delims
  skip_delims_lem [] = ([], tt, refl)
  skip_delims_lem (c ∷ str) = elim (Bool-cases (is_delim delim c)) [
    | inl t ↦
        let (skipped, all, e) = skip_delims_lem str in
        rw t (c ∷ skipped, (t, all), ap (λ l. c ∷ l) e)
    | inr f ↦ rw f ([], tt, refl)
  ]

  -- After the skip the string is empty or starts with the token.
  skip_delims_first :
      (str : List ℕ)
      → (skip_delims delim str ≡ [])
        ⊎ ((c : ℕ) × (rest : List ℕ) × (skip_delims delim str ≡ c ∷ rest)
            × (is_delim delim c ≡ false))
  unfolding skip_delims
  skip_delims_first [] = inl refl
  skip_delims_first (c ∷ str) = elim (Bool-cases (is_delim delim c)) [
    | inl t ↦ rw t (skip_delims_first str)
    | inr f ↦ rw f (inr (c, str, refl, f))
  ]

  cut_token_lem :
      (str : List ℕ)
      → NoDelims (cut_token delim str).0
        × (((str ≡ (cut_token delim str).0) × ((cut_token delim str).1 ≡ []))
            ⊎ ((c : ℕ) × (is_delim delim c ≡ true)
                × (str ≡ (cut_token delim str).0 ++ c ∷ (cut_token delim str).1)))
  unfolding cut_token
  cut_token_lem [] = (tt, inl (refl, refl))
  cut_token_lem (c ∷ str) = elim (Bool-cases (is_delim delim c)) [
    | inl t ↦ rw t (tt, inr (c, t, refl))
    | inr f ↦ let (no_delims, ends) = cut_token_lem str in rw f ((f, no_delims), longer ends)
  ]
    where
      longer :
          ((str ≡ (cut_token delim str).0) × ((cut_token delim str).1 ≡ []))
            ⊎ ((d : ℕ) × (is_delim delim d ≡ true)
                × (str ≡ (cut_token delim str).0 ++ d ∷ (cut_token delim str).1))
          → ((c ∷ str ≡ c ∷ (cut_token delim str).0) × ((cut_token delim str).1 ≡ []))
            ⊎ ((d : ℕ) × (is_delim delim d ≡ true)
                × (c ∷ str ≡ c ∷ (cut_token delim str).0 ++ d ∷ (cut_token delim str).1))
      longer (inl (e, end)) = inl (ap (λ l. c ∷ l) e, end)
      longer (inr (d, t, e)) = inr (d, t, ap (λ l. c ∷ l) e)

  cut_token_first :
      (c : ℕ) (str : List ℕ)
      → is_delim delim c ≡ false
      → (cut_token delim (c ∷ str)).0 ≡ c ∷ (cut_token delim str).0
  unfolding cut_token
  cut_token_first c str f = rw f refl

  -- The token starts with the first byte that is no delimiter.
  token_from-Tokenizes :
      (c : ℕ) (str : List ℕ)
      → is_delim delim c ≡ false
      → Tokenizes (c ∷ str) (token_from delim (c ∷ str))
  token_from-Tokenizes c str f =
      let (no_delims, ends) = cut_token_lem (c ∷ str) in
      (
        [],
        (cut_token delim (c ∷ str)).1,
        tt,
        no_delims,
        λ e. nil≢cons (sym e ∙ cut_token_first c str f),
        refl,
        ends,
      )

  Tokenizes-skipped :
      (skipped str : List ℕ) (r : Option (List ℕ) × Option (List ℕ))
      → AllDelims skipped
      → Tokenizes str r
      → Tokenizes (skipped ++ str) r
  Tokenizes-skipped skipped str (none, saved) all (delims, e) =
      (All-append (λ c. is_delim delim c ≡ true) skipped str all delims, e)
  Tokenizes-skipped skipped str (some token, saved) all (before, rest, b, n, ne, e, inl (s, end)) =
      (
        skipped ++ before,
        rest,
        All-append (λ c. is_delim delim c ≡ true) skipped before all b,
        n,
        ne,
        e,
        inl (ap (λ l. skipped ++ l) s ∙ sym (append_assoc skipped before token), end),
      )
  Tokenizes-skipped skipped str (some token, saved) all (before, rest, b, n, ne, e, inr (c, t, s)) =
      (
        skipped ++ before,
        rest,
        All-append (λ c. is_delim delim c ≡ true) skipped before all b,
        n,
        ne,
        e,
        inr (
          c,
          t,
          ap (λ l. skipped ++ l) s ∙ sym (append_assoc skipped before (token ++ c ∷ rest)),
        ),
      )

  started :
      (str : List ℕ)
      → (str ≡ []) ⊎ ((c : ℕ) × (rest : List ℕ) × (str ≡ c ∷ rest) × (is_delim delim c ≡ false))
      → Tokenizes str (token_from delim str)
  started str (inl e) = rw e (tt, refl)
  started str (inr (c, rest, e, f)) = rw e (token_from-Tokenizes c rest f)

  -- A call of `strtok_r` on a string, or on what the call before has saved: NULL when it holds
  -- delimiters only; otherwise the bytes after the leading delimiters up to the next one or the end.
  -- A call after the string is used up answers NULL again.
  pub strtok_r-Tokenizes :
      (str : List ℕ) (saveptr : Option (List ℕ))
      → Tokenizes str (strtok_r (some str) delim saveptr)
        × (strtok_r none delim (some str) ≡ strtok_r (some str) delim saveptr)
        × (strtok_r none delim none ≡ (none, none))
  unfolding strtok_r
  strtok_r-Tokenizes str saveptr =
      let (skipped, all, e) = skip_delims_lem str in
      (
        subst (λ s. Tokenizes s (token_from delim (skip_delims delim str))) (sym e)
            (Tokenizes-skipped skipped (skip_delims delim str) _ all
              (started (skip_delims delim str) (skip_delims_first str))),
        refl,
        refl,
      )
