-- ===== src/CString/Search.antt =====
-- `strstr` of libc/string.
use hojicha.CString.{begins_with, strstr_loop, strstr}
use hojicha.Common.{
  ℕ, suc, ◌≤◌, ◌≡◌, ◌≢◌, refl, true, false, Option, none, some, List, [], ◌∷◌, ◌++◌, arith, length,
  ap, ◌∙◌, if_ind,
}

-- The needle stands in the haystack after `before`.
abbrev pub StandsAt : (haystack needle before after : List ℕ) → Type 0
StandsAt haystack needle before after = haystack ≡ before ++ needle ++ after

-- What `strstr` answers: the first place at which the needle stands, or NULL when it stands nowhere.
abbrev pub FindsFirst : (haystack needle : List ℕ) → Option (List ℕ) → Type 0
FindsFirst haystack needle none = (before after : List ℕ) → ¬ StandsAt haystack needle before after
FindsFirst haystack needle (some found) =
    (before : List ℕ) × (after : List ℕ) × StandsAt haystack needle before after
    × (found ≡ needle ++ after)
    × ((earlier later : List ℕ)
        → StandsAt haystack needle earlier later
        → length before ≤ length earlier)

begins_with-true :
    (haystack needle : List ℕ)
    → begins_with haystack needle ≡ true
    → (after : List ℕ) × (haystack ≡ needle ++ after)
unfolding begins_with
begins_with-true haystack [] h = (haystack, refl)
begins_with-true [] (n ∷ needle) h = absurd (ground (arith, h))
begins_with-true (c ∷ haystack) (n ∷ needle) h =
    let (after, e) = begins_with-true haystack needle (ground (arith, h)) in
    (after, ground (arith, e, h))

begins_with-append : (needle after : List ℕ) → begins_with (needle ++ after) needle ≡ true
unfolding begins_with
begins_with-append [] after = refl
begins_with-append (n ∷ needle) after = ground (arith, begins_with-append needle after)

not_here :
    (haystack needle after : List ℕ)
    → begins_with haystack needle ≡ false
    → haystack ≢ needle ++ after
not_here haystack needle after f e =
    let t : begins_with haystack needle ≡ true =
      ap (λ l. begins_with l needle) e ∙ begins_with-append needle after in
    ground (arith, t, f)

-- One byte further on, where the needle does not stand.
FindsFirst-later :
    (h : ℕ) (haystack needle : List ℕ) (o : Option (List ℕ))
    → begins_with (h ∷ haystack) needle ≡ false
    → FindsFirst haystack needle o
    → FindsFirst (h ∷ haystack) needle o
FindsFirst-later h haystack needle none f nowhere = go
  where
    go : (before after : List ℕ) → ¬ StandsAt (h ∷ haystack) needle before after
    go [] after e = not_here (h ∷ haystack) needle after f e
    go (b ∷ before) after e = nowhere before after (cc)
FindsFirst-later h haystack needle (some found) f (before, after, stands, is, first) =
    (h ∷ before, after, ap (λ l. h ∷ l) stands, is, go)
  where
    go :
        (earlier later : List ℕ)
        → StandsAt (h ∷ haystack) needle earlier later
        → suc (length before) ≤ length earlier
    go [] later e = absurd (not_here (h ∷ haystack) needle later f e)
    go (b ∷ earlier) later e =
        let tail : haystack ≡ earlier ++ needle ++ later = cc in
        omega (arith, first earlier later tail)

strstr_loop-FindsFirst :
    (haystack : List ℕ) (n : ℕ) (needle : List ℕ)
    → FindsFirst haystack (n ∷ needle) (strstr_loop haystack (n ∷ needle))
unfolding strstr_loop
strstr_loop-FindsFirst [] n needle = none_in_empty
  where
    none_in_empty : (before after : List ℕ) → ¬ StandsAt [] (n ∷ needle) before after
    none_in_empty [] after e = cc
    none_in_empty (b ∷ before) after e = cc
strstr_loop-FindsFirst (h ∷ haystack) n needle =
    if_ind (FindsFirst (h ∷ haystack) (n ∷ needle)) (begins_with (h ∷ haystack) (n ∷ needle)) _ _
      (λ t.
        let (after, e) = begins_with-true (h ∷ haystack) (n ∷ needle) t in
        ([], after, e, e, λ earlier later s. omega arith))
      (λ f.
        FindsFirst-later h haystack (n ∷ needle) (strstr_loop haystack (n ∷ needle)) f
          (strstr_loop-FindsFirst haystack n needle))

-- `strstr` finds the first place at which the needle stands, and answers NULL only when it stands
-- nowhere.
pub strstr-FindsFirst :
    (haystack needle : List ℕ) → FindsFirst haystack needle (strstr haystack needle)
unfolding strstr
strstr-FindsFirst haystack [] = ([], haystack, refl, refl, λ earlier later e. omega arith)
strstr-FindsFirst haystack (n ∷ needle) = strstr_loop-FindsFirst haystack n needle
