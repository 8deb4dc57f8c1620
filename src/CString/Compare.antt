-- ===== src/CString/Compare.antt =====
-- The comparison functions of libc/string.
use hojicha.CString.{tolower, strcmp, strncmp, strcasecmp, strncasecmp}
use hojicha.Common.{
  ℕ, zero, suc, ◌-◌, ◌<◌, ◌≡◌, refl, true, false, List, [], ◌∷◌, ◌==◌, leb, if◌then◌else◌, arith,
  ◌∙◌, Bool-cases, inl, inr, All, map, take, ℤ, pos, negsuc, sub_ℕ,
}

-- A string holds no terminator.
abbrev pub IsText : List ℕ → Type 0
IsText str = All (λ c. 0 < c) str

-- The order of the bytes: the first difference decides, and the end comes before every byte.
pub data Order : Type 0 where
  less same more : Order

abbrev pub sign : ℤ → Order
sign (pos zero) = same
sign (pos (suc n)) = more
sign (negsuc n) = less

abbrev pub lexicographic : List ℕ → List ℕ → Order
lexicographic [] [] = same
lexicographic [] (b ∷ bs) = less
lexicographic (a ∷ as') [] = more
lexicographic (a ∷ as') (b ∷ bs) =
    if a == b then lexicographic as' bs else if leb a b then less else more

sign-pos : (n : ℕ) → 0 < n → sign (pos n) ≡ more
sign-pos zero p = absurd (omega arith)
sign-pos (suc n) p = refl

sign-sub_ℕ : (a b : ℕ) → (a == b) ≡ false → sign (sub_ℕ a b) ≡ (if leb a b then less else more)
sign-sub_ℕ a b h = elim (Bool-cases (leb b a)) [
  | inl t ↦
      let not_less : leb a b ≡ false = ground (arith, t, h) in
      rw (t, not_less) (sign-pos (a - b) (ground (arith, t, h)))
  | inr f ↦ let less_eq : leb a b ≡ true = ground (arith, f) in rw (f, less_eq) refl
]

sign-strcmp : (a b : List ℕ) → IsText a → IsText b → sign (strcmp a b) ≡ lexicographic a b
unfolding strcmp
sign-strcmp [] [] p q = refl
sign-strcmp [] (b ∷ bs) p q = sign-sub_ℕ 0 b (ground arith) ∙ ground arith
sign-strcmp (a ∷ as') [] p q =
    let ne : (a == 0) ≡ false = ground arith in rw ne (sign-sub_ℕ a 0 ne ∙ ground arith)
sign-strcmp (a ∷ as') (b ∷ bs) p q = elim (Bool-cases (a == b)) [
  | inl e ↦ rw e (sign-strcmp as' bs p.1 q.1)
  | inr ne ↦ rw ne (sign-sub_ℕ a b ne)
]

-- `strncmp` is `strcmp` on the first `len` bytes.
strncmp_lem :
    (a b : List ℕ) (len : ℕ)
    → IsText a
    → IsText b
    → strncmp a b len ≡ strcmp (take len a) (take len b)
unfolding strncmp strcmp
strncmp_lem a b zero p q = refl
strncmp_lem [] [] (suc len) p q = ground arith
strncmp_lem [] (b ∷ bs) (suc len) p q = ground arith
strncmp_lem (a ∷ as') [] (suc len) p q = ground arith
strncmp_lem (a ∷ as') (b ∷ bs) (suc len) p q = ground (arith, strncmp_lem as' bs len p.1 q.1)

map-tolower-IsText : (a : List ℕ) → IsText a → IsText (map tolower a)
map-tolower-IsText [] p = tt
map-tolower-IsText (c ∷ a) p = (ground arith, map-tolower-IsText a p.1)

strcasecmp_lem :
    (a b : List ℕ) → IsText a → IsText b → strcasecmp a b ≡ strcmp (map tolower a) (map tolower b)
unfolding strcasecmp strcmp
strcasecmp_lem [] [] p q = refl
strcasecmp_lem [] (b ∷ bs) p q = refl
strcasecmp_lem (a ∷ as') [] p q = ground arith
strcasecmp_lem (a ∷ as') (b ∷ bs) p q =
    let some_byte : (tolower a == 0) ≡ false = ground arith in
    let rest = strcasecmp_lem as' bs p.1 q.1 in
    elim (Bool-cases (tolower a == tolower b)) [
      | inl e ↦ rw (e, some_byte) rest
      | inr ne ↦ rw ne refl
    ]

strncasecmp_lem :
    (a b : List ℕ) (len : ℕ)
    → IsText a
    → IsText b
    → strncasecmp a b len ≡ strncmp (map tolower a) (map tolower b) len
unfolding strncasecmp strncmp
strncasecmp_lem a b zero p q = refl
strncasecmp_lem [] [] (suc len) p q = refl
strncasecmp_lem [] (b ∷ bs) (suc len) p q = refl
strncasecmp_lem (a ∷ as') [] (suc len) p q =
    let some_byte : (tolower a == 0) ≡ false = ground arith in rw some_byte refl
strncasecmp_lem (a ∷ as') (b ∷ bs) (suc len) p q = rw (strncasecmp_lem as' bs len p.1 q.1) refl

-- On texts, the sign of `strcmp` is the lexicographic order of the bytes; `strncmp` compares the
-- first `len` bytes like `strcmp`; and the functions that ignore case compare like these two after
-- every letter is made small.
pub compare_lem :
    (a b : List ℕ) (len : ℕ)
    → IsText a
    → IsText b
    → (sign (strcmp a b) ≡ lexicographic a b)
      × (strncmp a b len ≡ strcmp (take len a) (take len b))
      × (strcasecmp a b ≡ strcmp (map tolower a) (map tolower b))
      × (strncasecmp a b len ≡ strncmp (map tolower a) (map tolower b) len)
compare_lem a b len p q = (
  sign-strcmp a b p q,
  strncmp_lem a b len p q,
  strcasecmp_lem a b p q,
  strncasecmp_lem a b len p q,
)
