-- ===== src/Hmalloc/Chain.antt =====
-- The list of free blocks of libc/hmalloc/hmalloc.c, as the addresses on it.
use mathlib.Core.Path.{subst}
use hojicha.Hmalloc.{insert_walk, remove_walk, replace_walk}
use hojicha.Common.{
  ℕ, zero, suc, ◌<◌, ◌≤◌, ◌≡◌, List, [], ◌∷◌, ◌++◌, length, some, true, ◌==◌, ltb, ◌||◌, not,
  if◌then◌else◌, arith, sym, ap, ◌∙◌, if_yes, if_no,
}

-- From the pointer `p` on, the list holds the blocks `xs`.
unfoldable pub Linked : (next : ℕ → ℕ) → ℕ → List ℕ → Type 0
Linked next p [] = p ≡ 0
Linked next p (x ∷ xs) = (p ≡ x) × Linked next (next x) xs

unfoldable pub Ascending : ℕ → List ℕ → Type 0
Ascending lo [] = Unit
Ascending lo (x ∷ xs) = (lo < x) × Ascending x xs

-- The last of `x ∷ pre`.
unfoldable pub last : ℕ → List ℕ → ℕ
last x [] = x
last x (y ∷ pre) = last y pre

-- What is not on the list may change.
pub frame :
    (next next' : ℕ → ℕ) (lo p : ℕ) (xs : List ℕ)
    → ((a : ℕ) → lo < a → next' a ≡ next a)
    → Ascending lo xs
    → Linked next p xs
    → Linked next' p xs
unfolding Linked Ascending
frame next next' lo p [] agree asc l = l
frame next next' lo p (x ∷ xs) agree (lt, asc) (e, l) = (
  e,
  subst (λ q. Linked next' q xs) (sym (agree x lt))
      (frame next next' x (next x) xs (λ a h. agree a (omega (arith, h, lt))) asc l),
)

pub below : (x : ℕ) (pre : List ℕ) (b : ℕ) (post : List ℕ) → Ascending x (pre ++ b ∷ post) → x < b
unfolding Ascending
below x [] b post (lt, asc) = lt
below x (y ∷ pre) b post (lt, asc) = omega (arith, lt, below y pre b post asc)

pub above :
    (x : ℕ) (pre : List ℕ) (b : ℕ) (post : List ℕ)
    → Ascending x (pre ++ b ∷ post)
    → Ascending b post
unfolding Ascending
above x [] b post (lt, asc) = asc
above x (y ∷ pre) b post (lt, asc) = above y pre b post asc

pub last_below :
    (x : ℕ) (pre : List ℕ) (b : ℕ) (post : List ℕ)
    → Ascending x (pre ++ b ∷ post)
    → (x ≤ last x pre) × (last x pre < b)
unfolding Ascending last
last_below x [] b post (lt, asc) = (omega arith, lt)
last_below x (y ∷ pre) b post (lt, asc) =
    let (h, h') = last_below y pre b post asc in (omega (arith, lt, h), h')

pub tail :
    (next : ℕ → ℕ) (x : ℕ) (pre post : List ℕ)
    → Linked next (next x) (pre ++ post)
    → Linked next (next (last x pre)) post
unfolding Linked last
tail next x [] post l = l
tail next x (y ∷ pre) post (e, l) = tail next y pre post l

-- A new end of the list after the last of `x ∷ pre`.
pub spliced :
    (next next' : ℕ → ℕ) (x : ℕ) (pre : List ℕ) (b : ℕ) (rest post post' : List ℕ)
    → Ascending x (pre ++ b ∷ rest)
    → Linked next (next x) (pre ++ post)
    → ((a : ℕ) → a < last x pre → next' a ≡ next a)
    → Linked next' (next' (last x pre)) post'
    → Linked next' (next' x) (pre ++ post')
unfolding Linked Ascending last
spliced next next' x [] b rest post post' asc l agree l' = l'
spliced next next' x (y ∷ pre) b rest post post' (lt, asc) (e, l) agree l' =
    let (h, _) = last_below y pre b rest asc in
    (agree x (omega (arith, lt, h)) ∙ e, spliced next next' y pre b rest post post' asc l agree l')

module _ (next : ℕ → ℕ) (b : ℕ) where
  stops :
      (p : ℕ) (post : List ℕ)
      → Linked next p post
      → Ascending b post
      → (p == 0 || not (ltb p b)) ≡ true
  unfolding Linked Ascending
  stops p [] e asc = ground (arith, e)
  stops p (y ∷ ys) (e, l) (lt, asc) = ground (arith, e, lt)

  pub insert_walk_lem :
      (fuel x : ℕ) (pre post : List ℕ)
      → length pre < fuel
      → Linked next (next x) (pre ++ post)
      → Ascending x (pre ++ b ∷ post)
      → insert_walk fuel next x b ≡ some (last x pre)
  unfolding insert_walk Linked Ascending last
  insert_walk_lem zero x [] post hf l asc = absurd (omega (arith, hf))
  insert_walk_lem zero x (y ∷ pre) post hf l asc = absurd (omega (arith, hf))
  insert_walk_lem (suc fuel) x [] post hf l (lt, asc) =
      ap (λ t. if t then some x else insert_walk fuel next (next x) b) (stops (next x) post l asc)
  insert_walk_lem (suc fuel) x (y ∷ pre) post hf (e, l) (lt, asc) =
      let h = below y pre b post asc in
      if_no (some x) (insert_walk fuel next (next x) b) (ground (arith, e, lt, h))
      ∙ ap (λ q. insert_walk fuel next q b) e
      ∙ insert_walk_lem fuel y pre post (omega (arith, hf)) l asc

  pub remove_walk_lem :
      (fuel x : ℕ) (pre post : List ℕ)
      → length pre < fuel
      → Linked next (next x) (pre ++ b ∷ post)
      → Ascending x (pre ++ b ∷ post)
      → remove_walk fuel next x b ≡ some (last x pre)
  unfolding remove_walk Linked Ascending last
  remove_walk_lem zero x [] post hf l asc = absurd (omega (arith, hf))
  remove_walk_lem zero x (y ∷ pre) post hf l asc = absurd (omega (arith, hf))
  remove_walk_lem (suc fuel) x [] post hf (e, l) (lt, asc) =
      if_yes (some x) (remove_walk fuel next (next x) b) (ground (arith, e))
  remove_walk_lem (suc fuel) x (y ∷ pre) post hf (e, l) (lt, asc) =
      let h = below y pre b post asc in
      if_no (some x) (remove_walk fuel next (next x) b) (ground (arith, e, lt, h))
      ∙ ap (λ q. remove_walk fuel next q b) e
      ∙ remove_walk_lem fuel y pre post (omega (arith, hf)) l asc

  pub replace_walk_lem :
      (fuel x : ℕ) (pre post : List ℕ)
      → 0 < x
      → length pre < fuel
      → Linked next (next x) (pre ++ b ∷ post)
      → Ascending x (pre ++ b ∷ post)
      → replace_walk fuel next x b ≡ some (last x pre)
  unfolding replace_walk Linked Ascending last
  replace_walk_lem zero x [] post hx hf l asc = absurd (omega (arith, hf))
  replace_walk_lem zero x (y ∷ pre) post hx hf l asc = absurd (omega (arith, hf))
  replace_walk_lem (suc fuel) x [] post hx hf (e, l) (lt, asc) =
      if_yes (some x) (replace_walk fuel next (next x) b) (ground (arith, e))
  replace_walk_lem (suc fuel) x (y ∷ pre) post hx hf (e, l) (lt, asc) =
      let h = below y pre b post asc in
      if_no (some x) (replace_walk fuel next (next x) b) (ground (arith, e, lt, h, hx))
      ∙ ap (λ q. replace_walk fuel next q b) e
      ∙ replace_walk_lem fuel y pre post (omega (arith, lt)) (omega (arith, hf)) l asc
