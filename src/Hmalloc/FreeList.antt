-- ===== src/Hmalloc/FreeList.antt =====
-- The writes of libc/hmalloc/hmalloc.c to the list of free blocks.
use mathlib.Core.Path.{subst}
use hojicha.Hmalloc.{Heap, at, with_next, link_after, unlink, relink}
use hojicha.Hmalloc.Chain.{Linked, Ascending, last, frame, below, above, last_below, tail, spliced}
use hojicha.Common.{ℕ, ◌<◌, ◌≡◌, List, [], ◌∷◌, ◌++◌, ◌==◌, arith, sym, ◌∙◌, ==_refl, if_yes, if_no}

pub at_same {ℓ} : {A : Type ℓ} (f : ℕ → A) (p : ℕ) (v : A) → at f p v p ≡ v
at_same f p v = if_yes v (f p) (==_refl p)

pub at_above {ℓ} : {A : Type ℓ} (f : ℕ → A) (p : ℕ) (v : A) (q : ℕ) → p < q → at f p v q ≡ f q
at_above f p v q h = if_no {b = q == p} v (f q) (ground (arith, h))

pub at_below {ℓ} : {A : Type ℓ} (f : ℕ → A) (p : ℕ) (v : A) (q : ℕ) → q < p → at f p v q ≡ f q
at_below f p v q h = if_no {b = q == p} v (f q) (ground (arith, h))

abbrev pub linked : Heap → (next : ℕ → ℕ) → (free_regions : ℕ) → Heap
linked h next free_regions = record (with_next h next) { free_regions = free_regions }

-- A block that is not on the list may get another `next`.
pub write_between :
    (next : ℕ → ℕ) (lo p : ℕ) (pre post : List ℕ) (b v : ℕ)
    → Ascending lo (pre ++ b ∷ post)
    → Linked next p (pre ++ post)
    → Linked (at next b v) p (pre ++ post)
unfolding Linked Ascending
write_between next lo p [] post b v (lt, asc) l =
    frame next (at next b v) b p post (λ a h. at_above next b v a h) asc l
write_between next lo p (x ∷ pre) post b v (lt, asc) (e, l) = (
  e,
  subst (λ q. Linked (at next b v) q (pre ++ post))
      (sym (at_below next b v x (below x pre b post asc)))
      (write_between next x (next x) pre post b v asc l),
)

-- The same for a block whose place is after `a`.
pub write_after :
    (next : ℕ → ℕ) (lo p : ℕ) (pre : List ℕ) (a : ℕ) (post : List ℕ) (b v : ℕ)
    → Ascending lo (pre ++ a ∷ post)
    → a < b
    → Ascending b post
    → Linked next p (pre ++ a ∷ post)
    → Linked (at next b v) p (pre ++ a ∷ post)
unfolding Linked Ascending
write_after next lo p [] a post b v (lt, asc) hb asc' (e, l) = (
  e,
  subst (λ q. Linked (at next b v) q post) (sym (at_below next b v a hb))
      (frame next (at next b v) b (next a) post (λ q h. at_above next b v q h) asc' l),
)
write_after next lo p (x ∷ pre) a post b v (lt, asc) hb asc' (e, l) = (
  e,
  subst (λ q. Linked (at next b v) q (pre ++ a ∷ post))
      (sym (at_below next b v x (omega (arith, hb, below x pre a post asc))))
      (write_after next x (next x) pre a post b v asc hb asc' l),
)

module _ (next : ℕ → ℕ) (x : ℕ) (pre : List ℕ) (b : ℕ) (post : List ℕ)
    (asc : Ascending x (pre ++ b ∷ post)) where
  pub linked_after :
      Linked next (next x) (pre ++ post)
      → Linked (link_after next b (last x pre)) (link_after next b (last x pre) x) (pre ++ b ∷ post)
  unfolding Linked
  linked_after l =
      let p = last x pre in
      let next' = link_after next b p in
      let (_, h) = last_below x pre b post asc in
      let same : next' b ≡ next p =
        at_above (at next b (next p)) p b b h ∙ at_same next b (next p) in
      spliced next next' x pre b post post (b ∷ post) asc l
        (λ a lt.
          at_below (at next b (next p)) p b a lt
          ∙ at_below next b (next p) a (omega (arith, lt, h)))
        (
          at_same (at next b (next p)) p b,
          subst (λ q. Linked next' q post) (sym same)
              (frame next next' b (next p) post
                (λ a lt.
                  at_above (at next b (next p)) p b a (omega (arith, lt, h))
                  ∙ at_above next b (next p) a lt)
                (above x pre b post asc) (tail next x pre post l)),
        )

  pub unlinked :
      Linked next (next x) (pre ++ b ∷ post)
      → Linked (unlink next b (last x pre)) (unlink next b (last x pre) x) (pre ++ post)
  unfolding Linked
  unlinked l =
      let p = last x pre in
      let next' = at (at next p (next b)) b 0 in
      let (_, h) = last_below x pre b post asc in
      let (e, l') = tail next x pre (b ∷ post) l in
      let first : next' p ≡ next b =
        at_below (at next p (next b)) b 0 p h ∙ at_same next p (next b) in
      subst (λ n. Linked n (n x) (pre ++ post))
        (sym (if_yes {b = next p == b} next' next (ground (arith, e))))
        (spliced next next' x pre b post (b ∷ post) post asc l
          (λ a lt.
            at_below (at next p (next b)) b 0 a (omega (arith, lt, h))
            ∙ at_below next p (next b) a lt)
          (subst (λ q. Linked next' q post) (sym first)
            (frame next next' b (next b) post
              (λ a lt.
                at_above (at next p (next b)) b 0 a lt
                ∙ at_above next p (next b) a (omega (arith, lt, h)))
              (above x pre b post asc) l')))

  pub relinked :
      (b' : ℕ)
      → b < b'
      → Ascending b' post
      → Linked next (next x) (pre ++ b ∷ post)
      → Linked (relink next b b' (last x pre)) (relink next b b' (last x pre) x) (pre ++ b' ∷ post)
  unfolding Linked
  relinked b' hb asc' l =
      let p = last x pre in
      let next₁ = at next b' (next b) in
      let next₂ = at next₁ p b' in
      let next' = at next₂ b 0 in
      let (_, h) = last_below x pre b post asc in
      let (e, l') = tail next x pre (b ∷ post) l in
      let first : next' p ≡ b' = at_below next₂ b 0 p h ∙ at_same next₁ p b' in
      let second : next' b' ≡ next b =
        at_above next₂ b 0 b' hb
        ∙ at_above next₁ p b' b' (omega (arith, h, hb))
        ∙ at_same next b' (next b) in
      spliced next next' x pre b post (b ∷ post) (b' ∷ post) asc l
        (λ a lt.
          at_below next₂ b 0 a (omega (arith, lt, h))
          ∙ at_below next₁ p b' a lt
          ∙ at_below next b' (next b) a (omega (arith, lt, h, hb)))
        (
          first,
          subst (λ q. Linked next' q post) (sym second)
              (frame next next' b' (next b) post
                (λ a lt.
                  at_above next₂ b 0 a (omega (arith, lt, hb))
                  ∙ at_above next₁ p b' a (omega (arith, lt, h, hb))
                  ∙ at_above next b' (next b) a lt)
                asc' l'),
        )
