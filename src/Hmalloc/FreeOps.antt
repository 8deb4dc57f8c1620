-- ===== src/Hmalloc/FreeOps.antt =====
-- The operations of libc/hmalloc/hmalloc.c on the list of free blocks.
use mathlib.Core.Path.{subst}
use hojicha.Hmalloc.{
  Heap, at, with_next, mark_free, link_after, unlink, relink, insert_walk, remove_walk,
  replace_walk, insert_free_block, remove_from_free_list, replace_free_list_block, clear_next,
  ◌>>=◌,
}
use hojicha.Hmalloc.Chain.{
  Linked, Ascending, last, frame, below, last_below, insert_walk_lem, remove_walk_lem,
  replace_walk_lem,
}
use hojicha.Hmalloc.FreeList.{linked, at_same, at_above, linked_after, unlinked, relinked}
use hojicha.Common.{
  ℕ, ◌<◌, ◌≤◌, ◌≡◌, refl, List, [], ◌∷◌, ◌++◌, length, Option, some, true, ◌==◌, ltb, ◌||◌,
  if◌then◌else◌, arith, sym, ap, ◌∙◌, if_yes, if_no,
}

starts :
    (next : ℕ → ℕ) (b p : ℕ) (post : List ℕ)
    → Linked next p post
    → Ascending b post
    → (p == 0 || ltb b p) ≡ true
unfolding Linked Ascending
starts next b p [] e asc = ground (arith, e)
starts next b p (y ∷ ys) (e, l) (lt, asc) = ground (arith, e, lt)

-- The result is `h` with the blocks `xs` on its list.
unfoldable pub Lists : Heap → Option Heap → List ℕ → Type 0
Lists h r xs =
    (next : ℕ → ℕ) × (first : ℕ) × (r ≡ some (linked h next first)) × Linked next first xs

module _ (fuel : ℕ) (h : Heap) (b : ℕ) where
  abbrev next : ℕ → ℕ
  next = h.memory.next

  pub insert_free_block-Lists :
      (pre post : List ℕ)
      → length pre ≤ fuel
      → Linked next h.free_regions (pre ++ post)
      → Ascending 0 (pre ++ b ∷ post)
      → Lists (mark_free h b true) (insert_free_block fuel h b) (pre ++ b ∷ post)
  unfolding Lists insert_free_block Linked Ascending
  insert_free_block-Lists [] post hf l (lt, asc) = (
    at next b h.free_regions,
    b,
    if_no {b = b == 0} (some h) _ (ground (arith, lt))
        ∙ if_yes _ _ (starts next b h.free_regions post l asc),
    (
      refl,
      subst (λ q. Linked (at next b h.free_regions) q post) (sym (at_same next b h.free_regions))
          (frame next (at next b h.free_regions) b h.free_regions post
            (λ a lt. at_above next b _ a lt) asc l),
    ),
  )
  insert_free_block-Lists (x ∷ pre) post hf (e, l) (lt, asc) =
      let hb = below x pre b post asc in
      let (hl, hl') = last_below x pre b post asc in
      let prev = last x pre in
      let next' = link_after next b prev in
      (
        next',
        h.free_regions,
        if_no {b = b == 0} (some h) _ (ground (arith, lt, hb))
            ∙ if_no {b = h.free_regions == 0 || ltb b h.free_regions} _ _
                (ground (arith, e, lt, hb))
            ∙ ap (λ o. o >>= λ p. some (with_next (mark_free h b true) (link_after next b p)))
                (ap (λ q. insert_walk fuel next q b) e
                  ∙ insert_walk_lem next b fuel x pre post (omega (arith, hf)) l asc),
        (e, linked_after next x pre b post asc l),
      )

  pub remove_from_free_list-Lists :
      (pre post : List ℕ)
      → length pre ≤ fuel
      → Linked next h.free_regions (pre ++ b ∷ post)
      → Ascending 0 (pre ++ b ∷ post)
      → Lists h (remove_from_free_list fuel h b) (pre ++ post)
  unfolding Lists remove_from_free_list Linked Ascending
  remove_from_free_list-Lists [] post hf (e, l) (lt, asc) = (
    at next b 0,
    next b,
    if_no {b = b == 0 || h.free_regions == 0} _ _ (ground (arith, e, lt))
        ∙ if_yes {b = h.free_regions == b} _ _ (ground (arith, e)),
    frame next (at next b 0) b (next b) post (λ a lt. at_above next b 0 a lt) asc l,
  )
  remove_from_free_list-Lists (x ∷ pre) post hf (e, l) (lt, asc) =
      let hb = below x pre b post asc in
      (
        unlink next b (last x pre),
        h.free_regions,
        if_no {b = b == 0 || h.free_regions == 0} _ _ (ground (arith, e, lt, hb))
            ∙ if_no {b = h.free_regions == b} _ _ (ground (arith, e, hb))
            ∙ ap (λ o. o >>= λ p. some (with_next h (unlink next b p)))
                (ap (λ q. remove_walk fuel next q b) e
                  ∙ remove_walk_lem next b fuel x pre post (omega (arith, hf)) l asc),
        (e, unlinked next x pre b post asc l),
      )

  pub replace_free_list_block-Lists :
      (b' : ℕ) (pre post : List ℕ)
      → length pre ≤ fuel
      → Linked next h.free_regions (pre ++ b ∷ post)
      → Ascending 0 (pre ++ b ∷ post)
      → b < b'
      → Ascending b' post
      → Lists h (replace_free_list_block fuel h b b') (pre ++ b' ∷ post)
  unfolding Lists replace_free_list_block Linked Ascending
  replace_free_list_block-Lists b' [] post hf (e, l) (lt, asc) hb asc' =
      let next' = at (at next b' (next b)) b 0 in
      (
        next',
        b',
        if_no {b = b == 0 || b' == 0} _ _ (ground (arith, hb, lt))
            ∙ if_yes {b = h.free_regions == b} _ _ (ground (arith, e)),
        (
          refl,
          subst (λ q. Linked next' q post)
              (sym (at_above (at next b' (next b)) b 0 b' hb ∙ at_same next b' (next b)))
              (frame next next' b' (next b) post
                (λ a lt.
                  at_above (at next b' (next b)) b 0 a (omega (arith, lt, hb))
                  ∙ at_above next b' (next b) a lt)
                asc' l),
        ),
      )
  replace_free_list_block-Lists b' (x ∷ pre) post hf (e, l) (lt, asc) hb asc' =
      let hx = below x pre b post asc in
      let prev = last x pre in
      let (hl, _) = last_below x pre b post asc in
      (
        relink next b b' prev,
        h.free_regions,
        if_no {b = b == 0 || b' == 0} _ _ (ground (arith, hb, lt, hx))
            ∙ if_no {b = h.free_regions == b} _ _ (ground (arith, e, hx))
            ∙ ap
                (λ o. o >>= λ p.
                  if p == 0
                  then insert_free_block fuel h b' >>= clear_next b
                  else some (with_next h (relink next b b' p)))
                (ap (λ q. replace_walk fuel next q b) e
                  ∙ replace_walk_lem next b fuel x pre post lt (omega (arith, hf)) l asc)
            ∙ if_no {b = prev == 0} _ _ (ground (arith, lt, hl)),
        (e, relinked next x pre b post asc b' hb asc' l),
      )
