-- ===== src/Hmalloc/Release.antt =====
-- `hfree` of libc/hmalloc/hmalloc.c: a block is released and joined with its free neighbours.
use mathlib.Core.Path.{subst}
use hojicha.Hmalloc.{
  Heap, block_overhead, mark_free, merge_with, insert_last, insert_free_block,
  remove_from_free_list, merge_next, get_next, ◌>>=◌,
}
use hojicha.Hmalloc.FreeList.{linked, at_same}
use hojicha.Hmalloc.FreeOps.{Lists, insert_free_block-Lists}
use hojicha.Hmalloc.Tiles.{
  Block, Tiled, address_after, free_addrs, IsHeap, tiled_replace, tiled_split, tiled_le, le_after,
  between, length-free_addrs, at_out, unfocus,
}
use hojicha.Hmalloc.Merge.{Loose, absorb}
use hojicha.Hmalloc.Neighbours.{get_next-last, get_next-block}
use hojicha.Common.{
  ℕ, ◌+◌, ◌≤◌, ◌≡◌, ◌⊎◌, inl, inr, refl, List, [], ◌∷◌, ◌++◌, length, Option, none, some, Bool,
  true, false, ◌==◌, not, ◌&&◌, if◌then◌else◌, arith, sym, ap, ◌∙◌, if_no, if_yes,
}

-- A free block of `s` bytes before the blocks `post`.
unfoldable pub join_next : ℕ → List Block → List Block
join_next s [] = (s, true) ∷ []
join_next s ((n, true) ∷ post) = (s + n + block_overhead, true) ∷ post
join_next s ((n, false) ∷ post) = (s, true) ∷ (n, false) ∷ post

unfoldable pub release_after : Block → List Block → ℕ → List Block → List Block
unfolding join_next
release_after (p, true) [] s post = join_next (p + s + block_overhead) post
release_after (p, false) [] s post = (p, false) ∷ join_next s post
release_after x (y ∷ pre) s post = x ∷ release_after y pre s post

-- The blocks once the one between `pre` and `post` is free.
unfoldable pub released : List Block → ℕ → List Block → List Block
unfolding join_next release_after
released [] s post = join_next s post
released (x ∷ pre) s post = release_after x pre s post

abbrev with_block : ℕ → Option Heap → Option (Heap × ℕ)
with_block c o = o >>= λ h. some (h, c)

pub paired :
    (o : Option Heap) (f : Heap → Heap) (c : ℕ) (h' : Heap)
    → (o >>= λ h. some (f h)) ≡ some h'
    → ◌≡◌ {A = Option (Heap × ℕ)} (o >>= λ h. some (f h, c)) (some (h', c))
paired none f c h' e = ap (with_block c) e
paired (some h) f c h' e = ap (with_block c) e

module _ (fuel : ℕ) (h : Heap) (pre : List Block) (s : ℕ) where
  abbrev a : ℕ
  a = address_after h.first_available_vaddr pre

  pub insert-Loose :
      (post : List Block)
      → Loose h pre s post
      → length pre ≤ fuel
      → (h' : Heap) × (insert_free_block fuel h a ≡ some h')
        × (h'.first_available_vaddr ≡ h.first_available_vaddr)
        × IsHeap h' (pre ++ (s, true) ∷ post)
  unfolding Loose Lists Tiled free_addrs
  insert-Loose post (i, lo, hi, t, l) hf =
      let m = h.memory in
      let first = h.first_available_vaddr in
      let end = a + 33 + s in
      let last = h.last_footer + 8 in
      let (t₁, ((e₁, e₂, e₃, e₄), t₂)) = tiled_split m first pre ((s, true) ∷ post) last t in
      let (next', fr, r, l') =
        insert_free_block-Lists fuel h a (free_addrs first pre) (free_addrs end post)
          (omega (arith, hf, length-free_addrs first pre)) l
          (between 0 first pre a end post lo (omega arith) (omega arith)) in
      let h' : Heap = linked (mark_free h a true) next' fr in
      (
        h',
        r,
        refl,
        unfocus h' pre ((s, true) ∷ post) i lo hi
            (tiled_replace m h'.memory first a end last pre ((s, true) ∷ []) post t₁ t₂
              (λ q o.
                (refl, at_out m.is_free a a end true q (omega arith) (omega arith) o, refl, refl))
              ((e₁, at_same m.is_free a true, e₃, e₄), refl))
            l',
      )

module _ (fuel : ℕ) (h : Heap) (pre : List Block) (s : ℕ) where
  abbrev start : ℕ
  start = address_after h.first_available_vaddr pre

  abbrev Joined : List Block → Type 0
  Joined post =
      (h' : Heap) × ((merge_next fuel (h, start) >>= insert_last fuel) ≡ some h')
      × IsHeap h' (pre ++ join_next s post)

  -- When nothing is merged.
  alone :
      (post : List Block)
      → (get_next h start ≡ 0) ⊎ (h.memory.is_free (get_next h start) ≡ false)
      → Loose h pre s post
      → length pre ≤ fuel
      → (h' : Heap) × ((merge_next fuel (h, start) >>= insert_last fuel) ≡ some h')
        × IsHeap h' (pre ++ (s, true) ∷ post)
  unfolding merge_next
  alone post stop o hf =
      let (h', r, _, o') = insert-Loose fuel h pre s post o hf in
      (h', ap (λ x. x >>= insert_last fuel) (if_no _ _ (blocked (get_next h start) _ stop)) ∙ r, o')
    where
      blocked : (n : ℕ) (b : Bool) → (n ≡ 0) ⊎ (b ≡ false) → (not (n == 0) && b) ≡ false
      blocked n b (inl e) = ground (arith, e)
      blocked n b (inr e) = ground (arith, e)

  pub join : (post : List Block) → Loose h pre s post → length pre ≤ fuel → Joined post
  unfolding Loose Tiled join_next free_addrs merge_next
  join [] o hf =
      let (i, lo, hi, t, l) = o in
      let (_, (ta, e)) = tiled_split h.memory h.first_available_vaddr pre ((s, true) ∷ []) _ t in
      alone []
        (inl (get_next-last h start s true lo (le_after _ pre) (omega (arith, e)) ta (sym e))) o hf
  join ((n, false) ∷ post) o hf =
      let (i, lo, hi, t, l) = o in
      let (_, (ta, (tb, t₂))) =
        tiled_split h.memory h.first_available_vaddr pre ((s, true) ∷ (n, false) ∷ post) _ t in
      let next =
        get_next-block h start s true n false lo (le_after _ pre) (tiled_le h.memory _ post _ t₂) ta
          tb in
      let (_, used, _, _) = tb in
      alone ((n, false) ∷ post) (inr (ap h.memory.is_free next ∙ used)) o hf
  join ((n, true) ∷ post) o hf =
      let (i, lo, hi, t, l) = o in
      let b = start + 33 + s in
      let (_, (ta, (tb, t₂))) =
        tiled_split h.memory h.first_available_vaddr pre ((s, true) ∷ (n, true) ∷ post) _ t in
      let next =
        get_next-block h start s true n true lo (le_after _ pre) (tiled_le h.memory _ post _ t₂) ta
          tb in
      let (_, free, _, _) = tb in
      let (h₁, r, e, o') =
        absorb fuel h pre s n true post b i lo hi t (omega arith) (omega arith) l hf in
      let (h', r', _, o'') = insert-Loose fuel h₁ pre (s + n + 33) post o' hf in
      (
        h',
        ap (λ x. x >>= insert_last fuel)
              (ap
                  (λ q.
                    if not (q == 0) && h.memory.is_free q
                    then (remove_from_free_list fuel h q >>= λ h'.
                        some (merge_with start q h', start))
                    else some (h, start))
                  next
                ∙ if_yes {b = not (b == 0) && h.memory.is_free b} _ (some (h, start))
                    (ground (arith, free))
                ∙ paired (remove_from_free_list fuel h b) (merge_with start b) start h₁ r)
            ∙ subst (λ q. insert_free_block fuel h₁ (address_after q pre) ≡ some h') e r',
        o'',
      )
