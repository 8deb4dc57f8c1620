-- ===== src/Hmalloc/Merge.antt =====
-- `merge_blocks` of libc/hmalloc/hmalloc.c: two neighbours become one block.
use mathlib.Core.Path.{subst}
use hojicha.Hmalloc.{
  Memory, Heap, at, sizeof_footer, block_overhead, merge_blocks, merge_with, ◌>>=◌,
  remove_from_free_list,
}
use hojicha.Hmalloc.Chain.{Linked}
use hojicha.Hmalloc.FreeList.{linked, at_same, write_between}
use hojicha.Hmalloc.FreeOps.{Lists, remove_from_free_list-Lists}
use hojicha.Hmalloc.Tiles.{
  Block, Tile, Tiled, address_after, free_addrs, Same, tiled_replace, tiled_split, between,
  length-free_addrs, at_out, at_hit,
}
use hojicha.Common.{
  ℕ, ◌+◌, ◌<◌, ◌≤◌, ◌^◌, ◌≡◌, ◌⊎◌, refl, List, [], ◌∷◌, ◌++◌, length, some, Bool, true, false, ◌==◌,
  arith, sym, ap, ◌∙◌, if_no,
}

-- The heap consists of the blocks, one of which is marked free and is not on the list.
unfoldable pub Loose : Heap → List Block → ℕ → List Block → Type 0
Loose h pre s post =
    let first = h.first_available_vaddr in
    (h.heap_initialized ≡ true)
    × (0 < first)
    × (h.last_footer + sizeof_footer < 2 ^ 64)
    × Tiled h.memory first (pre ++ (s, true) ∷ post) (h.last_footer + sizeof_footer)
    × Linked h.memory.next h.free_regions
        (free_addrs first pre ++ free_addrs (address_after first pre + block_overhead + s) post)

module _ (m : Memory) (a p s : ℕ) (f g : Bool) (t : Tile m a (p, f))
    (t' : Tile m (a + block_overhead + p) (s, g)) where
  abbrev b : ℕ
  b = a + block_overhead + p

  abbrev end : ℕ
  end = b + block_overhead + s

  pub merge_blocks-Same : (q : ℕ) → (q < a) ⊎ (end ≤ q) → Same m (merge_blocks m a b) q
  unfolding merge_blocks
  merge_blocks-Same q o =
      let (_, _, e, _) = t in
      let (_, _, e', _) = t' in
      let sum = m.size_bytes a + (m.size_bytes b + 33) in
      (
        at_out (at m.size_bytes a sum) a b end 0 q (omega arith) (omega arith) o
            ∙ at_out m.size_bytes a a end sum q (omega arith) (omega arith) o,
        at_out m.is_free a b end false q (omega arith) (omega arith) o,
        at_out (at m.footer a (m.footer b)) a b end 0 q (omega arith) (omega arith) o
            ∙ at_out m.footer a a end (m.footer b) q (omega arith) (omega arith) o,
        at_out (at m.header (m.footer a) 0) a (m.footer b) end a q (omega (arith, e'))
              (omega (arith, e')) o
            ∙ at_out m.header a (m.footer a) end 0 q (omega (arith, e)) (omega (arith, e)) o,
      )

  pub merge_blocks-Tile : Tile (merge_blocks m a b) a (p + s + block_overhead, f)
  unfolding merge_blocks
  merge_blocks-Tile =
      let (e₁, e₂, _, _) = t in
      let (e₁', _, e₃', _) = t' in
      let sum = m.size_bytes a + (m.size_bytes b + 33) in
      let other : (a == b) ≡ false = ground arith in
      (
        if_no {b = a == b} 0 _ other ∙ at_same m.size_bytes a sum ∙ omega (arith, e₁, e₁'),
        if_no {b = a == b} false (m.is_free a) other ∙ e₂,
        if_no {b = a == b} 0 _ other ∙ at_same m.footer a (m.footer b) ∙ e₃' ∙ omega arith,
        at_hit (at m.header (m.footer a) 0) (m.footer b) a (a + 25 + (p + s + 33))
            (omega (arith, e₃')),
      )

-- Of two free neighbours one is on the list: it leaves the list, and they become one block.
pub absorb :
    (fuel : ℕ) (h : Heap) (pre : List Block) (p s : ℕ) (g : Bool) (post : List Block) (x : ℕ)
    → (h.heap_initialized ≡ true)
    → (0 < h.first_available_vaddr)
    → (h.last_footer + sizeof_footer < 2 ^ 64)
    → Tiled h.memory h.first_available_vaddr
        (pre ++ (p, true) ∷ (s, g) ∷ post)
        (h.last_footer + sizeof_footer)
    → address_after h.first_available_vaddr pre ≤ x
    → x < address_after h.first_available_vaddr pre + block_overhead + p + block_overhead + s
    → Linked h.memory.next h.free_regions (
        free_addrs h.first_available_vaddr pre
        ++ x
          ∷ free_addrs
              (address_after h.first_available_vaddr pre + block_overhead + p + block_overhead + s)
              post)
    → length pre ≤ fuel
    → (h' : Heap) × ((remove_from_free_list fuel h x >>= λ h'. some (
          merge_with
            (address_after h.first_available_vaddr pre)
            (address_after h.first_available_vaddr pre + block_overhead + p)
            h'))
        ≡ some h')
      × (h'.first_available_vaddr ≡ h.first_available_vaddr)
      × Loose h' pre (p + s + block_overhead) post
unfolding Tiled Lists Loose merge_blocks
absorb fuel h pre p s g post x i lo hi t le lt l hf =
    let m = h.memory in
    let first = h.first_available_vaddr in
    let last = h.last_footer + 8 in
    let a = address_after first pre in
    let b = a + 33 + p in
    let end = b + 33 + s in
    let before = free_addrs first pre in
    let behind = free_addrs end post in
    let (t₁, (ta, (tb, t₂))) = tiled_split m first pre ((p, true) ∷ (s, g) ∷ post) last t in
    let (next', fr, r, l') =
      remove_from_free_list-Lists fuel h x before behind
        (omega (arith, hf, length-free_addrs first pre)) l
        (between 0 first pre x end post lo le lt) in
    let l₁ =
      write_between next' 0 fr before behind a (next' b)
        (between 0 first pre a end post lo (omega arith) (omega arith)) l' in
    let l₂ =
      write_between (at next' a (next' b)) 0 fr before behind b 0
        (between 0 first pre b end post lo (omega arith) (omega arith)) l₁ in
    let same_end : end ≡ a + 33 + (p + s + 33) = omega arith in
    let h' : Heap = merge_with a b (linked h next' fr) in
    let merged : Loose h' pre (p + s + 33) post = (
      i,
      lo,
      hi,
      tiled_replace m h'.memory first a end last pre ((p + s + 33, true) ∷ []) post t₁ t₂
          (merge_blocks-Same m a p s true g ta tb)
          (merge_blocks-Tile m a p s true g ta tb, sym same_end),
      subst (λ e. Linked h'.memory.next fr (before ++ free_addrs e post)) same_end l₂,
    ) in
    (h', ap (λ o. o >>= λ h'. some (merge_with a b h')) r, refl, merged)
