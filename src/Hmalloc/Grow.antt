-- ===== src/Hmalloc/Grow.antt =====
-- `grow_heap_by` of libc/hmalloc/hmalloc.c.
use mathlib.Core.Path.{subst}
use hojicha.Hmalloc.{
  Heap, sizeof_header, sizeof_footer, block_overhead, page_size, align_up, append_block,
  grow_heap_by, insert_free_block, insert_and_return, merge_with, remove_from_free_list, ◌>>=◌,
}
use hojicha.Hmalloc.Chain.{Linked}
use hojicha.Hmalloc.FreeList.{at_same, write_between}
use hojicha.Hmalloc.Tiles.{
  Block, Tiled, address_after, free_addrs, IsHeap, tiled_replace, tiled_split, tiled_after, between,
  at_out,
}
use hojicha.Hmalloc.Merge.{Loose, absorb}
use hojicha.Hmalloc.Release.{join_next, released, insert-Loose}
use hojicha.Hmalloc.Free.{
  one_more, address_after-append, released-used, released-free, pieces, on_list,
}
use hojicha.Common.{
  ℕ, suc, ◌+◌, ◌-◌, ◌*◌, ◌%◌, ◌<◌, ◌≤◌, ◌^◌, ◌≡◌, refl, List, [], ◌∷◌, ◌++◌, length, Option, none,
  some, Bool, true, false, ◌==◌, arith, sym, ap, ◌∙◌, if_no, if_yes, length-append,
}

append_nil {ℓ} : {A : Type ℓ} (xs : List A) → xs ++ [] ≡ xs
append_nil [] = refl
append_nil (x ∷ xs) = ap (λ l. x ∷ l) (append_nil xs)

-- The size of the block that `pages` new pages at `new_pages` make.
abbrev pub new_size : Heap → (new_pages pages : ℕ) → ℕ
new_size h new_pages pages =
    (pages * page_size
      + (new_pages + 2 ^ 64 - (h.last_footer + sizeof_footer)) % 2 ^ 64
      + 2 ^ 64
      - sizeof_header
      - sizeof_footer)
    % 2 ^ 64

module _ (h : Heap) (new_pages pages : ℕ) where
  abbrev end : ℕ
  end = h.last_footer + sizeof_footer

  abbrev size : ℕ
  size = new_size h new_pages pages

  -- The new pages lie behind the heap, they hold a block, and memory has room for them.
  abbrev pub Fits : Type 0
  Fits = (end ≤ new_pages) × (0 < pages) × (new_pages + pages * page_size < 2 ^ 64)

  pub new_size_lem : Fits → size + block_overhead ≡ new_pages + pages * page_size - end
  new_size_lem (le, pos, lt) = omega (arith, le, pos, lt)

  abbrev pub grown : Heap
  grown = append_block h new_pages pages

  pub append_block-Loose : (bs : List Block) → IsHeap h bs → Fits → Loose grown bs size []
  unfolding append_block IsHeap Loose Tiled free_addrs
  append_block-Loose bs (i, lo, hi, t, l) fits =
      let m = h.memory in
      let first = h.first_available_vaddr in
      let m' = grown.memory in
      let room = new_size_lem fits in
      let (le, pos, lt) = fits in
      let at_end = tiled_after m first bs end t in
      let top = end + 33 + size in
      let footer = end + 25 + size in
      (
        i,
        lo,
        omega (arith, room, lt, le),
        tiled_replace m m' first end top (end + 25 + size + 8) bs ((size, true) ∷ []) [] t
            (omega arith)
            (λ q o. (
              at_out m.size_bytes end end top size q (omega arith) (omega arith) o,
              at_out m.is_free end end top true q (omega arith) (omega arith) o,
              at_out m.footer end end top footer q (omega arith) (omega arith) o,
              at_out m.header end footer top end q (omega arith) (omega arith) o,
            ))
            (
              (
                at_same m.size_bytes end size,
                at_same m.is_free end true,
                at_same m.footer end footer,
                at_same m.header footer end,
              ),
              refl,
            ),
        write_between m.next 0 h.free_regions (free_addrs first bs) [] end 0
            (between 0 first bs end (suc end) [] lo (omega (arith, at_end)) (omega arith))
            (subst (Linked m.next h.free_regions) (sym (append_nil (free_addrs first bs))) l),
      )

bind_some {ℓ} :
    {B : Type ℓ} (o : Option Heap) (f : Heap → Heap) (g : Heap → Option B) (h : Heap)
    → (o >>= λ x. some (f x)) ≡ some h
    → (o >>= λ x. g (f x)) ≡ g h
bind_some none f g h e = ap (λ o. o >>= g) e
bind_some (some x) f g h e = ap (λ o. o >>= g) e

-- The heap after the growth ends with a free block, of which `grow_heap_by` returns the address.
abbrev pub Grown : Heap → ℕ → List Block → ℕ → Option (Heap × ℕ) → Type 0
Grown h fuel bs size r =
    (h' : Heap) × (pre : List Block) × (s : ℕ) × (r
      ≡ some (h', address_after h.first_available_vaddr pre))
    × (h'.first_available_vaddr ≡ h.first_available_vaddr)
    × (released bs size [] ≡ pre ++ (s, true) ∷ [])
    × (size ≤ s)
    × (length pre ≤ fuel)
    × IsHeap h' (pre ++ (s, true) ∷ [])

module _ (fuel : ℕ) (map_heap_pages : ℕ → ℕ → ℕ) (h : Heap) (pages : ℕ) (pre : List Block)
    (p : ℕ) where
  abbrev new_pages : ℕ
  new_pages = map_heap_pages (align_up (h.last_footer + sizeof_footer) page_size) pages

  abbrev a : ℕ
  a = address_after h.first_available_vaddr pre

  abbrev larger : Heap
  larger = grown h new_pages pages

  abbrev added : ℕ
  added = new_size h new_pages pages

  last_end :
      (f : Bool)
      → IsHeap h (pre ++ (p, f) ∷ [])
      → (h.memory.header h.last_footer ≡ a)
        × (a + block_overhead + p ≡ h.last_footer + sizeof_footer)
  unfolding IsHeap Tiled
  last_end f (_, _, _, t, _) =
      let (_, (ta, e)) = tiled_split h.memory h.first_available_vaddr pre ((p, f) ∷ []) _ t in
      let (_, _, _, header) = ta in
      let footer : h.last_footer ≡ a + 25 + p = omega (arith, e) in
      (ap h.memory.header footer ∙ header, e)

  -- The tests of `grow_heap_by`, when the last block is `f`.
  tests :
      (f : Bool)
      → IsHeap h (pre ++ (p, f) ∷ [])
      → Fits h new_pages pages
      → (pages == 0) ≡ false
        × (new_pages == 0) ≡ false
        × (larger.memory.is_free (h.memory.header h.last_footer) ≡ f)
  unfolding append_block
  tests f ok fits =
      let (le, pos, _) = fits in
      let o = append_block-Loose h new_pages pages (pre ++ (p, f) ∷ []) ok fits in
      let ((_, free, _, _), _, _) = pieces fuel larger added [] pre p f o in
      let (e, _) = last_end f ok in
      (ground (arith, pos), ground (arith, le), ap larger.memory.is_free e ∙ free)

  grow_used :
      IsHeap h (pre ++ (p, false) ∷ [])
      → Fits h new_pages pages
      → length (pre ++ (p, false) ∷ []) ≤ fuel
      → Grown h fuel (pre ++ (p, false) ∷ []) added (grow_heap_by fuel map_heap_pages h pages)
  unfolding grow_heap_by append_block join_next
  grow_used ok fits hf =
      let (some_pages, mapped, used) = tests false ok fits in
      let o = append_block-Loose h new_pages pages (pre ++ (p, false) ∷ []) ok fits in
      let (h', r, e, o') = insert-Loose fuel larger (pre ++ (p, false) ∷ []) added [] o hf in
      let (_, there) = last_end false ok in
      let place_block = address_after-append h.first_available_vaddr pre p false ∙ there in
      (
        h',
        pre ++ (p, false) ∷ [],
        added,
        if_no _ _ some_pages
            ∙ if_no _ _ mapped
            ∙ if_no _ _ used
            ∙ subst
                (λ q.
                  insert_and_return fuel q larger
                  ≡ some (h', address_after h.first_available_vaddr (pre ++ (p, false) ∷ [])))
                place_block
                (ap
                  (λ x. x >>= λ h'.
                    some (h', address_after h.first_available_vaddr (pre ++ (p, false) ∷ [])))
                  r),
        e,
        released-used pre p added [],
        omega arith,
        hf,
        o',
      )

  grow_free :
      IsHeap h (pre ++ (p, true) ∷ [])
      → Fits h new_pages pages
      → length (pre ++ (p, true) ∷ []) ≤ fuel
      → Grown h fuel (pre ++ (p, true) ∷ []) added (grow_heap_by fuel map_heap_pages h pages)
  unfolding grow_heap_by append_block Loose join_next
  grow_free ok fits hf =
      let (some_pages, mapped, free) = tests true ok fits in
      let o = append_block-Loose h new_pages pages (pre ++ (p, true) ∷ []) ok fits in
      let (i, lo, hi, t, _) = o in
      let (last, there) = last_end true ok in
      let hf' : length pre ≤ fuel = omega (arith, hf, length-append pre ((p, true) ∷ [])) in
      let t' =
        subst (λ bs. Tiled larger.memory h.first_available_vaddr bs (larger.last_footer + 8))
          (one_more pre (p, true) ((added, true) ∷ [])) t in
      let (h₁, r, e, o') =
        absorb fuel larger pre p added true [] a i lo hi t' (omega arith) (omega arith)
          (on_list fuel larger added [] pre p o) hf' in
      let (h', r', e', o'') = insert-Loose fuel h₁ pre (p + added + 33) [] o' hf' in
      (
        h',
        pre,
        p + added + 33,
        if_no _ _ some_pages
            ∙ if_no _ _ mapped
            ∙ if_yes _ _ free
            ∙ ap
                (λ q. remove_from_free_list fuel larger q >>= λ h'.
                  insert_and_return fuel q (merge_with q (h.last_footer + 8) h'))
                last
            ∙ ap
                (λ q. remove_from_free_list fuel larger a >>= λ h'.
                  insert_and_return fuel a (merge_with a q h'))
                (sym there)
            ∙ bind_some (remove_from_free_list fuel larger a) (merge_with a (a + 33 + p))
                (insert_and_return fuel a) h₁ r
            ∙ ap (λ x. x >>= λ h'. some (h', a))
                (subst (λ q. insert_free_block fuel h₁ (address_after q pre) ≡ some h') e r'),
        e' ∙ e,
        released-free pre p added [],
        omega arith,
        hf',
        o'',
      )

  -- The new pages make a free block, joined with the last block when that is free.
  pub grow_heap_by-Grown :
      (f : Bool)
      → IsHeap h (pre ++ (p, f) ∷ [])
      → Fits h new_pages pages
      → length (pre ++ (p, f) ∷ []) ≤ fuel
      → Grown h fuel (pre ++ (p, f) ∷ []) added (grow_heap_by fuel map_heap_pages h pages)
  grow_heap_by-Grown true = grow_free
  grow_heap_by-Grown false = grow_used
