-- ===== src/Hmalloc/Laws.antt =====
-- How `hmalloc`, `hfree` and `hmalloc_usable_size` of libc/hmalloc/hmalloc.c work together.
use mathlib.Core.Path.{subst}
use mathlib.Core.Option.{some_inj, none-ne-some}
use hojicha.Hmalloc.{
  Heap, sizeof_header, bytes_to_pages, hand_out, grow_heap, find_first_fit_block, find_or_grow,
  hmalloc_pages, hmalloc, hfree, ◌>>=◌,
}
use hojicha.Hmalloc.Tiles.{Block, address_after, IsHeap, le_after}
use hojicha.Hmalloc.Occupy.{cut_block}
use hojicha.Hmalloc.Release.{join_next, release_after, released}
use hojicha.Hmalloc.Free.{hfree-IsHeap}
use hojicha.Hmalloc.FirstFit.{place_block, Found, find_first_fit_block-Found}
use hojicha.Hmalloc.Serve.{hand_out-IsHeap}
use hojicha.Common.{
  ℕ, ◌+◌, ◌-◌, ◌<◌, ◌≤◌, ◌≡◌, inl, inr, refl, List, [], ◌∷◌, ◌++◌, length, some, true, false, ◌==◌,
  ltb, leb, not, if◌then◌else◌, arith, sym, ap, ◌∙◌, if_no, if_ind, length-append,
}

-- No free block is at the front.
unfoldable pub StartsUsed : List Block → Type 0
StartsUsed [] = Unit
StartsUsed ((s, true) ∷ bs) = ⊥
StartsUsed ((s, false) ∷ bs) = Unit

-- No two free blocks are neighbours.
unfoldable pub Coalesced : List Block → Type 0
unfolding StartsUsed
Coalesced [] = Unit
Coalesced ((s, true) ∷ bs) = StartsUsed bs × Coalesced bs
Coalesced ((s, false) ∷ bs) = Coalesced bs

apart :
    (pre : List Block) (t : ℕ) (post : List Block)
    → Coalesced (pre ++ (t, true) ∷ post)
    → StartsUsed post
      × ((s : ℕ) (post' : List Block) → released pre s post' ≡ pre ++ join_next s post')
unfolding Coalesced StartsUsed released release_after
apart [] t post (u, _) = (u, λ s post'. refl)
apart ((p, true) ∷ []) t post (u, _) = absurd u
apart ((p, false) ∷ []) t post (u, _) = (u, λ s post'. refl)
apart ((p, true) ∷ y ∷ pre) t post (_, c) =
    let (u, e) = apart (y ∷ pre) t post c in (u, λ s post'. ap (λ l. (p, true) ∷ l) (e s post'))
apart ((p, false) ∷ y ∷ pre) t post c =
    let (u, e) = apart (y ∷ pre) t post c in (u, λ s post'. ap (λ l. (p, false) ∷ l) (e s post'))

join_used : (s : ℕ) (post : List Block) → StartsUsed post → join_next s post ≡ (s, true) ∷ post
unfolding join_next StartsUsed
join_used s [] u = refl
join_used s ((n, true) ∷ post) u = absurd u
join_used s ((n, false) ∷ post) u = refl

module _ (fuel : ℕ) (map_heap_pages : ℕ → ℕ → ℕ) (h : Heap) (bs : List Block) (size pages : ℕ) where
  abbrev pub Placed : ℕ → List Block → Type 0
  Placed a bs' =
      (h' : Heap) × (pre : List Block) × (s : ℕ) × (post : List Block) × (hmalloc fuel
          map_heap_pages h size
        ≡ some (h', a + sizeof_header))
      × (h'.first_available_vaddr ≡ h.first_available_vaddr)
      × (bs ≡ pre ++ (s, true) ∷ post)
      × (a ≡ address_after h.first_available_vaddr pre)
      × (size ≤ s)
      × (bs' ≡ pre ++ (cut_block s size ++ post))
      × IsHeap h' bs'

  searched_here :
      (a : ℕ)
      → h.heap_initialized ≡ true
      → bytes_to_pages size ≡ some pages
      → pages ≤ h.heap_grow_size
      → 0 < a
      → find_first_fit_block fuel h.memory h.free_regions size ≡ some a
      → hmalloc fuel map_heap_pages h size ≡ hand_out fuel size (h, a)
  unfolding hmalloc hmalloc_pages find_or_grow
  searched_here a i hp le pos e =
      if_no _ _ (ap not i)
      ∙ ap (hmalloc_pages fuel map_heap_pages h size) hp
      ∙ ap (λ r. r >>= hand_out fuel size)
          (if_no {b = ltb h.heap_grow_size pages} _ _ (ground (arith, le))
            ∙ ap
                (λ r. r >>= λ first_fit.
                  if first_fit == 0 then grow_heap fuel map_heap_pages h else some (h, first_fit))
                e
            ∙ if_no {b = a == 0} _ _ (ground (arith, pos)))

  -- Exactly the first free block that fits is taken.
  pub hmalloc-place_block :
      (a : ℕ) (bs' : List Block)
      → IsHeap h bs
      → length bs < fuel
      → bytes_to_pages size ≡ some pages
      → pages ≤ h.heap_grow_size
      → place_block h.first_available_vaddr bs size ≡ some (a, bs')
      → Placed a bs'
  unfolding IsHeap
  hmalloc-place_block a bs' ok hf hp le hfit =
      let (_, lo, _, t, l) = ok in
      exact (
        find_first_fit_block-Found fuel h.memory h.first_available_vaddr h.free_regions bs _ size lo
          hf t l)
    where
      exact :
          Found h.first_available_vaddr bs size
            (find_first_fit_block fuel h.memory h.free_regions size)
          → Placed a bs'
      exact (inl (n, _)) = absurd (none-ne-some _ (sym n ∙ hfit))
      exact (inr (pre, s, post, blocks, fit, pl, e)) =
          let (i, lo, _, _, _) = ok in
          let hf' : length pre ≤ fuel =
            omega (arith, hf, ap length blocks, length-append pre ((s, true) ∷ post)) in
          let (h', r, e', ok') =
            hand_out-IsHeap fuel size h pre s post (subst (IsHeap h) blocks ok) fit hf' in
          let there =
            searched_here (address_after h.first_available_vaddr pre) i hp le
              (omega (arith, lo, le_after h.first_available_vaddr pre)) e in
          subst (λ (x : ℕ × List Block). Placed x.0 x.1) (some_inj.0 (sym pl ∙ hfit))
            (h', pre, s, post, there ∙ r, e', blocks, refl, fit, refl, ok')

  -- Where no two free blocks are neighbours and one of them is large enough, `hmalloc` returns the
  -- first such block, and `hfree` of it gives the heap its blocks back. The pages that the size
  -- needs are no more than `heap_grow_size`, and there is more fuel than there are blocks.
  pub hfree-hmalloc :
      (a : ℕ) (bs' : List Block)
      → IsHeap h bs
      → Coalesced bs
      → length bs < fuel
      → bytes_to_pages size ≡ some pages
      → pages ≤ h.heap_grow_size
      → place_block h.first_available_vaddr bs size ≡ some (a, bs')
      → (h' : Heap) × (h'' : Heap) × (hmalloc fuel map_heap_pages h size
          ≡ some (h', a + sizeof_header))
        × (hfree fuel h' (a + sizeof_header) ≡ some h'')
        × IsHeap h'' bs
  unfolding cut_block join_next
  hfree-hmalloc a bs' ok co hf hp le hfit =
      let (h', pre, s, post, r, e, blocks, at_a, fit, blocks', ok') =
        hmalloc-place_block a bs' ok hf hp le hfit in
      let hf' : length pre ≤ fuel =
        omega (arith, hf, ap length blocks, length-append pre ((s, true) ∷ post)) in
      let (u, same) = apart pre s post (subst Coalesced blocks co) in
      let Back : List Block → Type 0 = λ mid.
        IsHeap h' (pre ++ (mid ++ post))
        → (h'' : Heap) × (hfree fuel h' (address_after h'.first_available_vaddr pre + 25)
            ≡ some h'')
          × IsHeap h'' bs in
      let (h'', r', ok'') =
        if_ind Back (leb s (size + 33)) ((s, false) ∷ [])
          ((size, false) ∷ (s - size - 33, true) ∷ [])
          (λ t o.
            let (h'', r', ok'') = hfree-IsHeap fuel h' pre s post o hf' in
            (
              h'',
              r',
              subst (IsHeap h'')
                  (same s post ∙ ap (λ l. pre ++ l) (join_used s post u) ∙ sym blocks) ok'',
            ))
          (λ f o.
            let (h'', r', ok'') =
              hfree-IsHeap fuel h' pre size ((s - size - 33, true) ∷ post) o hf' in
            let whole : size + (s - size - 33) + 33 ≡ s = ground (arith, f) in
            (
              h'',
              r',
              subst (IsHeap h'')
                  (same size ((s - size - 33, true) ∷ post)
                    ∙ ap (λ n. pre ++ (n, true) ∷ post) whole
                    ∙ sym blocks)
                  ok'',
            ))
          (subst (IsHeap h') blocks' ok') in
      (
        h',
        h'',
        r,
        ap (λ q. hfree fuel h' (q + 25)) (at_a ∙ ap (λ q. address_after q pre) (sym e)) ∙ r',
        ok'',
      )
