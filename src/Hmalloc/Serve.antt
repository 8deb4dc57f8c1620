-- ===== src/Hmalloc/Serve.antt =====
-- `hmalloc` of libc/hmalloc/hmalloc.c as a whole.
use mathlib.Core.Path.{subst}
use hojicha.Hmalloc.{
  Heap, sizeof_header, sizeof_footer, block_overhead, page_size, align_up, bytes_to_pages,
  grow_heap_by, grow_heap, hand_out, find_first_fit_block, find_or_grow, hmalloc_pages, hmalloc,
  ◌>>=◌,
}
use hojicha.Hmalloc.Tiles.{Block, address_after, IsHeap, le_after, focus, started}
use hojicha.Hmalloc.Occupy.{cut_block, occupy_block-IsHeap}
use hojicha.Hmalloc.Release.{released}
use hojicha.Hmalloc.Free.{by_last}
use hojicha.Hmalloc.FirstFit.{Found, find_first_fit_block-Found}
use hojicha.Hmalloc.Grow.{Fits, Grown, new_size, new_size_lem, grow_heap_by-Grown}
use hojicha.Common.{
  ℕ, ◌+◌, ◌*◌, ◌%◌, ◌<◌, ◌≤◌, ◌^◌, ◌≡◌, ◌⊎◌, inl, inr, refl, List, [], ◌∷◌, ◌++◌, length, Option,
  none, some, Bool, true, ◌==◌, ltb, not, if◌then◌else◌, arith, sym, ap, ◌∙◌, if_no, if_yes, if_ind,
  Bool-cases, length-append,
}

-- `map_heap_pages` fails, or maps the pages at the address it is asked for, where memory has room.
unfoldable pub Maps : (ℕ → ℕ → ℕ) → Type 0
Maps map_heap_pages =
    (addr pages : ℕ)
    → (map_heap_pages addr pages ≡ 0)
      ⊎ ((map_heap_pages addr pages ≡ addr) × (addr + pages * page_size < 2 ^ 64))

-- A free block of the heap, or of the heap with a free block of `n` bytes added to its end, is taken.
abbrev pub Served : Heap → List Block → ℕ → Heap → ℕ → Type 0
Served h bs size h' p =
    (pre : List Block) × (s : ℕ) × (post : List Block) × ((pre ++ (s, true) ∷ post ≡ bs)
      ⊎ ((n : ℕ) × (pre ++ (s, true) ∷ post ≡ released bs n [])))
    × (size ≤ s)
    × (p ≡ address_after h.first_available_vaddr pre + sizeof_header)
    × IsHeap h' (pre ++ (cut_block s size ++ post))

-- `r` is NULL with the blocks as they were, or the contents of a block.
abbrev pub Outcome : Heap → List Block → ℕ → Option (Heap × ℕ) → Type 0
Outcome h bs size r =
    (h' : Heap) × (p : ℕ) × (r ≡ some (h', p))
    × (h'.first_available_vaddr ≡ h.first_available_vaddr)
    × (((p ≡ 0) × IsHeap h' bs) ⊎ Served h bs size h' p)

enough :
    (size pages : ℕ) → bytes_to_pages size ≡ some pages → size + block_overhead ≤ pages * page_size
unfolding bytes_to_pages
enough size pages e = ground (arith, e)

aligned : (e : ℕ) → e < 2 ^ 64 → (align_up e page_size ≡ 0) ⊎ (e ≤ align_up e page_size)
unfolding align_up
aligned e h = elim (Bool-cases (ltb (e + 4095) (2 ^ 64))) [
  | inl t ↦ inr (ground (arith, t))
  | inr f ↦ inl (ground (arith, f, h))
]

last_fits : (h : Heap) (bs : List Block) → IsHeap h bs → h.last_footer + sizeof_footer < 2 ^ 64
unfolding IsHeap
last_fits h bs (_, _, hi, _, _) = hi

refused :
    (fuel : ℕ) (map_heap_pages : ℕ → ℕ → ℕ) (h : Heap) (pages : ℕ)
    → map_heap_pages (align_up (h.last_footer + sizeof_footer) page_size) pages ≡ 0
    → ◌≡◌ {A = Option (Heap × ℕ)} (grow_heap_by fuel map_heap_pages h pages) (some (h, 0))
unfolding grow_heap_by
refused fuel map_heap_pages h pages z =
    let new_pages = map_heap_pages (align_up (h.last_footer + 8) page_size) pages in
    if_ind (λ r. r ≡ some (h, 0)) (pages == 0) (some (h, 0)) _ (λ t. refl)
      (λ f. if_yes {b = new_pages == 0} _ _ (ground (arith, z)))

fits_or_fails :
    (map_heap_pages : ℕ → ℕ → ℕ) (h : Heap) (pages : ℕ)
    → Maps map_heap_pages
    → h.last_footer + sizeof_footer < 2 ^ 64
    → 0 < pages
    → let new_pages = map_heap_pages (align_up (h.last_footer + sizeof_footer) page_size) pages in
      (new_pages ≡ 0) ⊎ Fits h new_pages pages
unfolding Maps
fits_or_fails map_heap_pages h pages maps hi pos =
    let e = h.last_footer + 8 in
    elim (maps (align_up e page_size) pages) [
      | inl z ↦ inl z
      | inr m ↦ elim (aligned e hi) [
        | inl z ↦ inl (m.0 ∙ z)
        | inr le ↦ inr (omega (arith, m.0, le), pos, omega (arith, m.0, m.1))
      ]
    ]

pub hand_out-IsHeap :
    (fuel : ℕ) (size : ℕ) (h : Heap) (pre : List Block) (s : ℕ) (post : List Block)
    → IsHeap h (pre ++ (s, true) ∷ post)
    → size ≤ s
    → length pre ≤ fuel
    → (h' : Heap) × (hand_out fuel size (h, address_after h.first_available_vaddr pre)
        ≡ some (h', address_after h.first_available_vaddr pre + sizeof_header))
      × (h'.first_available_vaddr ≡ h.first_available_vaddr)
      × IsHeap h' (pre ++ (cut_block s size ++ post))
unfolding hand_out
hand_out-IsHeap fuel size h pre s post ok fit hf =
    let (lo, _, _, _, _, _, _) = focus h pre ((s, true) ∷ post) ok in
    let (h', r, e, ok') = occupy_block-IsHeap fuel h pre s post size ok fit hf in
    let a = address_after h.first_available_vaddr pre in
    (
      h',
      if_no {b = a == 0} (some (h, 0)) _ (ground (arith, lo, le_after h.first_available_vaddr pre))
          ∙ ap (λ x. x >>= λ h'. some (h', a + 25)) r,
      e,
      ok',
    )

module _ (fuel : ℕ) (h : Heap) (size : ℕ) where
  abbrev first : ℕ
  first = h.first_available_vaddr

  handed :
      (h₁ : Heap) (bs pre : List Block) (s : ℕ) (post : List Block)
      → (pre ++ (s, true) ∷ post ≡ bs) ⊎ ((n : ℕ) × (pre ++ (s, true) ∷ post ≡ released bs n []))
      → h₁.first_available_vaddr ≡ first
      → IsHeap h₁ (pre ++ (s, true) ∷ post)
      → size ≤ s
      → length pre ≤ fuel
      → Outcome h bs size (hand_out fuel size (h₁, address_after first pre))
  handed h₁ bs pre s post o e ok fit hf =
      let (h', r, e', ok') = hand_out-IsHeap fuel size h₁ pre s post ok fit hf in
      (
        h',
        address_after first pre + 25,
        subst
            (λ q.
              hand_out fuel size (h₁, address_after q pre) ≡ some (h', address_after q pre + 25))
            e r,
        e' ∙ e,
        inr (pre, s, post, o, fit, refl, ok'),
      )

  -- What the result is when the heap, with `last` as its last block, has to grow.
  grown_and_handed :
      (map_heap_pages : ℕ → ℕ → ℕ) (h₁ : Heap) (pages : ℕ) (pre : List Block) (p : ℕ) (f : Bool)
      → Maps map_heap_pages
      → h₁.first_available_vaddr ≡ first
      → IsHeap h₁ (pre ++ (p, f) ∷ [])
      → size + block_overhead ≤ pages * page_size
      → length (pre ++ (p, f) ∷ []) ≤ fuel
      → Outcome h
          (pre ++ (p, f) ∷ [])
          size
          (grow_heap_by fuel map_heap_pages h₁ pages >>= hand_out fuel size)
  unfolding hand_out
  grown_and_handed map_heap_pages h₁ pages pre p f maps same ok fit hf =
      let (_, _, _, hi, _, _, _) = focus h₁ pre ((p, f) ∷ []) ok in
      let some_pages : 0 < pages = omega (arith, fit) in
      elim (fits_or_fails map_heap_pages h₁ pages maps (last_fits h₁ _ ok) some_pages) [
        | inl z ↦ (
          h₁,
          0,
          ap (λ x. x >>= hand_out fuel size) (refused fuel map_heap_pages h₁ pages z),
          same,
          inl (refl, ok),
        )
        | inr fits ↦
            grown_more (grow_heap_by-Grown fuel map_heap_pages h₁ pages pre p f ok fits hf) fits
      ]
    where
      new_pages : ℕ
      new_pages = map_heap_pages (align_up (h₁.last_footer + 8) page_size) pages

      grown_more :
          Grown h₁ fuel
            (pre ++ (p, f) ∷ [])
            (new_size h₁ new_pages pages)
            (grow_heap_by fuel map_heap_pages h₁ pages)
          → Fits h₁ new_pages pages
          → Outcome h
              (pre ++ (p, f) ∷ [])
              size
              (grow_heap_by fuel map_heap_pages h₁ pages >>= hand_out fuel size)
      grown_more (h₂, pre', s, r, e, blocks, more, hf', ok') fits =
          let room = new_size_lem h₁ new_pages pages fits in
          let (le, _, _) = fits in
          let (h', q, r', e', out) =
            handed h₂ (pre ++ (p, f) ∷ []) pre' s [] (inr (_, sym blocks)) (e ∙ same) ok'
              (omega (arith, room, le, more, fit)) hf' in
          (
            h',
            q,
            ap (λ x. x >>= hand_out fuel size)
                  (subst
                    (λ a.
                      grow_heap_by fuel map_heap_pages h₁ pages ≡ some (h₂, address_after a pre'))
                    same r)
                ∙ r',
            e',
            out,
          )

module _ (fuel : ℕ) (map_heap_pages : ℕ → ℕ → ℕ) (maps : Maps map_heap_pages) (h : Heap)
    (size : ℕ) where
  -- The same from `hmalloc`'s choice on, when it is a growth by `pages`.
  by_growth :
      (h₁ : Heap) (pages : ℕ) (bs : List Block)
      → h₁.first_available_vaddr ≡ h.first_available_vaddr
      → IsHeap h₁ bs
      → 0 < length bs
      → size + block_overhead ≤ pages * page_size
      → length bs ≤ fuel
      → Outcome h bs size (grow_heap_by fuel map_heap_pages h₁ pages >>= hand_out fuel size)
  by_growth h₁ pages bs same =
      by_last
        (λ bs.
          IsHeap h₁ bs
          → 0 < length bs
          → size + 33 ≤ pages * page_size
          → length bs ≤ fuel
          → Outcome h bs size (grow_heap_by fuel map_heap_pages h₁ pages >>= hand_out fuel size))
        (λ ok pos fit hf. absurd (omega (arith, pos)))
        (λ pre p f ok pos fit hf.
          grown_and_handed fuel h size map_heap_pages h₁ pages pre p f maps same ok fit hf)
        bs

  abbrev after_search : Option ℕ → Option (Heap × ℕ)
  after_search r =
      (r >>= λ first_fit.
      if first_fit == 0 then grow_heap fuel map_heap_pages h else some (h, first_fit))
      >>= hand_out fuel size

  searched :
      (bs : List Block)
      → IsHeap h bs
      → 0 < length bs
      → length bs ≤ fuel
      → size + block_overhead ≤ h.heap_grow_size * page_size
      → (r : Option ℕ) → Found h.first_available_vaddr bs size r
      → Outcome h bs size (after_search r)
  unfolding grow_heap IsHeap
  searched bs ok pos hf fit r (inl (_, e)) =
      subst (λ r. Outcome h bs size (after_search r)) (sym e)
        (by_growth (record h { heap_grow_size = (h.heap_grow_size + 1) % 2 ^ 64 }) h.heap_grow_size
          bs refl ok pos fit hf)
  searched bs ok pos hf fit r (inr (pre, s, post, blocks, le, _, e)) =
      let (_, lo, _, _, _) = ok in
      let a = address_after h.first_available_vaddr pre in
      let hf' : length pre ≤ fuel =
        omega (arith, hf, ap length blocks, length-append pre ((s, true) ∷ post)) in
      subst (λ r. Outcome h bs size (after_search r)) (sym e)
        (subst (λ r. Outcome h bs size (r >>= hand_out fuel size))
          (sym (
            if_no {b = a == 0} (grow_heap fuel map_heap_pages h) (some (h, a))
              (ground (arith, lo, le_after h.first_available_vaddr pre))))
          (handed fuel h size h bs pre s post (inl (sym blocks)) refl (subst (IsHeap h) blocks ok)
            le hf'))

  served_from :
      (bs : List Block)
      → IsHeap h bs
      → 0 < length bs
      → length bs < fuel
      → (o : Option ℕ) → bytes_to_pages size ≡ o
      → Outcome h bs size (hmalloc_pages fuel map_heap_pages h size o)
  unfolding hmalloc_pages find_or_grow IsHeap
  served_from bs ok pos hf none e = (h, 0, refl, refl, inl (refl, ok))
  served_from bs ok pos hf (some pages) e =
      let (_, lo, _, t, l) = ok in
      let fit = enough size pages e in
      let Good : Option (Heap × ℕ) → Type 0 = λ r. Outcome h bs size (r >>= hand_out fuel size) in
      if_ind Good (ltb h.heap_grow_size pages) (grow_heap_by fuel map_heap_pages h pages)
        (find_or_grow fuel map_heap_pages h size)
        (λ y. by_growth h pages bs refl ok pos fit (omega (arith, hf)))
        (λ n.
          searched bs ok pos (omega (arith, hf)) (less pages (ground (arith, n)) fit)
            (find_first_fit_block fuel h.memory h.free_regions size)
            (find_first_fit_block-Found fuel h.memory h.first_available_vaddr h.free_regions bs _
              size lo hf t l))
    where
      less :
          (pages : ℕ)
          → pages ≤ h.heap_grow_size
          → size + 33 ≤ pages * page_size
          → size + 33 ≤ h.heap_grow_size * page_size
      less pages le fit = omega (arith, le, fit)

  -- `hmalloc` ends, and either returns NULL and leaves the blocks as they were, or returns the contents of
  -- a block that was free, or became so when memory grew, and has at least `size` bytes. All other blocks
  -- are as they were, but that what is left over of the block becomes a free one if it can hold a byte.
  -- There is a block, more fuel than blocks, and new pages are mapped where they are asked for
  -- or not at all.
  pub hmalloc-Outcome :
      (bs : List Block)
      → IsHeap h bs
      → 0 < length bs
      → length bs < fuel
      → Outcome h bs size (hmalloc fuel map_heap_pages h size)
  unfolding hmalloc
  hmalloc-Outcome bs ok pos hf =
      subst (Outcome h bs size)
        (sym (
          if_no (some (h, 0)) (hmalloc_pages fuel map_heap_pages h size (bytes_to_pages size))
            (ap not (started h bs ok))))
        (served_from bs ok pos hf (bytes_to_pages size) refl)
