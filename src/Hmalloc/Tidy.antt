-- ===== src/Hmalloc/Tidy.antt =====
-- The state of the heap that libc/hmalloc/hmalloc.c keeps: no two free blocks are neighbours.
use mathlib.Core.Path.{subst}
use hojicha.Hmalloc.{
  Heap, sizeof_header, block_overhead, page_size, hmalloc, hfree, hmalloc_usable_size,
  initialize_heap_region, set_up, block_of, ◌>>=◌,
}
use hojicha.Hmalloc.FreeList.{at_same}
use hojicha.Hmalloc.Tiles.{Block, Tiled, address_after, free_addrs, IsHeap, focus, at_hit}
use hojicha.Hmalloc.Occupy.{cut_block}
use hojicha.Hmalloc.Release.{join_next, release_after, released}
use hojicha.Hmalloc.Free.{hfree-IsHeap, is_rejected-contents, block_of-contents}
use hojicha.Hmalloc.Serve.{Maps, Outcome, hmalloc-Outcome}
use hojicha.Hmalloc.Laws.{StartsUsed, Coalesced}
use hojicha.Hmalloc.Chain.{Linked}
use hojicha.Common.{
  ℕ, ◌+◌, ◌-◌, ◌*◌, ◌<◌, ◌≤◌, ◌^◌, ◌≡◌, ◌⊎◌, inl, inr, refl, List, [], ◌∷◌, ◌++◌, length, Option,
  some, Bool, true, false, ◌==◌, leb, if◌then◌else◌, arith, sym, ap, ◌∙◌, if_no, if_ind,
  length-append,
}

join_next-Coalesced : (s : ℕ) (post : List Block) → Coalesced post → Coalesced (join_next s post)
unfolding join_next Coalesced StartsUsed
join_next-Coalesced s [] c = (tt, tt)
join_next-Coalesced s ((n, true) ∷ post) c = c
join_next-Coalesced s ((n, false) ∷ post) c = (tt, c)

release_after-StartsUsed :
    (p : ℕ) (pre : List Block) (s : ℕ) (post : List Block)
    → StartsUsed (release_after (p, false) pre s post)
unfolding release_after StartsUsed
release_after-StartsUsed p [] s post = tt
release_after-StartsUsed p (y ∷ pre) s post = tt

release_after-Coalesced :
    (p : ℕ) (f : Bool) (pre : List Block) (s : ℕ) (post : List Block)
    → Coalesced ((p, f) ∷ pre ++ (s, false) ∷ post)
    → Coalesced (release_after (p, f) pre s post)
unfolding release_after Coalesced StartsUsed
release_after-Coalesced p true [] s post (_, c) = join_next-Coalesced _ post c
release_after-Coalesced p false [] s post c = join_next-Coalesced s post c
release_after-Coalesced p true ((q, true) ∷ pre) s post (u, c) = absurd u
release_after-Coalesced p true ((q, false) ∷ pre) s post (u, c) =
    (release_after-StartsUsed q pre s post, release_after-Coalesced q false pre s post c)
release_after-Coalesced p false ((q, f) ∷ pre) s post c = release_after-Coalesced q f pre s post c

released-Coalesced :
    (pre : List Block) (s : ℕ) (post : List Block)
    → Coalesced (pre ++ (s, false) ∷ post)
    → Coalesced (released pre s post)
unfolding released Coalesced
released-Coalesced [] s post c = join_next-Coalesced s post c
released-Coalesced ((p, f) ∷ pre) s post c = release_after-Coalesced p f pre s post c

used_last : (bs : List Block) (s : ℕ) → Coalesced bs → Coalesced (bs ++ (s, false) ∷ [])
unfolding Coalesced StartsUsed
used_last [] s c = tt
used_last ((p, true) ∷ []) s c = (tt, tt)
used_last ((p, true) ∷ (q, true) ∷ bs) s (u, c) = absurd u
used_last ((p, true) ∷ (q, false) ∷ bs) s (u, c) = (tt, used_last ((q, false) ∷ bs) s c)
used_last ((p, false) ∷ bs) s c = used_last bs s c

cut_block-Coalesced :
    (s size : ℕ) (post : List Block)
    → StartsUsed post
    → Coalesced post
    → Coalesced (cut_block s size ++ post)
unfolding cut_block Coalesced StartsUsed
cut_block-Coalesced s size post u c =
    if_ind (λ mid. Coalesced (mid ++ post)) (leb s (size + 33)) ((s, false) ∷ [])
      ((size, false) ∷ (s - size - 33, true) ∷ []) (λ t. c) (λ f. (u, c))

taken-Coalesced :
    (pre : List Block) (s size : ℕ) (post : List Block)
    → Coalesced (pre ++ (s, true) ∷ post)
    → Coalesced (pre ++ (cut_block s size ++ post))
unfolding Coalesced StartsUsed
taken-Coalesced [] s size post (u, c) = cut_block-Coalesced s size post u c
taken-Coalesced ((p, true) ∷ []) s size post (u, c) = absurd u
taken-Coalesced ((p, true) ∷ (q, true) ∷ pre) s size post (u, c) = absurd u
taken-Coalesced ((p, true) ∷ (q, false) ∷ pre) s size post (u, c) =
    (tt, taken-Coalesced ((q, false) ∷ pre) s size post c)
taken-Coalesced ((p, false) ∷ pre) s size post c = taken-Coalesced pre s size post c

taken_pos :
    (pre : List Block) (s size : ℕ) (post : List Block)
    → 0 < length (pre ++ (cut_block s size ++ post))
unfolding cut_block
taken_pos [] s size post =
    if_ind (λ mid. 0 < length (mid ++ post)) (leb s (size + 33)) ((s, false) ∷ [])
      ((size, false) ∷ (s - size - 33, true) ∷ []) (λ t. omega arith) (λ f. omega arith)
taken_pos (x ∷ pre) s size post = omega arith

join_next_pos : (s : ℕ) (post : List Block) → 0 < length (join_next s post)
unfolding join_next
join_next_pos s [] = omega arith
join_next_pos s ((n, true) ∷ post) = omega arith
join_next_pos s ((n, false) ∷ post) = omega arith

released_pos : (pre : List Block) (s : ℕ) (post : List Block) → 0 < length (released pre s post)
unfolding released release_after
released_pos [] s post = join_next_pos s post
released_pos ((p, true) ∷ []) s post = join_next_pos (p + s + 33) post
released_pos ((p, false) ∷ []) s post = omega arith
released_pos ((p, true) ∷ y ∷ pre) s post = omega arith
released_pos ((p, false) ∷ y ∷ pre) s post = omega arith

-- The heap consists of these blocks, at least one, and no two free ones are neighbours.
unfoldable pub IsTidy : Heap → List Block → Type 0
unfolding IsHeap Coalesced
IsTidy h bs = IsHeap h bs × Coalesced bs × (0 < length bs)

module _ (fuel : ℕ) (map_heap_pages : ℕ → ℕ → ℕ) (maps : Maps map_heap_pages) (h : Heap)
    (bs : List Block) (tidy : IsTidy h bs) (hf : length bs < fuel) where
  served-Coalesced :
      (pre : List Block) (s : ℕ) (post : List Block)
      → (pre ++ (s, true) ∷ post ≡ bs) ⊎ ((n : ℕ) × (pre ++ (s, true) ∷ post ≡ released bs n []))
      → Coalesced (pre ++ (s, true) ∷ post)
  unfolding IsTidy
  served-Coalesced pre s post (inl e) = let (_, c, _) = tidy in subst Coalesced (sym e) c
  served-Coalesced pre s post (inr (n, e)) =
      let (_, c, _) = tidy in
      subst Coalesced (sym e) (released-Coalesced bs n [] (used_last bs n c))

  hmalloc-IsTidy :
      (size : ℕ)
      → (h' : Heap) × (p : ℕ) × (bs' : List Block) × (hmalloc fuel map_heap_pages h size
          ≡ some (h', p))
        × IsTidy h' bs'
  unfolding IsTidy
  hmalloc-IsTidy size =
      let (ok, c, pos) = tidy in from (hmalloc-Outcome fuel map_heap_pages maps h size bs ok pos hf)
    where
      from :
          Outcome h bs size (hmalloc fuel map_heap_pages h size)
          → (h' : Heap) × (p : ℕ) × (bs' : List Block) × (hmalloc fuel map_heap_pages h size
              ≡ some (h', p))
            × IsTidy h' bs'
      from (h', p, r, _, inl (_, ok')) = let (_, c, pos) = tidy in (h', p, bs, r, (ok', c, pos))
      from (h', p, r, _, inr (pre, s, post, o, _, _, ok')) = (
        h',
        p,
        pre ++ (cut_block s size ++ post),
        r,
        (
          ok',
          taken-Coalesced pre s size post (served-Coalesced pre s post o),
          taken_pos pre s size post,
        ),
      )

  hfree-IsTidy :
      (pre : List Block) (s : ℕ) (post : List Block)
      → bs ≡ pre ++ (s, false) ∷ post
      → (h' : Heap) × (hfree fuel h (address_after h.first_available_vaddr pre + sizeof_header)
          ≡ some h')
        × IsTidy h' (released pre s post)
  unfolding IsTidy
  hfree-IsTidy pre s post e =
      let (ok, c, _) = tidy in
      let hf' : length pre ≤ fuel =
        omega (arith, hf, ap length e, length-append pre ((s, false) ∷ post)) in
      let (h', r, ok') = hfree-IsHeap fuel h pre s post (subst (IsHeap h) e ok) hf' in
      (h', r, (ok', released-Coalesced pre s post (subst Coalesced e c), released_pos pre s post))

-- A request of some bytes, or the release of a block in use.
abbrev pub Request : List Block → Type 0
Request bs =
    ℕ ⊎ ((pre : List Block) × (s : ℕ) × (post : List Block) × (bs ≡ pre ++ (s, false) ∷ post))

abbrev pub serve : ℕ → (ℕ → ℕ → ℕ) → Heap → (bs : List Block) → Request bs → Option Heap
serve fuel map_heap_pages h bs (inl size) = hmalloc fuel map_heap_pages h size >>= λ r. some (r.0)
serve fuel map_heap_pages h bs (inr (pre, s, post, e)) =
    hfree fuel h (address_after h.first_available_vaddr pre + sizeof_header)

-- `hmalloc` and `hfree` end, and a heap without free neighbours stays one: after a request of any size,
-- whether memory grows, fails to or is not needed, and after the release of any block in use. There is
-- more fuel than there are blocks, and new pages are mapped where they are asked for or not at all.
pub heap-IsTidy :
    (fuel : ℕ) (map_heap_pages : ℕ → ℕ → ℕ)
    → Maps map_heap_pages
    → (h : Heap) (bs : List Block) → IsTidy h bs
    → length bs < fuel
    → (r : Request bs)
    → (h' : Heap) × (bs' : List Block) × (serve fuel map_heap_pages h bs r ≡ some h')
      × IsTidy h' bs'
heap-IsTidy fuel map_heap_pages maps h bs tidy hf (inl size) =
    let (h', p, bs', e, tidy') = hmalloc-IsTidy fuel map_heap_pages maps h bs tidy hf size in
    (h', bs', ap (λ o. o >>= λ r. some (r.0)) e, tidy')
heap-IsTidy fuel map_heap_pages maps h bs tidy hf (inr (pre, s, post, e)) =
    let (h', r, tidy') = hfree-IsTidy fuel map_heap_pages maps h bs tidy hf pre s post e in
    (h', released pre s post, r, tidy')

-- A region of memory becomes a heap of one free block, and what is no region becomes none.
pub initialize_heap_region-IsTidy :
    (h : Heap) (heap_start pages : ℕ)
    → 0 < heap_start
    → 0 < pages
    → heap_start + pages * page_size < 2 ^ 64
    → let (h', done) = initialize_heap_region h heap_start pages in
      (done ≡ true) × IsTidy h' ((pages * page_size - block_overhead, true) ∷ [])
unfolding initialize_heap_region IsTidy IsHeap Tiled Linked free_addrs Coalesced StartsUsed
initialize_heap_region-IsTidy h heap_start pages pos some_pages room =
    let m = h.memory in
    let size = pages * page_size - 25 - 8 in
    let h' = set_up h heap_start pages in
    let footer = heap_start + 25 + size in
    let done : initialize_heap_region h heap_start pages ≡ (h', true) =
      if_no {b = heap_start == 0} _ (h', true) (ground (arith, pos)) in
    let blocks : List Block = (pages * page_size - 33, true) ∷ [] in
    let tiled : Tiled h'.memory heap_start blocks (footer + 8) = (
      (
        at_same m.size_bytes heap_start size ∙ omega arith,
        at_same m.is_free heap_start true,
        at_same m.footer heap_start footer ∙ omega arith,
        at_hit m.header footer heap_start (heap_start + 25 + (pages * page_size - 33))
            (omega arith),
      ),
      omega (arith, some_pages),
    ) in
    let linked : Linked h'.memory.next heap_start (free_addrs heap_start blocks) =
      (refl, at_same m.next heap_start 0) in
    let ok : IsHeap h' blocks = (refl, pos, omega (arith, room, some_pages), tiled, linked) in
    subst (λ (r : Heap × Bool). (r.1 ≡ true) × IsTidy r.0 blocks) (sym done)
      (refl, (ok, (tt, tt), omega arith))

-- The size of a block in use, and 0 for a free one.
pub hmalloc_usable_size_lem :
    (h : Heap) (pre : List Block) (s : ℕ) (f : Bool) (post : List Block)
    → IsHeap h (pre ++ (s, f) ∷ post)
    → hmalloc_usable_size h (address_after h.first_available_vaddr pre + sizeof_header)
      ≡ (if f then 0 else s)
unfolding hmalloc_usable_size Tiled
hmalloc_usable_size_lem h pre s f post ok =
    let (_, _, _, _, _, ((size, _, _, _), _), _) = focus h pre ((s, f) ∷ post) ok in
    let ptr = address_after h.first_available_vaddr pre + 25 in
    ap (λ b. if b then 0 else h.memory.size_bytes (block_of ptr))
      (is_rejected-contents h pre s f post ok)
    ∙ ap (λ n. if f then 0 else n)
        (ap h.memory.size_bytes (block_of-contents h pre s f post ok) ∙ size)
