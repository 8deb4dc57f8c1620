-- ===== src/Hmalloc/Examples.antt =====
-- Runs of libc/hmalloc/hmalloc.c on a heap of five pages.
use hojicha.Hmalloc.{
  Memory, Heap, sizeof_header, page_size, initialize_heap_region, bytes_to_pages, hmalloc, hfree,
  hmalloc_usable_size,
}
use hojicha.Hmalloc.Tiles.{Block, address_after, IsHeap}
use hojicha.Hmalloc.Release.{released}
use hojicha.Hmalloc.Free.{hfree-IsHeap}
use hojicha.Hmalloc.Serve.{Maps, Outcome, hmalloc-Outcome}
use hojicha.Hmalloc.Chain.{Linked}
use hojicha.Hmalloc.FirstFit.{place_block}
use hojicha.Hmalloc.Laws.{hfree-hmalloc}
use hojicha.Hmalloc.Tidy.{IsTidy, serve, heap-IsTidy, initialize_heap_region-IsTidy}
use hojicha.Common.{
  ℕ, ◌+◌, ◌*◌, ◌^◌, ◌≡◌, inr, refl, List, [], ◌∷◌, Option, none, some, true, false, ltb,
  if◌then◌else◌, arith,
}

abbrev no_memory : Memory
no_memory = record {
  is_free = λ q. false;
  size_bytes = λ q. 0;
  next = λ q. 0;
  footer = λ q. 0;
  header = λ q. 0;
}

abbrev no_heap : Heap
no_heap = record {
  memory = no_memory;
  free_regions = 0;
  heap_grow_size = 5;
  first_available_vaddr = 0;
  last_footer = 0;
  heap_initialized = false;
}

abbrev fresh : Heap
fresh = (initialize_heap_region no_heap 8192 5).0

abbrev heap_of : Option (Heap × ℕ) → Heap
heap_of none = no_heap
heap_of (some (h, p)) = h

abbrev released_heap : Option Heap → Heap
released_heap none = no_heap
released_heap (some h) = h

abbrev map_pages : ℕ → ℕ → ℕ
map_pages addr pages = if ltb (addr + pages * page_size) (2 ^ 64) then addr else 0

map_pages-Maps : Maps map_pages
unfolding Maps
map_pages-Maps addr pages = ground arith

-- After requests of 100 and of 50 bytes.
abbrev busy : Heap
busy = heap_of (hmalloc 5 map_pages (heap_of (hmalloc 5 map_pages fresh 100)) 50)

served : hmalloc 5 map_pages fresh 100 ≡ some (heap_of (hmalloc 5 map_pages fresh 100), 8217)
unfolding hmalloc initialize_heap_region
served = refl

abbrev busy_blocks : List Block
busy_blocks = (100, false) ∷ (50, false) ∷ (20231, true) ∷ []

busy-IsTidy : IsTidy busy busy_blocks
unfolding hmalloc initialize_heap_region IsTidy Linked
busy-IsTidy = (
  (
    refl,
    omega arith,
    omega arith,
    ((refl, refl, refl, refl), ((refl, refl, refl, refl), ((refl, refl, refl, refl), refl))),
    (refl, refl),
  ),
  (tt, tt),
  omega arith,
)

busy-IsHeap : IsHeap busy busy_blocks
unfolding IsTidy
busy-IsHeap = let (ok, _, _) = busy-IsTidy in ok

fresh-IsTidy : IsTidy fresh ((20447, true) ∷ [])
unfolding initialize_heap_region
fresh-IsTidy =
    let (_, tidy) =
      initialize_heap_region-IsTidy no_heap 8192 5 (omega arith) (omega arith) (omega arith) in
    tidy

-- The second block is released, joins the third, and is not released again.
released_once :
    (hfree 5 busy 8350 ≡ some (released_heap (hfree 5 busy 8350)))
    × (hfree 5 (released_heap (hfree 5 busy 8350)) 8350 ≡ some (released_heap (hfree 5 busy 8350)))
    × (hmalloc_usable_size busy 8350 ≡ 50)
    × (hmalloc_usable_size (released_heap (hfree 5 busy 8350)) 8350 ≡ 0)
    × ((released_heap (hfree 5 busy 8350)).memory.size_bytes 8325 ≡ 20314)
unfolding hmalloc initialize_heap_region hfree hmalloc_usable_size
released_once = (refl, refl, refl, refl, refl)

hmalloc-Outcome_example : Outcome busy busy_blocks 30 (hmalloc 5 map_pages busy 30)
hmalloc-Outcome_example =
    hmalloc-Outcome 5 map_pages map_pages-Maps busy 30 busy_blocks busy-IsHeap (omega arith)
      (omega arith)

hfree-IsHeap_example :
    (h' : Heap) × (hfree 5 busy
        (address_after busy.first_available_vaddr ((100, false) ∷ []) + sizeof_header)
      ≡ some h')
    × IsHeap h' (released ((100, false) ∷ []) 50 ((20231, true) ∷ []))
hfree-IsHeap_example =
    hfree-IsHeap 5 busy ((100, false) ∷ []) 50 ((20231, true) ∷ []) busy-IsHeap (omega arith)

hfree-hmalloc_example :
    (h' : Heap) × (h'' : Heap) × (hmalloc 5 map_pages fresh 100 ≡ some (h', 8192 + sizeof_header))
    × (hfree 5 h' (8192 + sizeof_header) ≡ some h'')
    × IsHeap h'' ((20447, true) ∷ [])
unfolding bytes_to_pages initialize_heap_region place_block IsTidy
hfree-hmalloc_example =
    hfree-hmalloc 5 map_pages fresh ((20447, true) ∷ []) 100 1 8192
      ((100, false) ∷ (20314, true) ∷ []) fresh-IsTidy.0 fresh-IsTidy.1 (omega arith) refl
      (omega arith) refl

heap-IsTidy_example :
    (h' : Heap) × (bs' : List Block) × (serve 5 map_pages busy busy_blocks
        (inr ([], 100, (50, false) ∷ (20231, true) ∷ [], refl))
      ≡ some h')
    × IsTidy h' bs'
heap-IsTidy_example =
    heap-IsTidy 5 map_pages map_pages-Maps busy busy_blocks busy-IsTidy (omega arith)
      (inr ([], 100, (50, false) ∷ (20231, true) ∷ [], refl))
