-- ===== src/Pmm/Early.antt =====
-- kernel/memory/pmm.c while `memmap_is_initialized` is false.
use hojicha.Pmm.{
  Pmm, page_size, early_alloc, alloc_frame, free_frame, clear_page, mark_page, page_to_addr_base,
}
use hojicha.Bitmap
use hojicha.Pmm.Frames.{allocated, IsValid, clear_page_lem}
use mathlib.Core.Path.{subst}
use hojicha.Common.{
  Bool, ◌==◌, ◌||◌, ◌&&◌, ◌/◌, sym, ℕ, zero, suc, ◌+◌, ◌%◌, ◌^◌, ◌≡◌, refl, false, not, List, [],
  ◌∷◌, none, some, if◌then◌else◌, arith, ap, ◌∙◌,
}

pub data Request : Type 0 where
  alloc : Request
  free : ℕ → Request

-- The addresses that a run of requests hands out, in order.
unfoldable pub serve : List Request → Pmm → List ℕ
serve [] pmm = []
serve (alloc ∷ requests) pmm = (alloc_frame pmm).1 ∷ serve requests (alloc_frame pmm).0
serve (free addr ∷ requests) pmm = serve requests (free_frame pmm addr)

abbrev pub alloc_count : List Request → ℕ
alloc_count [] = 0
alloc_count (alloc ∷ requests) = suc (alloc_count requests)
alloc_count (free addr ∷ requests) = alloc_count requests

-- `n` successive page addresses from `addr`.
abbrev pub frames_from : ℕ → ℕ → List ℕ
frames_from zero addr = []
frames_from (suc n) addr = addr ∷ frames_from n ((addr + page_size) % 2 ^ 64)

free_frame-early :
    (pmm : Pmm) (addr : ℕ)
    → ((free_frame pmm addr).memmap_is_initialized ≡ pmm.memmap_is_initialized)
      × ((free_frame pmm addr).last_early_alloc_addr ≡ pmm.last_early_alloc_addr)
unfolding free_frame clear_page
free_frame-early pmm addr = ground arith

alloc_frame_off :
    (pmm : Pmm) → pmm.memmap_is_initialized ≡ false → alloc_frame pmm ≡ early_alloc pmm
unfolding alloc_frame
alloc_frame_off pmm off =
    ap
      (λ b. if not b then early_alloc pmm else (elim (Bitmap.find_clear pmm.bitmap) [
        | none ↦ (pmm, 0)
        | some page_idx ↦ (mark_page pmm page_idx, page_to_addr_base page_idx)
      ]))
      off

-- While `memmap_is_initialized` is false the addresses handed out are successive pages from the
-- early allocation address, whatever is freed in between and whatever the bitmap says: a freed
-- frame is not handed out again before the addresses wrap.
pub serve-frames_from :
    (requests : List Request) (pmm : Pmm)
    → pmm.memmap_is_initialized ≡ false
    → serve requests pmm ≡ frames_from (alloc_count requests) pmm.last_early_alloc_addr
unfolding serve early_alloc
serve-frames_from [] pmm off = refl
serve-frames_from (alloc ∷ requests) pmm off =
    ap (λ r. r.1 ∷ serve requests r.0) (alloc_frame_off pmm off)
    ∙ ap (λ l. pmm.last_early_alloc_addr ∷ l) (serve-frames_from requests (early_alloc pmm).0 off)
serve-frames_from (free addr ∷ requests) pmm off =
    let (a, b) = free_frame-early pmm addr in
    serve-frames_from requests (free_frame pmm addr) (a ∙ off)
    ∙ ap (frames_from (alloc_count requests)) b

-- The allocator after a run of requests.
unfoldable pub after : List Request → Pmm → Pmm
after [] pmm = pmm
after (alloc ∷ requests) pmm = after requests (alloc_frame pmm).0
after (free addr ∷ requests) pmm = after requests (free_frame pmm addr)

-- A request of the run frees an address in the page.
abbrev pub frees : List Request → ℕ → Bool
frees [] p = false
frees (alloc ∷ requests) p = frees requests p
frees (free addr ∷ requests) p = addr / page_size == p || frees requests p

-- Moving the early allocation address on keeps the bitmap.
early_alloc-IsValid : (pmm : Pmm) → IsValid pmm → IsValid (early_alloc pmm).0
unfolding early_alloc
early_alloc-IsValid pmm v = record {
  bitmap = v.bitmap;
  covers = v.covers;
  counted = v.counted;
  small = v.small;
}

-- While `memmap_is_initialized` is false a run of requests keeps a valid allocator valid, with the
-- count of free pages that the bitmap has. A page is allocated after it exactly when it was before
-- and no request has freed an address in it: no allocation marks a page, and the release of a page
-- that is free already, or that does not exist, changes nothing.
pub after-IsValid :
    (requests : List Request) (pmm : Pmm)
    → IsValid pmm
    → pmm.memmap_is_initialized ≡ false
    → IsValid (after requests pmm)
      × ((after requests pmm).total_pages ≡ pmm.total_pages)
      × ((p : ℕ) → allocated (after requests pmm) p ≡ (allocated pmm p && not (frees requests p)))
unfolding after early_alloc free_frame
after-IsValid [] pmm v off = (v, refl, λ p. ground arith)
after-IsValid (alloc ∷ requests) pmm v off =
    subst
      (λ (r : Pmm × ℕ).
        IsValid (after requests r.0)
        × ((after requests r.0).total_pages ≡ pmm.total_pages)
        × ((p : ℕ)
            → allocated (after requests r.0) p ≡ (allocated pmm p && not (frees requests p))))
      (sym (alloc_frame_off pmm off))
      (after-IsValid requests (early_alloc pmm).0 (early_alloc-IsValid pmm v) off)
after-IsValid (free addr ∷ requests) pmm v off =
    let (flag, _) = free_frame-early pmm addr in
    let (v', bits, total) = clear_page_lem pmm (addr / page_size) v in
    let (v'', total', bits') =
      after-IsValid requests (clear_page pmm (addr / page_size)) v' (flag ∙ off) in
    (v'', total' ∙ total, λ p. ground (arith, bits p, bits' p))
