-- ===== src/Pmm/FreeLoop.antt =====
-- The loop of `pmm_initialize_bitmap` of kernel/memory/pmm.c that frees pages.
use hojicha.Bitmap
use hojicha.Bitmap.Init.{init-IsValid}
use hojicha.Pmm.{Pmm, page_size, clear_page, early_alloc, early_allocs, clear_range}
use hojicha.Pmm.Frames.{allocated, IsValid, clear_count_full, clear_page_lem}
use hojicha.Common.{
  ℕ, zero, suc, ◌+◌, ◌-◌, ◌*◌, ◌/◌, ◌%◌, ◌^◌, ◌≤◌, ◌<◌, ◌≡◌, refl, Bool, true, not, ◌&&◌, ltb, leb,
  arith, sym, ◌∙◌,
}

-- `clear_range` keeps a valid allocator valid and frees exactly its pages.
clear_range_lem :
    (n : ℕ) (pmm : Pmm) (page : ℕ)
    → IsValid pmm
    → IsValid (clear_range n pmm page)
      × ((p : ℕ)
          → allocated (clear_range n pmm page) p
            ≡ (not (leb page p && ltb p (page + n)) && allocated pmm p))
      × ((clear_range n pmm page).total_pages ≡ pmm.total_pages)
unfolding clear_range
clear_range_lem zero pmm page v = (v, λ p. ground arith, refl)
clear_range_lem (suc n) pmm page v =
    let (v', bits, total) = clear_page_lem pmm page v in
    let (v'', bits', total') = clear_range_lem n (clear_page pmm page) (page + 1) v' in
    (v'', λ p. ground (arith, bits p, bits' p), total' ∙ total)

early_allocs_keeps :
    (n : ℕ) (pmm : Pmm)
    → ((early_allocs n pmm).total_pages ≡ pmm.total_pages)
      × ((early_allocs n pmm).free_pages ≡ pmm.free_pages)
unfolding early_allocs early_alloc
early_allocs_keeps zero pmm = (refl, refl)
early_allocs_keeps (suc n) pmm = early_allocs_keeps n (early_alloc pmm).0

init-bit_count : (n : ℕ) (d : Bool) → (Bitmap.init true n d).bit_count ≡ n
unfolding Bitmap.init
init-bit_count n d = ground arith

-- The pages of the loop that frees, in the code's words.
abbrev pub first_freed : Pmm → ℕ
first_freed pmm = (pmm.last_early_alloc_addr + pmm.bitmap_size) % 2 ^ 64 / page_size + 1

abbrev pub last_freed : Pmm → ℕ
last_freed pmm = (pmm.max_section_start_addr + pmm.max_section_length) % 2 ^ 64 / page_size + 1

pub record FreesLoop (pmm pmm' : Pmm) : Type 0 where
  pub valid : IsValid pmm'
  pub total : pmm'.total_pages ≡ pmm.total_pages
  pub freed :
      (p : ℕ)
      → p < pmm.total_pages
      → allocated pmm' p ≡ not (leb (first_freed pmm) p && leb p (last_freed pmm))

module _ (pmm : Pmm) (pages : ℕ) where
  abbrev pub mapped : Pmm
  mapped = early_allocs pages pmm

  abbrev pub ready : Pmm
  ready = record mapped {
    mem_bitmap = (pmm.kernel_vend + page_size) % 2 ^ 64;
    bitmap = Bitmap.init true pmm.total_pages true;
  }

  module _ (pos : 0 < pmm.total_pages) (small : pmm.total_pages * page_size ≤ 2 ^ 64)
      (none_free : pmm.free_pages ≡ 0) where
    ready-IsValid : IsValid ready
    ready-IsValid =
        let (total, free) = early_allocs_keeps pages pmm in
        let (valid, full) = init-IsValid pmm.total_pages true pos (omega arith) in
        record {
          bitmap = valid;
          covers = init-bit_count pmm.total_pages true ∙ sym total;
          counted =
              free
              ∙ none_free
              ∙ sym (
                  clear_count_full (Bitmap.get (Bitmap.init true pmm.total_pages true))
                    mapped.total_pages (λ i h. full i (omega (arith, total))));
          small = omega (arith, total);
        }

    pub ready-FreesLoop :
        FreesLoop pmm (clear_range (last_freed pmm + 1 - first_freed pmm) ready (first_freed pmm))
    ready-FreesLoop =
        let (total, free) = early_allocs_keeps pages pmm in
        let (valid, full) = init-IsValid pmm.total_pages true pos (omega arith) in
        let n : ℕ = last_freed pmm + 1 - first_freed pmm in
        let (v, bits, total') = clear_range_lem n ready (first_freed pmm) ready-IsValid in
        record {
          valid = v;
          total = total' ∙ total;
          freed = λ p h. ground (arith, bits p, full p h);
        }
