-- ===== src/Pmm/Examples.antt =====
-- kernel/memory/pmm.c at a small memory.
use hojicha.Bitmap
use hojicha.Pmm.{
  Pmm, MemmapEntry, KernelImage, clear_page, early_alloc, early_allocs, clear_range, scan_memmap,
  before_scan, initialize, initialize_bitmap,
}
use hojicha.Pmm.Frames.{allocated, IsValid}
use hojicha.Pmm.Early.{
  Request, alloc, free, serve, frames_from, serve-frames_from, after, frees, after-IsValid,
}
use hojicha.Pmm.Ready.{FreesSection, initialize_bitmap-FreesSection}
use hojicha.Common.{
  ℕ, ◌&&◌, not, ◌+◌, ◌^◌, ◌≡◌, refl, true, false, List, [], ◌∷◌, some, none, arith,
}

abbrev image : KernelImage
image = record {
  physical_base = 4096;
  virtual_base = 2 ^ 63;
  start_vaddr = 2 ^ 63;
  end_vaddr = 2 ^ 63 + 5000;
}

-- One reserved page, then a section of forty pages.
abbrev entries : List MemmapEntry
entries =
    record { base = 0; length = 4096; usable = false }
    ∷ record { base = 4096; length = 163840; usable = true }
    ∷ []

abbrev booted : Pmm
booted = elim (initialize image entries) [ none ↦ before_scan image | some pmm ↦ pmm ]

abbrev ready : Pmm
ready = elim (initialize_bitmap booted) [ none ↦ booted | some pmm ↦ pmm ]

initialize-booted : initialize image entries ≡ some booted
unfolding initialize scan_memmap before_scan Bitmap.storage_size
initialize-booted = refl

initialize_bitmap-ready : initialize_bitmap booted ≡ some ready
unfolding initialize initialize_bitmap scan_memmap before_scan early_allocs early_alloc clear_range
    clear_page Bitmap.storage_size Bitmap.init Bitmap.get Bitmap.clear_bit
initialize_bitmap-ready = refl

booted_pages : (booted.total_pages ≡ 41) × (ready.free_pages ≡ 38)
unfolding initialize initialize_bitmap scan_memmap before_scan early_allocs early_alloc clear_range
    clear_page Bitmap.storage_size Bitmap.init Bitmap.get Bitmap.clear_bit
booted_pages = (refl, refl)

initialize_bitmap-FreesSection_example : FreesSection entries ready
initialize_bitmap-FreesSection_example =
    initialize_bitmap-FreesSection image entries booted ready (omega arith, (omega arith, tt))
      (omega arith) initialize-booted initialize_bitmap-ready

ready_flag : ready.memmap_is_initialized ≡ false
unfolding initialize initialize_bitmap scan_memmap before_scan early_allocs early_alloc clear_range
    clear_page Bitmap.storage_size Bitmap.init Bitmap.get Bitmap.clear_bit
ready_flag = refl

abbrev requests : List Request
requests = alloc ∷ free 12288 ∷ alloc ∷ []

serve-frames_from_example : serve requests ready ≡ frames_from 2 ready.last_early_alloc_addr
serve-frames_from_example = serve-frames_from requests ready ready_flag

after-IsValid_example :
    IsValid (after requests ready)
    × ((after requests ready).total_pages ≡ ready.total_pages)
    × ((p : ℕ) → allocated (after requests ready) p ≡ (allocated ready p && not (frees requests p)))
after-IsValid_example =
    after-IsValid requests ready initialize_bitmap-FreesSection_example.valid ready_flag
