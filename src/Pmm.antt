-- ===== src/Pmm.antt =====
-- kernel/memory/pmm.c: the physical page allocator over a bitmap of pages.
pub mod Frames
pub mod FreeLoop
pub mod Scan
pub mod Ready
pub mod Early
mod Examples
use hojicha.Bitmap
use hojicha.Bitmap.{Bitmap}
use hojicha.Common.{
  ℕ, zero, suc, List, [], ◌∷◌, ◌&&◌, ◌+◌, ◌-◌, ◌*◌, ◌/◌, ◌%◌, ◌^◌, Bool, true, false, not, ◌||◌,
  Option, none, some, ltb, leb, if◌then◌else◌,
}

-- `struct pmm_state`, with `pmm_bitmap`. The spin lock of one processor adds nothing to it.
pub record Pmm : Type 0 where
  pub total_mem : ℕ
  pub total_pages : ℕ
  pub free_pages : ℕ
  pub kernel_start : ℕ
  pub kernel_vstart : ℕ
  pub kernel_end : ℕ
  pub kernel_vend : ℕ
  pub kernel_page_count : ℕ
  pub mem_bitmap : ℕ
  pub bitmap_size : ℕ
  pub max_section_length : ℕ
  pub max_section_start_addr : ℕ
  pub first_early_alloc_addr : ℕ
  pub last_early_alloc_addr : ℕ
  pub memmap_is_initialized : Bool
  pub bitmap : Bitmap

-- An entry of the boot loader's memory map; `usable` is LIMINE_MEMMAP_USABLE or
-- LIMINE_MEMMAP_ACPI_RECLAIMABLE.
pub record MemmapEntry : Type 0 where
  pub base : ℕ
  pub length : ℕ
  pub usable : Bool

-- What the boot loader and the linker script say of the kernel image.
pub record KernelImage : Type 0 where
  pub physical_base : ℕ
  pub virtual_base : ℕ
  pub start_vaddr : ℕ
  pub end_vaddr : ℕ

abbrev pub page_size : ℕ
page_size = 4096

-- addr >> 12 and page << 12, in 64 bits.
abbrev pub addr_to_page : ℕ → ℕ
addr_to_page addr = addr / page_size

abbrev pub page_to_addr_base : ℕ → ℕ
page_to_addr_base page = page * page_size % 2 ^ 64

-- (addr + PAGE_SIZE - 1) >> 12.
abbrev pub addr_to_page_ceil : ℕ → ℕ
addr_to_page_ceil addr = (addr + (page_size - 1)) % 2 ^ 64 / page_size

abbrev pub align_to_next_page : ℕ → ℕ
align_to_next_page addr = addr / page_size + 1

abbrev pub align_to_prev_page : ℕ → ℕ
align_to_prev_page addr = addr / page_size

unfoldable pub mark_page : Pmm → ℕ → Pmm
mark_page pmm idx =
    if leb pmm.total_pages idx || Bitmap.get pmm.bitmap idx then pmm else record pmm {
      bitmap = (Bitmap.set_bit pmm.bitmap idx).0;
      free_pages = if ltb 0 pmm.free_pages then pmm.free_pages - 1 else pmm.free_pages;
    }

unfoldable pub clear_page : Pmm → ℕ → Pmm
clear_page pmm idx =
    if leb pmm.total_pages idx || not (Bitmap.get pmm.bitmap idx) then pmm else record pmm {
      bitmap = (Bitmap.clear_bit pmm.bitmap idx).0;
      free_pages = (pmm.free_pages + 1) % 2 ^ 64;
    }

unfoldable pub early_alloc : Pmm → Pmm × ℕ
early_alloc pmm = (
  record pmm { last_early_alloc_addr = (pmm.last_early_alloc_addr + page_size) % 2 ^ 64 },
  pmm.last_early_alloc_addr,
)

-- The address of the frame, and 0 when memory is out.
unfoldable pub alloc_frame : Pmm → Pmm × ℕ
alloc_frame pmm =
    if not pmm.memmap_is_initialized then early_alloc pmm else elim (Bitmap.find_clear pmm.bitmap) [
      | none ↦ (pmm, 0)
      | some page_idx ↦ (mark_page pmm page_idx, page_to_addr_base page_idx)
    ]

unfoldable pub free_frame : Pmm → ℕ → Pmm
free_frame pmm addr = clear_page pmm (addr_to_page addr)

-- The sum of the lengths, and the longest usable entry, the first of the longest.
pub scan_memmap : List MemmapEntry → Pmm → Pmm
scan_memmap [] pmm = pmm
scan_memmap (e ∷ entries) pmm =
    let total = (pmm.total_mem + e.length) % 2 ^ 64 in
    scan_memmap entries (
      if e.usable && ltb pmm.max_section_length e.length
      then record pmm {
        total_mem = total;
        max_section_length = e.length;
        max_section_start_addr = e.base;
      }
      else record pmm { total_mem = total })

-- `pmm_initialize` before the memory map is scanned. `mem_bitmap`, the bitmap and the early
-- allocation addresses are static data, zero at boot.
pub before_scan : KernelImage → Pmm
before_scan image =
    let size = (image.end_vaddr + 2 ^ 64 - image.start_vaddr) % 2 ^ 64 in
    let end = (image.physical_base + size) % 2 ^ 64 in
    record {
      total_mem = 0;
      total_pages = 0;
      free_pages = 0;
      kernel_start = image.physical_base;
      kernel_vstart = image.virtual_base;
      kernel_end = page_to_addr_base (align_to_next_page end);
      kernel_vend =
          page_to_addr_base (align_to_next_page ((image.virtual_base + size + 1) % 2 ^ 64));
      kernel_page_count =
          addr_to_page ((end + 2 ^ 64 - image.physical_base + (page_size - 1)) % 2 ^ 64);
      mem_bitmap = 0;
      bitmap_size = 0;
      max_section_length = 0;
      max_section_start_addr = 0;
      first_early_alloc_addr = 0;
      last_early_alloc_addr = 0;
      memmap_is_initialized = false;
      bitmap = record {
        present = false;
        storage = [];
        bit_count = 0;
        byte_count = 0;
        lowest_clear_idx = 0;
        highest_clear_idx = 0;
      };
    }

-- `none` is `abort`: no section can hold the kernel and the bitmap.
unfoldable pub initialize : KernelImage → List MemmapEntry → Option Pmm
unfolding scan_memmap before_scan
initialize image entries =
    let scanned = scan_memmap entries (before_scan image) in
    let pages = scanned.total_mem / page_size in
    let size = Bitmap.storage_size pages in
    let end = (scanned.max_section_start_addr + scanned.max_section_length) % 2 ^ 64 in
    let length =
      if ltb scanned.total_mem end
      then (scanned.max_section_length + 2 ^ 64 - (end - scanned.total_mem)) % 2 ^ 64
      else scanned.max_section_length in
    let early = page_to_addr_base (align_to_next_page scanned.max_section_start_addr) in
    if ltb scanned.max_section_length
      ((scanned.kernel_end + 2 ^ 64 - scanned.kernel_start + size) % 2 ^ 64)
    then none
    else some (record scanned {
      total_pages = pages;
      bitmap_size = size;
      max_section_length = length;
      first_early_alloc_addr = early;
      last_early_alloc_addr = early;
    })

-- The early allocations for the bitmap's pages; mapping them is the virtual memory manager's work.
pub early_allocs : ℕ → Pmm → Pmm
early_allocs zero pmm = pmm
early_allocs (suc n) pmm = early_allocs n (early_alloc pmm).0

-- `for (i = page; i <= last; ++i) clear_page(i);` on the rounds left.
pub clear_range : ℕ → Pmm → ℕ → Pmm
clear_range zero pmm page = pmm
clear_range (suc n) pmm page = clear_range n (clear_page pmm page) (page + 1)

-- `none` is `abort`. The first early address is where the bitmap lies. Its mapping behind the image
-- is taken to be no NULL.
unfoldable pub initialize_bitmap : Pmm → Option Pmm
unfolding early_allocs
initialize_bitmap pmm =
    let pages_for_bitmap = (pmm.bitmap_size + (page_size - 1)) % 2 ^ 64 / page_size in
    let bitmap_paddr = pmm.last_early_alloc_addr in
    let mapped = early_allocs pages_for_bitmap pmm in
    let section_end = (pmm.max_section_start_addr + pmm.max_section_length) % 2 ^ 64 in
    let last_page = align_to_prev_page section_end in
    let first_page = align_to_next_page ((bitmap_paddr + pmm.bitmap_size) % 2 ^ 64) in
    let ready = record mapped {
      mem_bitmap = (pmm.kernel_vend + page_size) % 2 ^ 64;
      bitmap = Bitmap.init true pmm.total_pages true;
    } in
    if leb last_page first_page
    then none
    else some (clear_range (align_to_next_page section_end + 1 - first_page) ready first_page)
