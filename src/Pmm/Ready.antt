-- ===== src/Pmm/Ready.antt =====
-- `pmm_initialize` and `pmm_initialize_bitmap` of kernel/memory/pmm.c: the pages that are free at
-- the end of the boot.
use mathlib.Core.Option.{some_inj, none-ne-some}
use mathlib.Core.Path.{subst}
use hojicha.Bitmap
use hojicha.Pmm.{
  Pmm, MemmapEntry, KernelImage, page_size, clear_range, scan_memmap, before_scan, initialize,
  initialize_bitmap,
}
use hojicha.Pmm.Frames.{allocated, IsValid}
use hojicha.Pmm.FreeLoop.{first_freed, last_freed, ready, ready-FreesLoop}
use hojicha.Pmm.Scan.{memory_size, AreLow, IsLongest, scan_memmap_lem}
use hojicha.Common.{
  ◌++◌, All, inl, inr, ap, min, ℕ, ◌+◌, ◌-◌, ◌*◌, ◌/◌, ◌%◌, ◌^◌, ◌<◌, ◌≡◌, refl, Bool, true, false,
  not, ◌&&◌, none, some, List, [], ◌∷◌, ltb, leb, if◌then◌else◌, arith, ◌∙◌,
}

guard_some : (c : Bool) (x y : Pmm) → (if c then none else some x) ≡ some y → (c ≡ false) × (x ≡ y)
guard_some true x y h = absurd (none-ne-some y h)
guard_some false x y h = (refl, some_inj.0 h)

All-middle {κ} :
    (P : MemmapEntry → Type κ) (xs ys : List MemmapEntry) (e : MemmapEntry)
    → All P (xs ++ e ∷ ys)
    → P e
All-middle P [] ys e (h, _) = h
All-middle P (x ∷ xs) ys e (_, h) = All-middle P xs ys e h

-- What `initialize` makes of the scan.
initialize_lem :
    (image : KernelImage) (entries : List MemmapEntry) (pmm : Pmm)
    → initialize image entries ≡ some pmm
    → (let scanned = scan_memmap entries (before_scan image) in
        let end = (scanned.max_section_start_addr + scanned.max_section_length) % 2 ^ 64 in
        (pmm.total_pages ≡ scanned.total_mem / page_size)
        × (pmm.bitmap_size ≡ Bitmap.storage_size (scanned.total_mem / page_size))
        × (pmm.free_pages ≡ scanned.free_pages)
        × (pmm.max_section_start_addr ≡ scanned.max_section_start_addr)
        × (pmm.max_section_length ≡ (
            if ltb scanned.total_mem end
            then (scanned.max_section_length + 2 ^ 64 - (end - scanned.total_mem)) % 2 ^ 64
            else scanned.max_section_length))
        × (pmm.last_early_alloc_addr
            ≡ (scanned.max_section_start_addr / page_size + 1) * page_size % 2 ^ 64))
unfolding initialize
initialize_lem image entries pmm a =
    let (_, e) = guard_some _ _ pmm a in rw⁻¹ e (refl, refl, refl, refl, refl, refl)

-- The addresses where the bitmap and the section end. The bitmap starts at the page after the one
-- that holds the start of the section, and has one bit for each page of the memory; what lies above
-- as many bytes as the entries have together is not used.
abbrev pub bitmap_end : List MemmapEntry → MemmapEntry → ℕ
bitmap_end entries section =
    (section.base / page_size + 1) * page_size + (memory_size entries / page_size + 7) / 8

abbrev pub section_end : List MemmapEntry → MemmapEntry → ℕ
section_end entries section = min (section.base + section.length) (memory_size entries)

-- What the boot leaves.
pub record FreesSection (entries : List MemmapEntry) (pmm' : Pmm) : Type 0 where
  pub valid : IsValid pmm'
  pub total : pmm'.total_pages ≡ memory_size entries / page_size
  pub section : MemmapEntry
  pub longest : IsLongest entries section
  pub freed :
      (p : ℕ)
      → p < memory_size entries / page_size
      → allocated pmm' p
        ≡ not (
            ltb (bitmap_end entries section) (p * page_size)
            && leb (p * page_size) (section_end entries section + page_size))

page_bounds :
    (x y p : ℕ)
    → (leb (x / page_size + 1) p && leb p (y / page_size + 1))
      ≡ (ltb x (p * page_size) && leb (p * page_size) (y + page_size))
page_bounds x y p = ground arith

-- The start and the end of the loop that frees.
first_freed_lem :
    (base total early size : ℕ)
    → base < 2 ^ 63
    → total < 2 ^ 63
    → early ≡ (base / page_size + 1) * page_size % 2 ^ 64
    → size ≡ Bitmap.storage_size (total / page_size)
    → (early + size) % 2 ^ 64 ≡ (base / page_size + 1) * page_size + (total / page_size + 7) / 8
unfolding Bitmap.storage_size
first_freed_lem base total early size b t e f = omega (arith, b, t, e, f)

last_freed_lem :
    (base length total kept : ℕ)
    → base + length < 2 ^ 63
    → total < 2 ^ 63
    → kept ≡ (
        if ltb total ((base + length) % 2 ^ 64)
        then (length + 2 ^ 64 - ((base + length) % 2 ^ 64 - total)) % 2 ^ 64
        else length)
    → (base + kept) % 2 ^ 64 ≡ min (base + length) total
last_freed_lem base length total kept b t e = ground (arith, b, t, e)

kept_lem :
    (scanned : Pmm) (section : MemmapEntry) (total : ℕ)
    → scanned.max_section_start_addr ≡ section.base
    → scanned.max_section_length ≡ section.length
    → scanned.total_mem ≡ total
    → (let end = (scanned.max_section_start_addr + scanned.max_section_length) % 2 ^ 64 in
        (if ltb scanned.total_mem end
          then (scanned.max_section_length + 2 ^ 64 - (end - scanned.total_mem)) % 2 ^ 64
          else scanned.max_section_length))
      ≡ (if ltb total ((section.base + section.length) % 2 ^ 64)
          then (section.length + 2 ^ 64 - ((section.base + section.length) % 2 ^ 64 - total))
            % 2 ^ 64
          else section.length)
kept_lem scanned section total at long mem = rw (at, long, mem) refl

-- The section and the bitmap of a boot that does not abort.
freed_lem :
    (entries : List MemmapEntry) (section : MemmapEntry) (pmm : Pmm) (mapped_pages : ℕ)
    → memory_size entries < 2 ^ 63
    → section.base + section.length < 2 ^ 63
    → IsLongest entries section
    → pmm.total_pages ≡ memory_size entries / page_size
    → pmm.free_pages ≡ 0
    → pmm.last_early_alloc_addr ≡ (section.base / page_size + 1) * page_size % 2 ^ 64
    → pmm.bitmap_size ≡ Bitmap.storage_size (memory_size entries / page_size)
    → (pmm.max_section_start_addr + pmm.max_section_length) % 2 ^ 64 ≡ section_end entries section
    → leb
        ((pmm.max_section_start_addr + pmm.max_section_length) % 2 ^ 64 / page_size)
        (first_freed pmm)
      ≡ false
    → FreesSection entries (
        clear_range
          (last_freed pmm + 1 - first_freed pmm)
          (ready pmm mapped_pages)
          (first_freed pmm))
freed_lem entries section pmm n small low longest pages free early size end guard =
    let first : (pmm.last_early_alloc_addr + pmm.bitmap_size) % 2 ^ 64
        ≡ bitmap_end entries section =
      first_freed_lem section.base (memory_size entries) pmm.last_early_alloc_addr pmm.bitmap_size
        (omega (arith, low)) small early size in
    let pos : 0 < pmm.total_pages = ground (arith, pages, guard, end) in
    let loop = ready-FreesLoop pmm n pos (omega (arith, pages, small)) free in
    record {
      valid = loop.valid;
      total = loop.total ∙ pages;
      section = section;
      longest = longest;
      freed = λ p h.
          loop.freed p (omega (arith, h, pages))
          ∙ ap not (
              ap (λ x. leb (x / page_size + 1) p && leb p (last_freed pmm)) first
              ∙ ap
                  (λ y.
                    leb (bitmap_end entries section / page_size + 1) p && leb p (y / page_size + 1))
                  end
              ∙ page_bounds (bitmap_end entries section) (section_end entries section) p);
    }

-- Without a section the boot aborts.
no_section :
    (pmm : Pmm)
    → (pmm.max_section_start_addr + pmm.max_section_length) % 2 ^ 64 ≡ 0
    → leb
        ((pmm.max_section_start_addr + pmm.max_section_length) % 2 ^ 64 / page_size)
        (first_freed pmm)
      ≡ false
    → ⊥
no_section pmm zero_end guard = ground (arith, zero_end, guard)

pub initialize_bitmap-FreesSection :
    (image : KernelImage) (entries : List MemmapEntry) (pmm pmm' : Pmm)
    → AreLow entries
    → memory_size entries < 2 ^ 63
    → initialize image entries ≡ some pmm
    → initialize_bitmap pmm ≡ some pmm'
    → FreesSection entries pmm'
unfolding initialize_bitmap before_scan
initialize_bitmap-FreesSection image entries pmm pmm' low small a b =
    let scanned : Pmm = scan_memmap entries (before_scan image) in
    let (mem, free, found) = scan_memmap_lem entries (before_scan image) (omega (arith, small)) in
    let mem' : scanned.total_mem ≡ memory_size entries = omega (arith, mem) in
    let (pages, size, free', start, length, early) = initialize_lem image entries pmm a in
    let (guard, e) = guard_some _ _ pmm' b in
    elim found [
      | inl (no_start, no_length, _) ↦
          absurd (no_section pmm (ground (arith, start, no_start, length, no_length)) guard)
      | inr (section, longest, at, long, _) ↦
          let low' : section.base + section.length < 2 ^ 63 =
            All-middle (λ (x : MemmapEntry). x.base + x.length < 2 ^ 63) longest.before
              longest.after section
              (subst (All (λ (x : MemmapEntry). x.base + x.length < 2 ^ 63)) longest.split low) in
          subst (FreesSection entries) e (
            freed_lem entries section pmm ((pmm.bitmap_size + (page_size - 1)) % 2 ^ 64 / page_size)
              small low' longest (pages ∙ ap (λ t. t / page_size) mem') (free' ∙ free)
              (early ∙ ap (λ x. (x / page_size + 1) * page_size % 2 ^ 64) at)
              (size ∙ ap (λ t. Bitmap.storage_size (t / page_size)) mem')
              (ap (λ x. (x + pmm.max_section_length) % 2 ^ 64) (start ∙ at)
                ∙ last_freed_lem section.base section.length (memory_size entries)
                    pmm.max_section_length low' small
                    (length ∙ kept_lem scanned section (memory_size entries) at long mem'))
              guard)
    ]
