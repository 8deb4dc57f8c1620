-- ===== src/Pmm/Scan.antt =====
-- The scan of the memory map in `pmm_initialize` of kernel/memory/pmm.c.
use mathlib.Core.Path.{subst}
use hojicha.Pmm.{Pmm, MemmapEntry, scan_memmap}
use hojicha.Common.{
  ◌++◌, All, ◌⊎◌, inl, inr, ap, if_ind, ℕ, ◌+◌, ◌%◌, ◌^◌, ◌<◌, ◌≡◌, refl, true, false, ◌&&◌, List,
  [], ◌∷◌, ltb, arith, ◌∙◌,
}

-- The bytes of all entries, usable or not.
abbrev pub memory_size : List MemmapEntry → ℕ
memory_size [] = 0
memory_size (e ∷ entries) = e.length + memory_size entries

-- No entry reaches beyond the lower half of the addresses.
abbrev pub AreLow : List MemmapEntry → Type 0
AreLow entries = All (λ (e : MemmapEntry). e.base + e.length < 2 ^ 63) entries

-- The usable entries are shorter than `n`.
abbrev pub AreShorter : ℕ → List MemmapEntry → Type 0
AreShorter n entries = All (λ (e : MemmapEntry). e.usable ≡ true → e.length < n) entries

-- The first of the longest usable entries.
pub record IsLongest (entries : List MemmapEntry) (e : MemmapEntry) : Type 0 where
  pub before : List MemmapEntry
  pub after : List MemmapEntry
  pub split : entries ≡ before ++ e ∷ after
  pub is_usable : e.usable ≡ true
  pub longer : AreShorter e.length before
  pub as_long : AreShorter (e.length + 1) after

-- What the scan stores is that entry, or nothing is longer than what was stored before.
abbrev pub Found : List MemmapEntry → ℕ → Pmm → Type 0
Found entries stored pmm' =
    (e : MemmapEntry) × IsLongest entries e
    × (pmm'.max_section_start_addr ≡ e.base)
    × (pmm'.max_section_length ≡ e.length)
    × (stored < e.length)

abbrev pub Scanned : List MemmapEntry → Pmm → Pmm → Type 0
Scanned entries pmm pmm' =
    (pmm'.total_mem ≡ pmm.total_mem + memory_size entries)
    × (pmm'.free_pages ≡ pmm.free_pages)
    × (((pmm'.max_section_start_addr ≡ pmm.max_section_start_addr)
          × (pmm'.max_section_length ≡ pmm.max_section_length)
          × AreShorter (pmm.max_section_length + 1) entries)
        ⊎ Found entries pmm.max_section_length pmm')

longer_entry :
    (e : MemmapEntry) (entries : List MemmapEntry) (pmm next pmm' : Pmm)
    → next.max_section_length ≡ e.length
    → next.max_section_start_addr ≡ e.base
    → e.usable ≡ true
    → pmm.max_section_length < e.length
    → ((pmm'.max_section_start_addr ≡ next.max_section_start_addr)
        × (pmm'.max_section_length ≡ next.max_section_length)
        × AreShorter (next.max_section_length + 1) entries)
      ⊎ Found entries next.max_section_length pmm'
    → Found (e ∷ entries) pmm.max_section_length pmm'
longer_entry e entries pmm next pmm' same at u lt (inl (start, length, rest)) = (
  e,
  record {
    before = [];
    after = entries;
    split = refl;
    is_usable = u;
    longer = tt;
    as_long = subst (λ n. AreShorter (n + 1) entries) same rest;
  },
  start ∙ at,
  length ∙ same,
  lt,
)
longer_entry e entries pmm next pmm' same at u lt (inr (f, found, start, length, more)) = (
  f,
  record {
    before = e ∷ found.before;
    after = found.after;
    split = ap (λ l. e ∷ l) found.split;
    is_usable = found.is_usable;
    longer = (λ _. omega (arith, same, more), found.longer);
    as_long = found.as_long;
  },
  start,
  length,
  omega (arith, same, more, lt),
)

shorter_entry :
    (e : MemmapEntry) (entries : List MemmapEntry) (pmm pmm' : Pmm)
    → (e.usable && ltb pmm.max_section_length e.length) ≡ false
    → Found entries pmm.max_section_length pmm'
    → Found (e ∷ entries) pmm.max_section_length pmm'
shorter_entry e entries pmm pmm' u (f, found, start, length, more) = (
  f,
  record {
    before = e ∷ found.before;
    after = found.after;
    split = ap (λ l. e ∷ l) found.split;
    is_usable = found.is_usable;
    longer = (λ h. ground (arith, u, h, more), found.longer);
    as_long = found.as_long;
  },
  start,
  length,
  more,
)

pub scan_memmap_lem :
    (entries : List MemmapEntry) (pmm : Pmm)
    → pmm.total_mem + memory_size entries < 2 ^ 64
    → Scanned entries pmm (scan_memmap entries pmm)
unfolding scan_memmap
scan_memmap_lem [] pmm h = (omega arith, refl, inl (refl, refl, tt))
scan_memmap_lem (e ∷ entries) pmm h =
    let total : ℕ = (pmm.total_mem + e.length) % 2 ^ 64 in
    let sum : total ≡ pmm.total_mem + e.length = omega (arith, h) in
    let stored : Pmm = record pmm {
      total_mem = total;
      max_section_length = e.length;
      max_section_start_addr = e.base;
    } in
    let kept : Pmm = record pmm { total_mem = total } in
    if_ind (λ next. Scanned (e ∷ entries) pmm (scan_memmap entries next))
      (e.usable && ltb pmm.max_section_length e.length) stored kept
      (λ t.
        let (mem, free, section) = scan_memmap_lem entries stored (omega (arith, sum, h)) in
        (
          mem ∙ omega (arith, sum),
          free,
          inr (
              longer_entry e entries pmm stored (scan_memmap entries stored) refl refl
                (ground (arith, t)) (ground (arith, t)) section),
        ))
      (λ f.
        let (mem, free, section) = scan_memmap_lem entries kept (omega (arith, sum, h)) in
        (
          mem ∙ omega (arith, sum),
          free,
          elim section [
            | inl (a, b, rest) ↦ inl (a, b, (λ u. ground (arith, f, u), rest))
            | inr found ↦ inr (shorter_entry e entries pmm (scan_memmap entries kept) f found)
          ],
        ))
