-- ===== src/Hmalloc.antt =====
-- libc/hmalloc/hmalloc.c: an allocator of blocks with boundary tags, the free ones in a list.
--
-- The places that the code reads and writes are the fields of the records below: the fields of two
-- blocks do not overlap, and the contents of the blocks are left out. Addresses inside the heap are
-- below 2 ^ 64, so sums of them do not wrap; what a caller can choose has the wrap written out.
-- `map_heap_pages` is an argument, and the locks, which only keep interrupts out, are left out. The
-- loops over the list take fuel.
mod Examples
pub mod Chain
pub mod FreeList
pub mod FreeOps
pub mod Tiles
pub mod Occupy
pub mod Merge
pub mod Neighbours
pub mod Release
pub mod Free
pub mod FirstFit
pub mod Grow
pub mod Serve
pub mod Laws
pub mod Tidy
use hojicha.Common.{
  ℕ, zero, suc, ◌+◌, ◌-◌, ◌*◌, ◌/◌, ◌^◌, ◌%◌, Bool, true, false, Option, none, some, ◌&&◌, ◌||◌,
  not, ltb, leb, ◌==◌, if◌then◌else◌,
}

abbrev pub page_size : ℕ
page_size = 4096

abbrev pub max_grow_size : ℕ
max_grow_size = 160

-- `SIZEOF_HEADER`, `SIZEOF_FOOTER` and `BLOCK_OVERHEAD`; both structures are packed.
abbrev pub sizeof_header : ℕ
sizeof_header = 25

abbrev pub sizeof_footer : ℕ
sizeof_footer = 8

abbrev pub block_overhead : ℕ
block_overhead = 33

-- The fields of `block_header_t` by the address of the header, and `header` of `block_footer_t` by
-- that of the footer. A pointer is an address, and 0 is NULL.
pub record Memory : Type 0 where
  pub is_free : ℕ → Bool
  pub size_bytes : ℕ → ℕ
  pub next : ℕ → ℕ
  pub footer : ℕ → ℕ
  pub header : ℕ → ℕ

pub record Heap : Type 0 where
  pub memory : Memory
  pub free_regions : ℕ
  pub heap_grow_size : ℕ
  pub first_available_vaddr : ℕ
  pub last_footer : ℕ
  pub heap_initialized : Bool

abbrev pub at {ℓ} : {A : Type ℓ} → (ℕ → A) → ℕ → A → ℕ → A
at f p v = λ q. if q == p then v else f q

-- `none` is out of fuel.
infixl 5 ◌>>=◌
abbrev pub ◌>>=◌ {ℓ κ} : {A : Type ℓ} {B : Type κ} → Option A → (A → Option B) → Option B
none >>= f = none
some a >>= f = f a

unfoldable pub align_up : (addr alignment : ℕ) → ℕ
align_up addr alignment = (addr + alignment - 1) % 2 ^ 64 / alignment * alignment

unfoldable pub bytes_to_pages : ℕ → Option ℕ
bytes_to_pages size =
    let pages = (size + block_overhead + page_size - 1) % 2 ^ 64 / page_size in
    if ltb (2 ^ 64 - 1 - block_overhead - page_size + 1) size
    then none
    else some (if pages == 0 then 1 else pages)

abbrev pub set_next : Heap → ℕ → ℕ → Heap
set_next h p n = record h { memory = record (h.memory) { next = at h.memory.next p n } }

unfoldable pub is_block_header_in_heap : Heap → ℕ → Bool
is_block_header_in_heap h block =
    not (block == 0)
    && leb h.first_available_vaddr block
    && leb (block + sizeof_header) h.last_footer

unfoldable pub is_footer_in_heap : Heap → ℕ → Bool
is_footer_in_heap h footer =
    not (footer == 0) && leb h.first_available_vaddr footer && leb footer h.last_footer

-- `prev` after `while (prev->next != NULL && prev->next != block) prev = prev->next`.
unfoldable pub remove_walk : ℕ → (next : ℕ → ℕ) → (prev block : ℕ) → Option ℕ
remove_walk zero next prev block = none
remove_walk (suc fuel) next prev block =
    let rest = remove_walk fuel next (next prev) block in
    if next prev == 0 || next prev == block then some prev else rest

abbrev pub unlink : (next : ℕ → ℕ) → (block prev : ℕ) → ℕ → ℕ
unlink next block prev = if next prev == block then at (at next prev (next block)) block 0 else next

abbrev pub with_next : Heap → (ℕ → ℕ) → Heap
with_next h next = record h { memory = record (h.memory) { next = next } }

unfoldable pub remove_from_free_list : ℕ → Heap → ℕ → Option Heap
unfolding remove_walk
remove_from_free_list fuel h block =
    if block == 0 || h.free_regions == 0
    then some h
    else if h.free_regions == block
    then some (record (set_next h block 0) { free_regions = h.memory.next block })
    else (do
      prev ← remove_walk fuel h.memory.next h.free_regions block
      some (with_next h (unlink h.memory.next block prev)))

-- `prev` after `while (prev->next != NULL && prev->next < block) prev = prev->next`.
unfoldable pub insert_walk : ℕ → (next : ℕ → ℕ) → (prev block : ℕ) → Option ℕ
insert_walk zero next prev block = none
insert_walk (suc fuel) next prev block =
    let rest = insert_walk fuel next (next prev) block in
    if next prev == 0 || not (ltb (next prev) block) then some prev else rest

abbrev pub mark_free : Heap → ℕ → Bool → Heap
mark_free h block b = record h {
  memory = record (h.memory) { is_free = at h.memory.is_free block b };
}

abbrev pub link_after : (next : ℕ → ℕ) → (block prev : ℕ) → ℕ → ℕ
link_after next block prev = at (at next block (next prev)) prev block

unfoldable pub insert_free_block : ℕ → Heap → ℕ → Option Heap
unfolding insert_walk
insert_free_block fuel h block =
    let marked = mark_free h block true in
    if block == 0
    then some h
    else if h.free_regions == 0 || ltb block h.free_regions
    then some (record (set_next marked block h.free_regions) { free_regions = block })
    else (do
      prev ← insert_walk fuel h.memory.next h.free_regions block
      some (with_next marked (link_after h.memory.next block prev)))

-- `prev` after `while (prev != NULL && prev->next != old_block) prev = prev->next`.
unfoldable pub replace_walk : ℕ → (next : ℕ → ℕ) → (prev old_block : ℕ) → Option ℕ
replace_walk zero next prev old_block = none
replace_walk (suc fuel) next prev old_block =
    let rest = replace_walk fuel next (next prev) old_block in
    if prev == 0 || next prev == old_block then some prev else rest

abbrev pub relink : (next : ℕ → ℕ) → (old_block new_block prev : ℕ) → ℕ → ℕ
relink next old_block new_block prev =
    at (at (at next new_block (next old_block)) prev new_block) old_block 0

abbrev pub clear_next : ℕ → Heap → Option Heap
clear_next block h = some (set_next h block 0)

unfoldable pub replace_free_list_block : ℕ → Heap → (old_block new_block : ℕ) → Option Heap
unfolding replace_walk insert_free_block
replace_free_list_block fuel h old_block new_block =
    let next = h.memory.next in
    if old_block == 0 || new_block == 0
    then some h
    else if h.free_regions == old_block
    then some (record (with_next h (at (at next new_block (next old_block)) old_block 0)) {
      free_regions = new_block;
    })
    else replace_walk fuel next h.free_regions old_block >>= λ prev.
        if prev == 0
        then insert_free_block fuel h new_block >>= clear_next old_block
        else some (with_next h (relink next old_block new_block prev))

-- The result is 0 when no block of the list fits.
unfoldable pub find_first_fit_block : ℕ → Memory → (block size : ℕ) → Option ℕ
find_first_fit_block zero m block size = none
find_first_fit_block (suc fuel) m block size =
    let rest = find_first_fit_block fuel m (m.next block) size in
    if block == 0
    then some 0
    else if leb size (m.size_bytes block) && m.is_free block
    then some block
    else rest

unfoldable pub get_next : Heap → ℕ → ℕ
unfolding is_block_header_in_heap is_footer_in_heap
get_next h block =
    let m = h.memory in
    let next = m.footer block + sizeof_footer in
    if not (is_block_header_in_heap h block) || not (is_footer_in_heap h (m.footer block))
    then 0
    else if leb h.last_footer next
    then 0
    else if not (is_block_header_in_heap h next) || not (is_footer_in_heap h (m.footer next))
    then 0
    else if not (m.header (m.footer next) == next)
    then 0
    else next

unfoldable pub get_previous : Heap → ℕ → ℕ
unfolding is_block_header_in_heap is_footer_in_heap
get_previous h block =
    let m = h.memory in
    let previous_footer = block - sizeof_footer in
    let previous = m.header previous_footer in
    if not (is_block_header_in_heap h block)
    then 0
    else if ltb block (h.first_available_vaddr + sizeof_header + sizeof_footer)
    then 0
    else if not (is_footer_in_heap h previous_footer)
    then 0
    else if not (is_block_header_in_heap h previous)
    then 0
    else if leb block previous
    then 0
    else if not (m.footer previous == previous_footer)
    then 0
    else previous

-- Both `memset` calls write zeros over all fields.
unfoldable pub merge_blocks : Memory → (first second : ℕ) → Memory
merge_blocks m first second = record {
  is_free = at m.is_free second false;
  size_bytes =
      at (at m.size_bytes first (m.size_bytes first + (m.size_bytes second + block_overhead)))
        second 0;
  next = at (at m.next first (m.next second)) second 0;
  footer = at (at m.footer first (m.footer second)) second 0;
  header = at (at m.header (m.footer first) 0) (m.footer second) first;
}

-- `split_region` with `set_footer_at`: the memory, and the block that is left over.
unfoldable pub split_region : Memory → (block size : ℕ) → Memory × ℕ
split_region m block size =
    let leftover = block + sizeof_header + sizeof_footer + size in
    (
      record m {
        is_free = at m.is_free leftover true;
        size_bytes =
            at m.size_bytes leftover (m.size_bytes block - size - sizeof_header - sizeof_footer);
        next = at m.next leftover (m.next block);
        footer = at (at m.footer leftover (m.footer block)) block (leftover - sizeof_footer);
        header = at (at m.header (m.footer block) leftover) (leftover - sizeof_footer) block;
      },
      leftover,
    )

unfoldable pub occupy_block : ℕ → Heap → (block size : ℕ) → Option Heap
unfolding remove_from_free_list split_region replace_free_list_block
occupy_block fuel h block size =
    let used = mark_free h block false in
    let (split, leftover) = split_region used.memory block size in
    (if leb (h.memory.size_bytes block) ((size + sizeof_header + sizeof_footer) % 2 ^ 64)
      then remove_from_free_list fuel used block
      else replace_free_list_block fuel
          (record used { memory = record split { size_bytes = at split.size_bytes block size } })
          block leftover)
    >>= clear_next block

-- The region's header and footer, and the doubled `heap_grow_size`.
abbrev pub set_up : Heap → (heap_start pages : ℕ) → Heap
set_up h heap_start pages =
    let m = h.memory in
    let size = pages * page_size - sizeof_header - sizeof_footer in
    let footer = heap_start + sizeof_header + size in
    record h {
      memory = record m {
        is_free = at m.is_free heap_start true;
        size_bytes = at m.size_bytes heap_start size;
        next = at m.next heap_start 0;
        footer = at m.footer heap_start footer;
        header = at m.header footer heap_start;
      };
      free_regions = heap_start;
      first_available_vaddr = heap_start;
      last_footer = footer;
      heap_grow_size =
          if ltb h.heap_grow_size max_grow_size
          then h.heap_grow_size * 2 % 2 ^ 64
          else h.heap_grow_size;
      heap_initialized = true;
    }

unfoldable pub initialize_heap_region : Heap → (heap_start pages : ℕ) → Heap × Bool
initialize_heap_region h heap_start pages =
    if heap_start == 0
    then (record h { free_regions = 0 }, false)
    else (set_up h heap_start pages, true)

-- The block that `grow_heap_by` puts behind the last one, before it looks for a free neighbour.
unfoldable pub append_block : Heap → (new_pages pages : ℕ) → Heap
append_block h new_pages pages =
    let m = h.memory in
    let new_block = h.last_footer + sizeof_footer in
    let difference = (new_pages + 2 ^ 64 - new_block) % 2 ^ 64 in
    let size = (pages * page_size + difference + 2 ^ 64 - sizeof_header - sizeof_footer) % 2 ^ 64 in
    let footer = new_block + sizeof_header + size in
    record h {
      memory = record m {
        is_free = at m.is_free new_block true;
        size_bytes = at m.size_bytes new_block size;
        next = at m.next new_block 0;
        footer = at m.footer new_block footer;
        header = at m.header footer new_block;
      };
      last_footer = footer;
    }

abbrev pub merge_with : (first second : ℕ) → Heap → Heap
merge_with first second h = record h { memory = merge_blocks h.memory first second }

abbrev pub insert_and_return : ℕ → ℕ → Heap → Option (Heap × ℕ)
insert_and_return fuel block h = insert_free_block fuel h block >>= λ h'. some (h', block)

-- A result of 0 is NULL: no pages were mapped.
unfoldable pub grow_heap_by :
    ℕ → (map_heap_pages : ℕ → ℕ → ℕ) → Heap → (pages : ℕ) → Option (Heap × ℕ)
unfolding align_up append_block remove_from_free_list merge_blocks insert_free_block
grow_heap_by fuel map_heap_pages h pages =
    let new_pages = map_heap_pages (align_up (h.last_footer + sizeof_footer) page_size) pages in
    let last_block = h.memory.header h.last_footer in
    let new_block = h.last_footer + sizeof_footer in
    let grown = append_block h new_pages pages in
    if pages == 0
    then some (h, 0)
    else if new_pages == 0
    then some (h, 0)
    else if grown.memory.is_free last_block
    then (remove_from_free_list fuel grown last_block >>= λ h'.
        insert_and_return fuel last_block (merge_with last_block new_block h'))
    else insert_and_return fuel new_block grown

unfoldable pub grow_heap : ℕ → (map_heap_pages : ℕ → ℕ → ℕ) → Heap → Option (Heap × ℕ)
unfolding grow_heap_by
grow_heap fuel map_heap_pages h =
    grow_heap_by fuel map_heap_pages (record h { heap_grow_size = (h.heap_grow_size + 1) % 2 ^ 64 })
      h.heap_grow_size

-- What `hmalloc` does with the block it has got: the address of its contents, or NULL for NULL.
unfoldable pub hand_out : ℕ → (size : ℕ) → Heap × ℕ → Option (Heap × ℕ)
unfolding occupy_block
hand_out fuel size (h, block) =
    if block == 0
    then some (h, 0)
    else occupy_block fuel h block size >>= λ h'. some (h', block + sizeof_header)

unfoldable pub find_or_grow :
    ℕ → (map_heap_pages : ℕ → ℕ → ℕ) → Heap → (size : ℕ) → Option (Heap × ℕ)
unfolding find_first_fit_block grow_heap
find_or_grow fuel map_heap_pages h size =
    find_first_fit_block fuel h.memory h.free_regions size >>= λ first_fit.
    if first_fit == 0 then grow_heap fuel map_heap_pages h else some (h, first_fit)

-- The kernel's build of `hmalloc`, from the number of pages on.
unfoldable pub hmalloc_pages :
    ℕ → (map_heap_pages : ℕ → ℕ → ℕ) → Heap → (size : ℕ) → Option ℕ → Option (Heap × ℕ)
unfolding grow_heap_by hand_out find_or_grow
hmalloc_pages fuel map_heap_pages h size none = some (h, 0)
hmalloc_pages fuel map_heap_pages h size (some pages) =
    (if ltb h.heap_grow_size pages
      then grow_heap_by fuel map_heap_pages h pages
      else find_or_grow fuel map_heap_pages h size)
    >>= hand_out fuel size

unfoldable pub hmalloc : ℕ → (map_heap_pages : ℕ → ℕ → ℕ) → Heap → (size : ℕ) → Option (Heap × ℕ)
unfolding bytes_to_pages hmalloc_pages
hmalloc fuel map_heap_pages h size =
    if not h.heap_initialized
    then some (h, 0)
    else hmalloc_pages fuel map_heap_pages h size (bytes_to_pages size)

abbrev pub block_of : (ptr : ℕ) → ℕ
block_of ptr = (ptr + 2 ^ 64 - sizeof_header) % 2 ^ 64

-- The early returns of `hfree` and `hmalloc_usable_size`: the address is of no block in use.
unfoldable pub is_rejected : Heap → (ptr : ℕ) → Bool
unfolding is_footer_in_heap
is_rejected h ptr =
    let m = h.memory in
    let block = block_of ptr in
    (ptr == 0 || not h.heap_initialized)
    || (ltb block h.first_available_vaddr || leb h.last_footer block)
    || (not (is_footer_in_heap h (m.footer block)) || not (m.header (m.footer block) == block))
    || m.is_free block

-- The merge with a free block before it: the heap and the block that there is now.
unfoldable pub merge_previous : ℕ → Heap → (block : ℕ) → Option (Heap × ℕ)
unfolding get_previous remove_from_free_list merge_blocks
merge_previous fuel h block =
    let previous = get_previous h block in
    if not (previous == 0) && h.memory.is_free previous
    then (remove_from_free_list fuel h previous >>= λ h'.
        some (merge_with previous block h', previous))
    else some (h, block)

unfoldable pub merge_next : ℕ → Heap × ℕ → Option (Heap × ℕ)
unfolding get_next remove_from_free_list merge_blocks
merge_next fuel (h, block) =
    let next = get_next h block in
    if not (next == 0) && h.memory.is_free next
    then (remove_from_free_list fuel h next >>= λ h'. some (merge_with block next h', block))
    else some (h, block)

abbrev pub insert_last : ℕ → Heap × ℕ → Option Heap
insert_last fuel (h, block) = insert_free_block fuel h block

unfoldable pub hfree : ℕ → Heap → (ptr : ℕ) → Option Heap
unfolding is_rejected merge_previous merge_next insert_free_block
hfree fuel h ptr =
    let block = block_of ptr in
    if is_rejected h ptr
    then some h
    else (merge_previous fuel (set_next (mark_free h block true) block 0) block >>= merge_next fuel)
      >>= insert_last fuel

unfoldable pub hmalloc_usable_size : Heap → (ptr : ℕ) → ℕ
unfolding is_rejected
hmalloc_usable_size h ptr = if is_rejected h ptr then 0 else h.memory.size_bytes (block_of ptr)

abbrev pub take_block : ℕ → (size : ℕ) → Heap × ℕ → Option (Heap × ℕ)
take_block fuel size (h, block) =
    if block == 0 then some (h, 0) else occupy_block fuel h block size >>= λ h'. some (h', block)

-- The address of the block itself is returned.
unfoldable pub hmalloc_page_aligned :
    ℕ → (map_heap_pages : ℕ → ℕ → ℕ) → Heap → (size : ℕ) → Option (Heap × ℕ)
unfolding bytes_to_pages grow_heap_by occupy_block
hmalloc_page_aligned fuel map_heap_pages h size =
    if not h.heap_initialized then some (h, 0) else elim (bytes_to_pages size) [
      | none ↦ some (h, 0)
      | some pages ↦ (grow_heap_by fuel map_heap_pages h pages >>= take_block fuel size)
    ]
