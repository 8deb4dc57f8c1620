-- ===== src/Slab.antt =====
-- kernel/memory/slab.c: objects of ten sizes, each in a slab with a bitmap of the objects in use.
pub mod Release
pub mod Serve
mod Examples
use hojicha.Bitmap
use hojicha.Bitmap.{Bitmap, get, set_bit, clear_bit, find_clear}
use hojicha.Common.{
  ℕ, zero, suc, ◌+◌, ◌-◌, ◌*◌, ◌/◌, ◌^◌, ◌%◌, Bool, true, false, Option, none, some, ◌&&◌, ◌||◌,
  not, ltb, leb, ◌==◌, if◌then◌else◌, List, [], ◌∷◌, get_or,
}

abbrev pub slab_magic : ℕ
slab_magic = 0x48534C4142

abbrev pub slab_big_class : ℕ
slab_big_class = 2 ^ 64 - 1

abbrev pub slab_class_count : ℕ
slab_class_count = 10

abbrev pub page_size : ℕ
page_size = 4096

-- `sizeof(slab_object_header_t)`.
abbrev pub header_size : ℕ
header_size = 24

abbrev pub slab_class_sizes : List ℕ
slab_class_sizes = 32 ∷ 64 ∷ 128 ∷ 256 ∷ 512 ∷ 1024 ∷ 2048 ∷ 4096 ∷ 8192 ∷ 16384 ∷ []

abbrev pub class_size : ℕ → ℕ
class_size class_idx = get_or slab_class_sizes class_idx 0

-- `slab_object_header_t`; a slab is its address, and 0 is NULL.
pub record Header : Type 0 where
  pub magic : ℕ
  pub class_idx : ℕ
  pub slab : ℕ

-- `slab_t` without `next`, for which `Slabs` has the lists.
pub record Slab : Type 0 where
  pub raw_page : ℕ
  pub page : ℕ
  pub bitmap : Bitmap
  pub object_count : ℕ
  pub free_count : ℕ

-- The memory that the allocator uses: the headers and slabs by address, and the slabs of each class,
-- the head of the chain first.
pub record Slabs : Type 0 where
  pub header_at : ℕ → Header
  pub slab_at : ℕ → Slab
  pub classes : ℕ → List ℕ

abbrev pub at {ℓ} : {A : Type ℓ} → (ℕ → A) → ℕ → A → ℕ → A
at f p v = λ q. if q == p then v else f q

-- The loop over the classes from `idx` on.
abbrev pub class_from : ℕ → List ℕ → ℕ → Option ℕ
class_from needed [] idx = none
class_from needed (size ∷ sizes) idx =
    let later = class_from needed sizes (idx + 1) in if leb needed size then some idx else later

unfoldable pub slab_class_for_size : ℕ → Option ℕ
slab_class_for_size size = class_from ((size + header_size) % 2 ^ 64) slab_class_sizes 0

unfoldable pub slab_pages_for_class : ℕ → ℕ
slab_pages_for_class class_idx = (class_size class_idx + page_size - 1) / page_size

-- For an alignment that is a power of two.
unfoldable pub slab_align_up : (addr alignment : ℕ) → ℕ
slab_align_up addr alignment = (addr + alignment - 1) % 2 ^ 64 / alignment * alignment

-- The header of every object of a new slab.
unfoldable pub stamp : (count page size : ℕ) → Header → (ℕ → Header) → ℕ → Header
stamp zero page size header header_at = header_at
stamp (suc idx) page size header header_at =
    at (stamp idx page size header header_at) (page + idx * size) header

-- What the three allocations of `slab_grow` return.
pub record Memory : Type 0 where
  pub slab : Option ℕ
  pub bitmap_storage : Bool
  pub raw_page : Option ℕ

abbrev pub grown : Slabs → ℕ → (slab raw_page : ℕ) → Slabs
unfolding slab_pages_for_class slab_align_up stamp
grown st class_idx slab raw_page =
    let object_count = slab_pages_for_class class_idx * page_size / class_size class_idx in
    let page = slab_align_up raw_page 8 in
    let header : Header = record { magic = slab_magic; class_idx = class_idx; slab = slab } in
    record {
      header_at = stamp object_count page (class_size class_idx) header st.header_at;
      slab_at = at st.slab_at slab (record {
        raw_page = raw_page;
        page = page;
        bitmap = Bitmap.init true object_count false;
        object_count = object_count;
        free_count = object_count;
      });
      classes = at st.classes class_idx (slab ∷ st.classes class_idx);
    }

-- `none` as one of the allocations fails; the others are freed.
unfoldable pub slab_grow : Slabs → ℕ → Memory → Option (Slabs × ℕ)
unfolding grown
slab_grow st class_idx memory = elim (memory.slab) [
  | none ↦ none
  | some slab ↦ elim (memory.raw_page) [
    | none ↦ none
    | some raw_page ↦
        if memory.bitmap_storage then some (grown st class_idx slab raw_page, slab) else none
  ]
]

-- `while (slab != NULL && slab->free_count == 0) { slab = slab->next; }`.
unfoldable pub first_free : Slabs → List ℕ → Option ℕ
first_free st [] = none
first_free st (slab ∷ slabs) =
    let later = first_free st slabs in
    if (st.slab_at slab).free_count == 0 then later else some slab

-- The object is marked; the result is the address after its header.
unfoldable pub take_object : Slabs → (class_idx slab object_idx : ℕ) → Slabs × Option ℕ
take_object st class_idx slab object_idx =
    let s = st.slab_at slab in
    (
      record st {
        slab_at = at st.slab_at slab (record s {
          bitmap = (set_bit s.bitmap object_idx).0;
          free_count = (s.free_count + 2 ^ 64 - 1) % 2 ^ 64;
        });
      },
      some (s.page + object_idx * class_size class_idx + header_size),
    )

-- An object of a new slab.
abbrev pub from_new : ℕ → Slabs → Option (Slabs × ℕ) → Slabs × Option ℕ
unfolding take_object
from_new class_idx st none = (st, none)
from_new class_idx st (some (st', slab)) = elim (find_clear (st'.slab_at slab).bitmap) [
  | none ↦ (st', none)
  | some object_idx ↦ take_object st' class_idx slab object_idx
]

-- An object of the slab that was chosen; a bitmap with no clear bit makes the class grow again.
abbrev pub from_slab : Memory → ℕ → Slabs → Option (Slabs × ℕ) → Slabs × Option ℕ
unfolding slab_grow take_object from_new
from_slab again class_idx st none = (st, none)
from_slab again class_idx st (some (st', slab)) =
    if (st'.slab_at slab).free_count == 0
    then (st', none)
    else elim (find_clear (st'.slab_at slab).bitmap) [
      | none ↦ from_new class_idx st' (slab_grow st' class_idx again)
      | some object_idx ↦ take_object st' class_idx slab object_idx
    ]

abbrev pub chosen : Slabs → ℕ → Memory → Option ℕ → Option (Slabs × ℕ)
unfolding slab_grow
chosen st class_idx memory none = slab_grow st class_idx memory
chosen st class_idx memory (some slab) = some (st, slab)

abbrev pub big_object : Slabs → Option ℕ → Slabs × Option ℕ
big_object st none = (st, none)
big_object st (some addr) = (
  record st {
    header_at =
        at st.header_at addr (record { magic = slab_magic; class_idx = slab_big_class; slab = 0 });
  },
  some (addr + header_size),
)

-- `big` is what `malloc` returns for an object of no class; `memory` and `again` are for the first and
-- a second call of `slab_grow`.
unfoldable pub slab_alloc :
    Slabs → ℕ → (big : Option ℕ) → (memory again : Memory) → Slabs × Option ℕ
unfolding slab_class_for_size first_free chosen from_slab
slab_alloc st size big memory again = elim (slab_class_for_size (if size == 0 then 1 else size)) [
  | none ↦ big_object st big
  | some class_idx ↦
      from_slab again class_idx st
        (chosen st class_idx memory (first_free st (st.classes class_idx)))
]

-- The header of a big object before it is freed; what `free` then does to the heap of Hmalloc is
-- left out.
abbrev pub forget : Slabs → ℕ → Slabs
forget st header = record st {
  header_at = at st.header_at header (record (st.header_at header) { magic = 0 });
}

-- The object of a slab is free again.
abbrev pub release : Slabs → (slab object_idx : ℕ) → Slabs
release st slab object_idx =
    let s = st.slab_at slab in
    record st {
      slab_at = at st.slab_at slab (record s {
        bitmap = (clear_bit s.bitmap object_idx).0;
        free_count = (s.free_count + 1) % 2 ^ 64;
      });
    }

-- `((slab_object_header_t*)ptr) - 1`.
abbrev pub header_of : ℕ → ℕ
header_of ptr = (ptr + 2 ^ 64 - header_size) % 2 ^ 64

unfoldable pub slab_free : Slabs → ℕ → Slabs
slab_free st ptr =
    let header = header_of ptr in
    let h = st.header_at header in
    let s = st.slab_at h.slab in
    let offset = header - s.page in
    let size = class_size h.class_idx in
    let object_idx = offset / size in
    if ptr == 0
    then st
    else if not (h.magic == slab_magic)
    then st
    else if h.class_idx == slab_big_class
    then forget st header
    else if leb slab_class_count h.class_idx || h.slab == 0
    then st
    else if ltb header s.page
    then st
    else if not (offset % size == 0)
    then st
    else if leb s.object_count object_idx || not (get s.bitmap object_idx)
    then st
    else release st h.slab object_idx
