-- ===== src/Vma.antt =====
-- kernel/memory/vma.c: the list of virtual memory areas of an address space.
pub mod Areas
pub mod Insert
pub mod Remove
pub mod Search
pub mod Backward
pub mod Fixed
mod Examples
use hojicha.Common.{
  ℕ, ◌+◌, ◌-◌, ◌%◌, ◌^◌, Bool, true, false, not, ◌||◌, ◌&&◌, Option, none, some, List, [], ◌∷◌,
  ◌++◌, ltb, leb, ◌==◌, if◌then◌else◌,
}

abbrev pub page_size : ℕ
page_size = 4096

-- `(haddr_t)-1`.
abbrev pub addr_max : ℕ
addr_max = 2 ^ 64 - 1

-- `struct vma` without its links: the doubly linked list is the list of its nodes in order.
-- Both ends of an area are inclusive.
pub record Vma : Type 0 where
  pub start : ℕ
  pub end : ℕ
  pub access : ℕ
  pub flags : ℕ
  pub offset : ℕ

abbrev pub Vmas : Type 0
Vmas = List Vma

-- Address arithmetic wraps at 64 bits.
abbrev pub add_addr : ℕ → ℕ → ℕ
add_addr a b = (a + b) % 2 ^ 64

abbrev pub sub_addr : ℕ → ℕ → ℕ
sub_addr a b = (a + 2 ^ 64 - b) % 2 ^ 64

-- `addr & (VMA_PAGE_SIZE - 1)` is zero.
abbrev pub page_aligned : ℕ → Bool
page_aligned a = a % page_size == 0

-- `addr & ~(VMA_PAGE_SIZE - 1)`, and the same of `addr + VMA_PAGE_SIZE - 1`.
abbrev pub align_down : ℕ → ℕ
align_down addr = addr - addr % page_size

abbrev pub align_up : ℕ → ℕ
align_up addr = align_down (sub_addr (add_addr addr page_size) 1)

unfoldable pub range_valid : (start end : ℕ) → Bool
range_valid start end =
    if ltb end start
    then false
    else if not (page_aligned start)
    then false
    else if not (page_aligned (add_addr end 1))
    then false
    else true

abbrev pub overlaps : Vma → (start end : ℕ) → Bool
overlaps vma start end = leb vma.start end && leb start vma.end

-- The end of the range, if it fits: the value stored through `end_out`.
unfoldable pub range_fits : (start min max length : ℕ) → Option ℕ
range_fits start min max length =
    if ltb start min || ltb max start
    then none
    else if ltb (addr_max - start) (sub_addr length 1)
    then none
    else let end = sub_addr (add_addr start length) 1 in if ltb max end then none else some end

-- The areas passed on the way stay in front of what the rest of the walk gives.
abbrev pub keep : Vma → Option Vmas → Option Vmas
keep current none = none
keep current (some rest) = some (current ∷ rest)

-- A walk that fails leaves the list as it was and answers false.
abbrev pub report : Vmas → Option Vmas → Vmas × Bool
report head none = (head, false)
report head (some head') = (head', true)

-- `vma_insert`: the walk to the first area that ends at `start` or later, the overlap test, and
-- the link before it (or at the tail). `allocated` is what `slab_calloc` answers; `none` is the
-- failure, which leaves the list as it was.
unfoldable pub insert_walk : (allocated : Bool) → Vmas → Vma → Option Vmas
insert_walk allocated [] node = if allocated then some (node ∷ []) else none
insert_walk allocated (current ∷ rest) node =
    let further = insert_walk allocated rest node in
    if ltb current.end node.start
    then if current.end == addr_max then none else keep current further
    else if overlaps current node.start node.end
    then none
    else if allocated
    then some (node ∷ current ∷ rest)
    else none

unfoldable pub insert :
    (allocated : Bool) → Vmas → (start end access flags offset : ℕ) → Vmas × Bool
insert allocated head start end access flags offset =
    if not (range_valid start end)
    then (head, false)
    else let node : Vma = record {
      start = start;
      end = end;
      access = access;
      flags = flags;
      offset = offset;
    } in
      report head (insert_walk allocated head node)

-- What `vma_remove` leaves of the area that holds `start`, up to `remove_end`; `none` is the
-- failed allocation of the second half.
unfoldable pub cut : (allocated : Bool) → Vma → (start remove_end : ℕ) → Option Vmas
cut allocated current start remove_end =
    let tail : Vma = record current { start = add_addr remove_end 1 } in
    let front : Vma = record current { end = sub_addr start 1 } in
    if start == current.start && remove_end == current.end
    then some []
    else if start == current.start
    then some (tail ∷ [])
    else if remove_end == current.end
    then some (front ∷ [])
    else if allocated
    then some (front ∷ tail ∷ [])
    else none

-- The areas before the one that `start` falls in or before stay in front.
unfoldable pub remove_walk : (allocated : Bool) → Vmas → (start end : ℕ) → Option Vmas
remove_walk allocated [] start end = some []
remove_walk allocated (current ∷ rest) start end =
    let further = remove_walk allocated rest start end in
    if ltb current.end start
    then keep current further
    else if ltb start current.start
    then some (current ∷ rest)
    else let remove_end = if ltb end current.end then end else current.end in
      elim (cut allocated current start remove_end) [
        | none ↦ none
        | some pieces ↦ some (pieces ++ rest)
      ]

unfoldable pub remove : (allocated : Bool) → Vmas → (start end : ℕ) → Vmas × Bool
remove allocated head start end =
    if not (range_valid start end)
    then (head, false)
    else report head (remove_walk allocated head start end)

-- `vma_clear` frees the areas one by one.
unfoldable pub clear : Vmas → Vmas
clear [] = []
clear (current ∷ rest) = clear rest

-- `vma_copy_list` into an empty list; the allocations are answered in order by `allocated`.
-- A failed insert clears what was copied.
unfoldable pub copy_from : (allocated : ℕ → Bool) → ℕ → Vmas → Vmas → Vmas × Bool
copy_from allocated n dst [] = (dst, true)
copy_from allocated n dst (current ∷ src) =
    let (dst', done) =
      insert (allocated n) dst current.start current.end current.access current.flags
        current.offset in
    let rest = copy_from allocated (n + 1) dst' src in if done then rest else (clear dst', false)

-- A destination that is not empty is refused and kept.
unfoldable pub copy_list : (allocated : ℕ → Bool) → Vmas → Vmas → Vmas × Bool
copy_list allocated [] src = copy_from allocated 0 [] src
copy_list allocated (vma ∷ dst) src = (vma ∷ dst, false)

-- `vma_find_free_forward` from a candidate that fits, whose end is `end`.
unfoldable pub forward_walk : Vmas → (candidate end min max length : ℕ) → Option ℕ
forward_walk [] candidate end min max length = some candidate
forward_walk (current ∷ rest) candidate end min max length =
    let skip = forward_walk rest candidate end min max length in
    if ltb current.end candidate
    then skip
    else if ltb end current.start
    then some candidate
    else if current.end == addr_max
    then none
    else let candidate' = add_addr current.end 1 in
      elim (range_fits candidate' min max length) [
        | none ↦ none
        | some end' ↦ forward_walk rest candidate' end' min max length
      ]

-- The first candidate: the hint, or `min` without one, aligned up and raised to `min`.
unfoldable pub first_candidate : (hint min : ℕ) → Option ℕ
first_candidate hint min =
    let candidate = if hint == 0 then min else hint in
    let raise = λ (c : ℕ). if ltb c min then min else c in
    if page_aligned candidate
    then some (raise candidate)
    else if ltb (addr_max - (page_size - 1)) candidate
    then none
    else some (raise (align_up candidate))

unfoldable pub find_free_forward : Vmas → (hint min max length : ℕ) → Option ℕ
find_free_forward head hint min max length =
    if length == 0 || ltb max min
    then none
    else if not (page_aligned length)
    then none
    else elim (first_candidate hint min) [
      | none ↦ none
      | some candidate ↦ elim (range_fits candidate min max length) [
        | none ↦ none
        | some end ↦ forward_walk head candidate end min max length
      ]
    ]

-- `vma_find_free_backward` walks the `prev` links: `before` holds the areas from `current` down.
-- The guards make each candidate fit, so the source's `range_fits` at the head of its loop is
-- taken before the areas above the candidate are skipped, as there.
unfoldable pub backward_walk : Vmas → (candidate min max length : ℕ) → Option ℕ
backward_walk [] candidate min max length = elim (range_fits candidate min max length) [
  | none ↦ none
  | some end ↦ some candidate
]
backward_walk (current ∷ before) candidate min max length =
    let skip = backward_walk before candidate min max length in
    let candidate' = align_down (sub_addr current.start length) in
    let lower = backward_walk before candidate' min max length in
    elim (range_fits candidate min max length) [
      | none ↦ none
      | some end ↦
          if ltb end current.start
          then skip
          else if ltb current.end candidate
          then some candidate
          else if leb current.start min
          then none
          else if ltb (current.start - min) length
          then none
          else lower
    ]

-- The areas that start at `end` or before, the last of them first.
unfoldable pub up_to : Vmas → ℕ → Vmas → Vmas
up_to [] end before = before
up_to (current ∷ rest) end before =
    let further = up_to rest end (current ∷ before) in
    if leb current.start end then further else before

-- The first candidate: the highest page that leaves room below `max`, or the hint's page below it.
unfoldable pub last_candidate : (hint max length : ℕ) → ℕ
last_candidate hint max length =
    let highest = align_down (add_addr (sub_addr max length) 1) in
    let wanted = if hint == 0 then highest else align_down hint in
    if ltb highest wanted then highest else wanted

unfoldable pub find_free_backward : Vmas → (hint min max length : ℕ) → Option ℕ
find_free_backward head hint min max length =
    if length == 0 || ltb max min
    then none
    else if not (page_aligned length)
    then none
    else if ltb (max - min) (length - 1)
    then none
    else let candidate = last_candidate hint max length in
      elim (range_fits candidate min max length) [
        | none ↦ none
        | some end ↦ backward_walk (up_to head end []) candidate min max length
      ]

unfoldable pub fixed_walk : Vmas → (addr end : ℕ) → Bool
fixed_walk [] addr end = true
fixed_walk (current ∷ rest) addr end =
    let further = fixed_walk rest addr end in
    if ltb end current.start then true else if overlaps current addr end then false else further

unfoldable pub find_free_fixed : Vmas → (addr min max length : ℕ) → Option ℕ
find_free_fixed head addr min max length =
    if length == 0 || ltb max min
    then none
    else if not (page_aligned addr)
    then none
    else if not (page_aligned length)
    then none
    else elim (range_fits addr min max length) [
      | none ↦ none
      | some end ↦ if fixed_walk head addr end then some addr else none
    ]
