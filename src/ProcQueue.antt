-- ===== src/ProcQueue.antt =====
-- kernel/mp/proc_queue.c: singly linked queues of processes, on a heap of processes.
pub mod Chain
pub mod Ends
pub mod Splice
pub mod Search
pub mod Insert
pub mod Walks
pub mod Remove
pub mod Sleep
mod Examples
use hojicha.Common.{
  ℕ, zero, suc, Bool, true, false, Option, none, some, ◌&&◌, ltb, leb, ◌==◌, if◌then◌else◌, List,
  [], ◌∷◌,
}

-- The fields of `proc_t` that the queues use. A pointer is a number, NULL is `none`.
pub record Proc : Type 0 where
  pub next : Option ℕ
  pub status : ℕ
  pub sleep_until : ℕ

abbrev pub Heap : Type 0
Heap = ℕ → Proc

-- `proc_queue_t`.
pub record Queue : Type 0 where
  pub head : Option ℕ
  pub tail : Option ℕ

abbrev pub set_proc : Heap → ℕ → Proc → Heap
set_proc heap p v = λ q. if q == p then v else heap q

abbrev pub set_next : Heap → ℕ → Option ℕ → Heap
set_next heap p n = set_proc heap p (record (heap p) { next = n })

-- A write through a tail that is NULL writes to no process.
abbrev pub set_next? : Heap → Option ℕ → Option ℕ → Heap
set_next? heap none n = heap
set_next? heap (some p) n = set_next heap p n

abbrev pub is_none : Option ℕ → Bool
is_none none = true
is_none (some p) = false

abbrev pub same : Option ℕ → Option ℕ → Bool
same none none = true
same none (some q) = false
same (some p) none = false
same (some p) (some q) = p == q

unfoldable pub init : Queue
init = record { head = none; tail = none }

unfoldable pub empty : Queue → Bool
empty queue = is_none queue.head

unfoldable pub push_head : Heap → Queue → Option ℕ → Heap × Queue
push_head heap queue none = (heap, queue)
push_head heap queue (some proc) = (
  set_next heap proc queue.head,
  record { head = some proc; tail = if is_none queue.tail then some proc else queue.tail },
)

unfoldable pub push_tail : Heap → Queue → Option ℕ → Heap × Queue
push_tail heap queue none = (heap, queue)
push_tail heap queue (some proc) =
    let heap' = set_next heap proc none in
    if is_none queue.head
    then (heap', record { head = some proc; tail = some proc })
    else (set_next? heap' queue.tail (some proc), record queue { tail = some proc })

-- The queue without its head, when the head is `proc`.
abbrev pub pop : Heap → Queue → Option ℕ → Heap × Queue × Option ℕ
pop heap queue none = (heap, queue, none)
pop heap queue (some proc) = (
  set_next heap proc none,
  record { head = (heap proc).next; tail = if is_none (heap proc).next then none else queue.tail },
  some proc,
)

unfoldable pub pop_head : Heap → Queue → Heap × Queue × Option ℕ
pop_head heap queue = pop heap queue queue.head

unfoldable pub insert_after : Heap → Queue → (after proc : Option ℕ) → Heap × Queue
insert_after heap queue none proc = (heap, queue)
insert_after heap queue (some after) none = (heap, queue)
insert_after heap queue (some after) (some proc) = (
  set_next (set_next heap proc (heap after).next) after (some proc),
  record queue { tail = if same queue.tail (some after) then some proc else queue.tail },
)

-- `prev` with its successor `proc` taken out.
abbrev pub take_out : Heap → Queue → ℕ → Option ℕ → Heap × Queue × Option ℕ
take_out heap queue prev none = (heap, queue, none)
take_out heap queue prev (some proc) = (
  set_next (set_next heap prev (heap proc).next) proc none,
  record queue { tail = if same queue.tail (some proc) then some prev else queue.tail },
  some proc,
)

unfoldable pub remove_after : Heap → Queue → Option ℕ → Heap × Queue × Option ℕ
unfolding pop_head
remove_after heap queue none = pop_head heap queue
remove_after heap queue (some prev) = take_out heap queue prev (heap prev).next

-- What `proc_queue_remove` does on reaching `curr`, whose predecessor is `prev`.
abbrev pub unlink : Heap → Queue → Option ℕ → ℕ → Heap × Queue
unlink heap queue prev curr = (
  set_next (set_next? heap prev (heap curr).next) curr none,
  record {
    head = if is_none prev then (heap curr).next else queue.head;
    tail = if same queue.tail (some curr) then prev else queue.tail;
  },
)

-- The `while` loop of `proc_queue_remove`; `none` is out of fuel.
unfoldable pub remove_walk :
    ℕ → Heap → Queue → ℕ → (prev curr : Option ℕ) → Option (Heap × Queue × Bool)
remove_walk fuel heap queue proc prev none = some (heap, queue, false)
remove_walk zero heap queue proc prev (some curr) = none
remove_walk (suc fuel) heap queue proc prev (some curr) =
    let rest = remove_walk fuel heap queue proc (some curr) (heap curr).next in
    if curr == proc
    then (let (heap', queue') = unlink heap queue prev curr in some (heap', queue', true))
    else rest

unfoldable pub remove : ℕ → Heap → Queue → Option ℕ → Option (Heap × Queue × Bool)
unfolding remove_walk
remove fuel heap queue none = some (heap, queue, false)
remove fuel heap queue (some proc) = remove_walk fuel heap queue proc none queue.head

-- The loop of `proc_queue_find_last_prefix`: the last process before the first that fails `pred`.
unfoldable pub last_prefix_walk :
    ℕ → Heap → (Proc → Bool) → (last proc : Option ℕ) → Option (Option ℕ)
last_prefix_walk fuel heap pred last none = some last
last_prefix_walk zero heap pred last (some proc) = none
last_prefix_walk (suc fuel) heap pred last (some proc) =
    let rest = last_prefix_walk fuel heap pred (some proc) (heap proc).next in
    if pred (heap proc) then rest else some last

unfoldable pub find_last_prefix : ℕ → Heap → Queue → (Proc → Bool) → Option (Option ℕ)
unfolding last_prefix_walk
find_last_prefix fuel heap queue pred = last_prefix_walk fuel heap pred none queue.head

-- `last` and everything before it go from `src` to the end of `dst`.
abbrev pub splice : Heap → (dst src : Queue) → (first last : ℕ) → Heap × Queue × Queue
splice heap dst src first last =
    let next = (heap last).next in
    let heap' = set_next heap last none in
    let src' : Queue = record {
      head = next;
      tail = if same src.tail (some last) then none else src.tail;
    } in
    if is_none dst.head
    then (heap', record { head = some first; tail = some last }, src')
    else (set_next? heap' dst.tail (some first), record dst { tail = some last }, src')

unfoldable pub splice_prefix_tail : Heap → (dst src : Queue) → Option ℕ → Heap × Queue × Queue
splice_prefix_tail heap dst src none = (heap, dst, src)
splice_prefix_tail heap dst src (some last) = elim src.head [
  | none ↦ (heap, dst, src)
  | some first ↦ splice heap dst src first last
]
