-- ===== src/ProcQueue/Sleep.antt =====
-- kernel/mp/sleep.c: the queue of sleeping processes, in the order of their times.
pub mod Wake
pub mod Doze
use hojicha.ProcQueue.{
  Proc, Heap, Queue, set_proc, empty, push_head, insert_after, find_last_prefix, splice_prefix_tail,
}
use hojicha.Common.{ℕ, zero, suc, Bool, true, false, Option, none, some, leb, ◌==◌, if◌then◌else◌}

abbrev pub ready_to_run : ℕ
ready_to_run = 2

abbrev pub sleeping_timer : ℕ
sleeping_timer = 4

abbrev pub sleep_until_less_than_equal : ℕ → Proc → Bool
sleep_until_less_than_equal timestamp process = leb process.sleep_until timestamp

-- Where a process goes to sleep, behind `last`.
abbrev pub place : Heap → Queue → ℕ → Option ℕ → Heap × Queue
place heap sleeping process none = push_head heap sleeping (some process)
place heap sleeping process (some last) = insert_after heap sleeping (some last) (some process)

abbrev pub settle : Heap → Queue → ℕ → Option (Option ℕ) → Option (Heap × Queue)
settle heap sleeping process none = none
settle heap sleeping process (some last) = some (place heap sleeping process last)

-- `sleep_proc_until` up to the switch to another process; `none` is out of fuel.
unfoldable pub sleep_proc_until : ℕ → Heap → Queue → ℕ → ℕ → Option (Heap × Queue)
sleep_proc_until fuel heap sleeping process timestamp =
    let heap' =
      set_proc heap process
        (record (heap process) { sleep_until = timestamp; status = sleeping_timer }) in
    if empty sleeping
    then some (push_head heap' sleeping (some process))
    else settle heap' sleeping process
        (find_last_prefix fuel heap' sleeping (sleep_until_less_than_equal timestamp))

-- The loop that marks the processes from `curr` to `last` as ready to run.
unfoldable pub mark_ready : ℕ → Heap → Option ℕ → ℕ → Option Heap
mark_ready fuel heap none last = some heap
mark_ready zero heap (some curr) last = none
mark_ready (suc fuel) heap (some curr) last =
    let heap' = set_proc heap curr (record (heap curr) { status = ready_to_run }) in
    let rest = mark_ready fuel heap' (heap' curr).next last in
    if curr == last then some heap' else rest

-- The processes up to `last` are marked and moved.
abbrev pub move : Heap → (ready sleeping : Queue) → ℕ → Option Heap → Option (Heap × Queue × Queue)
move heap ready sleeping last none = none
move heap ready sleeping last (some heap') =
    some (splice_prefix_tail heap' ready sleeping (some last))

abbrev pub wake_up_to :
    ℕ → Heap → (ready sleeping : Queue) → Option ℕ → Option (Heap × Queue × Queue)
wake_up_to fuel heap ready sleeping none = some (heap, ready, sleeping)
wake_up_to fuel heap ready sleeping (some last) =
    move heap ready sleeping last (mark_ready fuel heap sleeping.head last)

abbrev pub wake :
    ℕ → Heap → (ready sleeping : Queue) → Option (Option ℕ) → Option (Heap × Queue × Queue)
wake fuel heap ready sleeping none = none
wake fuel heap ready sleeping (some last) = wake_up_to fuel heap ready sleeping last

-- The queues: ready, then sleeping.
unfoldable pub wake_procs_before_timestamp :
    ℕ → Heap → (ready sleeping : Queue) → ℕ → Option (Heap × Queue × Queue)
wake_procs_before_timestamp fuel heap ready sleeping timestamp =
    wake fuel heap ready sleeping
      (find_last_prefix fuel heap sleeping (sleep_until_less_than_equal timestamp))
