-- ===== src/Sched/Waiting.antt =====
-- kernel/mp/wait_queue.c, kernel/mp/semaphore.c and kernel/mp/mutex.c. A wait queue is a queue of
-- processes linked like those of kernel/mp/proc_queue.c. A NULL queue does not arise: every caller
-- passes the address of a field.
use hojicha.ProcQueue.{Heap, Queue, set_next, set_next?, is_none}
use hojicha.Sched.{Kernel, blocked, sched_postpone, sched_resume, mp_block_proc, wake_proc}
use hojicha.Common.{
  ℕ, zero, suc, ◌+◌, ◌-◌, ◌^◌, ◌%◌, Bool, true, false, Option, none, some, not, ltb, if◌then◌else◌,
}

unfoldable pub wait_queue_init : Queue
wait_queue_init = record { head = none; tail = none }

unfoldable pub wait_queue_empty : Queue → Bool
wait_queue_empty q = is_none q.head

unfoldable pub enqueue_current : Heap → Option ℕ → Queue → Heap × Queue
enqueue_current heap none q = (heap, q)
enqueue_current heap (some current) q =
    let heap' = set_next heap current none in
    if is_none q.head
    then (heap', record { head = some current; tail = some current })
    else (set_next? heap' q.tail (some current), record q { tail = some current })

-- `semaphore_t`; the counters are bytes.
pub record Semaphore : Type 0 where
  pub limit : ℕ
  pub current_locks : ℕ
  pub waiters : Queue

unfoldable pub semaphore_create : (allocated : Bool) → ℕ → Option Semaphore
unfolding wait_queue_init
semaphore_create allocated limit =
    if allocated
    then some (record { limit = limit; current_locks = 0; waiters = wait_queue_init })
    else none

-- The queue without its head, and the head woken.
abbrev pub wake_head : Kernel → Queue → Option ℕ → Kernel × Queue
unfolding wake_proc
wake_head k q none = (k, q)
wake_head k q (some proc) =
    let next = (k.heap proc).next in
    (
      wake_proc (record k { heap = set_next k.heap proc none }) proc,
      record { head = next; tail = if is_none next then none else q.tail },
    )

-- The loop of `wait_queue_wake_all`; `none` is out of fuel.
unfoldable pub wake_all_loop : ℕ → Kernel → Option ℕ → Option Kernel
unfolding wake_proc
wake_all_loop fuel k none = some k
wake_all_loop zero k (some proc) = none
wake_all_loop (suc fuel) k (some proc) =
    wake_all_loop fuel (wake_proc (record k { heap = set_next k.heap proc none }) proc)
      (k.heap proc).next

module _ (now : Kernel → ℕ) (halt : Kernel → Kernel) where
  abbrev pub block_current_proc : Kernel → Option ℕ → ℕ → Kernel
  unfolding mp_block_proc
  block_current_proc k none reason = record k { faulted = true }
  block_current_proc k (some p) reason = mp_block_proc now halt k p reason

  -- The queue is what the sleeper leaves; the process that runs afterwards may be another.
  unfoldable pub wait_queue_sleep : Kernel → Queue → Kernel × Queue
  unfolding sched_postpone enqueue_current block_current_proc sched_resume
  wait_queue_sleep k q =
      let postponed = sched_postpone k in
      let (heap, q') = enqueue_current postponed.heap postponed.current q in
      if is_none k.current then (k, q) else (
        sched_resume now halt
            (block_current_proc (record postponed { heap = heap }) postponed.current blocked),
        q',
      )

  unfoldable pub wait_queue_sleep_postponed : Kernel → Queue → Kernel × Queue
  unfolding sched_postpone enqueue_current block_current_proc sched_resume
  wait_queue_sleep_postponed k q =
      let (heap, q') = enqueue_current k.heap k.current q in
      if is_none k.current then (k, q) else (
        sched_postpone (
            sched_resume now halt
              (block_current_proc (record k { heap = heap }) k.current blocked)),
        q',
      )

  unfoldable pub wait_queue_wake_one : Kernel → Queue → Kernel × Queue × Option ℕ
  unfolding sched_postpone wake_head sched_resume
  wait_queue_wake_one k q =
      let (k', q') = wake_head (sched_postpone k) q q.head in (sched_resume now halt k', q', q.head)

  abbrev pub resumed : Option Kernel → Option (Kernel × Queue)
  unfolding sched_resume
  resumed none = none
  resumed (some k) = some (sched_resume now halt k, record { head = none; tail = none })

  unfoldable pub wait_queue_wake_all : ℕ → Kernel → Queue → Option (Kernel × Queue)
  unfolding sched_postpone wake_all_loop resumed
  wait_queue_wake_all fuel k q = resumed (wake_all_loop fuel (sched_postpone k) q.head)

  unfoldable pub semaphore_lock : Kernel → Semaphore → Kernel × Semaphore
  unfolding sched_postpone wait_queue_sleep sched_resume
  semaphore_lock k s =
      let postponed = sched_postpone k in
      let (slept, waiters) = wait_queue_sleep postponed s.waiters in
      if ltb s.current_locks s.limit
      then (
        sched_resume now halt postponed,
        record s { current_locks = (s.current_locks + 1) % 2 ^ 8 },
      )
      else (sched_resume now halt slept, record s { waiters = waiters })

  unfoldable pub semaphore_try_lock : Kernel → Semaphore → Kernel × Semaphore × Bool
  unfolding sched_postpone semaphore_lock sched_resume
  semaphore_try_lock k s =
      let postponed = sched_postpone k in
      let (locked, s') = semaphore_lock postponed s in
      if ltb s.current_locks s.limit
      then (sched_resume now halt locked, s', true)
      else (sched_resume now halt postponed, s, false)

  unfoldable pub semaphore_unlock : Kernel → Semaphore → Kernel × Semaphore
  unfolding sched_postpone wait_queue_empty wait_queue_wake_one sched_resume
  semaphore_unlock k s =
      let postponed = sched_postpone k in
      let (woken, waiters, _) = wait_queue_wake_one postponed s.waiters in
      if not (wait_queue_empty s.waiters)
      then (sched_resume now halt woken, record s { waiters = waiters })
      else (
        sched_resume now halt postponed,
        record s { current_locks = (s.current_locks + 2 ^ 8 - 1) % 2 ^ 8 },
      )

-- `mutex_t` is its semaphore.
unfoldable pub mutex_create : (allocated semaphore_allocated : Bool) → Option Semaphore
unfolding semaphore_create
mutex_create allocated semaphore_allocated =
    if allocated then semaphore_create semaphore_allocated 1 else none

module _ (now : Kernel → ℕ) (halt : Kernel → Kernel) where
  unfoldable pub mutex_lock : Kernel → Semaphore → Kernel × Semaphore
  unfolding semaphore_lock
  mutex_lock k m = semaphore_lock now halt k m

  unfoldable pub mutex_try_lock : Kernel → Semaphore → Kernel × Semaphore × Bool
  unfolding semaphore_try_lock
  mutex_try_lock k m = semaphore_try_lock now halt k m

  unfoldable pub mutex_unlock : Kernel → Semaphore → Kernel × Semaphore
  unfolding semaphore_unlock
  mutex_unlock k m = semaphore_unlock now halt k m
