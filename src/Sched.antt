-- ===== src/Sched.antt =====
-- kernel/mp/scheduler.c with the helpers of kernel/mp/mp_utils.c and kernel/mp/sleep.c: who runs, who
-- is ready, and the counters that postpone a switch.
pub mod Waiting
pub mod Timer
pub mod Views
pub mod Handover
pub mod Switch
pub mod Counting
pub mod Blocking
mod Examples
use hojicha.ProcQueue.{
  Proc, Heap, Queue, set_proc, empty, push_tail, pop_head, remove, find_last_prefix,
  splice_prefix_tail,
}
use hojicha.ProcQueue.Sleep.{ready_to_run, sleeping_timer, wake_procs_before_timestamp}
use hojicha.Common.{
  ℕ, zero, suc, ◌+◌, ◌-◌, ◌^◌, ◌%◌, Bool, true, false, Option, none, some, ◌&&◌, ◌||◌, not, ltb,
  leb, ◌==◌, if◌then◌else◌,
}

abbrev pub running : ℕ
running = 1

abbrev pub blocked : ℕ
blocked = 8

abbrev pub uninitialized : ℕ
uninitialized = 255

abbrev pub quantum_length : ℕ
quantum_length = 50000

-- `g_kernel.current_process`, `sched_state_t` and the heap of processes. `interrupts_on` is what
-- `sti` and `cli` set. `elapsed` and `switch_timestamp` are the fields of the processes with these
-- names. `faulted` is set where the code reads through a NULL pointer.
pub record Kernel : Type 0 where
  pub heap : Heap
  pub elapsed : ℕ → ℕ
  pub switch_timestamp : ℕ → ℕ
  pub current : Option ℕ
  pub ready : Queue
  pub sleeping : Queue
  pub irq_lock_count : ℕ
  pub switch_lock_count : ℕ
  pub switch_lock_flag : Bool
  pub quantum_remaining : ℕ
  pub tick_interval_ns : ℕ
  pub time_elapsed : ℕ
  pub time_idle : ℕ
  pub idle_switch_timestamp : ℕ
  pub interrupts_on : Bool
  pub faulted : Bool

abbrev pub plus : ℕ → ℕ → ℕ
plus a b = (a + b) % 2 ^ 64

abbrev pub minus : ℕ → ℕ → ℕ
minus a b = (a + 2 ^ 64 - b) % 2 ^ 64

abbrev pub put : (ℕ → ℕ) → ℕ → ℕ → ℕ → ℕ
put f p v = λ q. if q == p then v else f q

abbrev pub set_status : Heap → ℕ → ℕ → Heap
set_status heap p s = set_proc heap p (record (heap p) { status = s })

unfoldable pub sched_lock : Kernel → Kernel
sched_lock k = record k { interrupts_on = false; irq_lock_count = plus k.irq_lock_count 1 }

unfoldable pub sched_unlock : Kernel → Kernel
sched_unlock k =
    let count = if ltb 0 k.irq_lock_count then k.irq_lock_count - 1 else k.irq_lock_count in
    record k {
      irq_lock_count = count;
      interrupts_on = if count == 0 then true else k.interrupts_on;
    }

unfoldable pub sched_postpone : Kernel → Kernel
sched_postpone k = record k {
  interrupts_on = false;
  irq_lock_count = plus k.irq_lock_count 1;
  switch_lock_count = plus k.switch_lock_count 1;
}

-- `multitask_switch` with `switch_to`, without the registers and the floating-point unit. What runs
-- after it is the code of the process that is switched to, which stands at the same place.
unfoldable pub multitask_switch : Kernel → ℕ → Kernel
multitask_switch k process = record k {
  current = some process;
  heap =
      if (k.heap process).status == uninitialized
      then k.heap
      else set_status k.heap process running;
  interrupts_on = true;
}

-- The time of the process that stops, or the idle time.
abbrev pub account : Kernel → Option ℕ → Kernel
account k none = record k {
  time_idle = plus k.time_idle (minus k.time_elapsed k.idle_switch_timestamp);
}
account k (some p) = record k {
  elapsed = put k.elapsed p (plus (k.elapsed p) (minus k.time_elapsed (k.switch_timestamp p)));
}

-- A process that is still running goes to the end of the ready queue.
abbrev pub preempt : Kernel → Option ℕ → Kernel
preempt k none = k
preempt k (some p) =
    if (k.heap p).status == running
    then (let (heap, ready) = push_tail (set_status k.heap p ready_to_run) k.ready (some p) in
        record k { heap = heap; ready = ready })
    else k

-- `proc_queue_pop_head` of the ready queue and the switch to what it gives.
abbrev pub switch_to_head : Kernel → Heap × Queue × Option ℕ → Kernel
unfolding multitask_switch
switch_to_head k (heap, ready, none) = record k { heap = heap; ready = ready; faulted = true }
switch_to_head k (heap, ready, some next) =
    multitask_switch (record k { heap = heap; ready = ready }) next

abbrev pub switch_to_next : Kernel → Heap × Queue × Option ℕ → Kernel
unfolding multitask_switch
switch_to_next k (heap, ready, none) = record k { heap = heap; ready = ready; faulted = true }
switch_to_next k (heap, ready, some next) =
    multitask_switch
      (record k {
        heap = heap;
        ready = ready;
        switch_timestamp = put k.switch_timestamp next k.time_elapsed;
      })
      next

unfoldable pub wake_proc : Kernel → ℕ → Kernel
unfolding sched_lock push_tail sched_unlock
wake_proc k process =
    let locked = sched_lock k in
    let (heap, ready) =
      push_tail (set_status locked.heap process ready_to_run) locked.ready (some process) in
    sched_unlock (record locked { heap = heap; ready = ready })

-- Interrupts are the parameter `halt`, which runs them until one makes a process ready; the clock is
-- `now`.
module _ (now : Kernel → ℕ) (halt : Kernel → Kernel) where
  -- No process is ready.
  abbrev pub idle : Kernel → Option ℕ → Kernel
  unfolding pop_head
  idle k none = record k { faulted = true }
  idle k (some p) =
      if (k.heap p).status == running
      then k
      else (let waited =
            halt (record k { current = none; idle_switch_timestamp = k.time_elapsed }) in
          let k' : Kernel = record waited {
            quantum_remaining = 0;
            interrupts_on = false;
            current = some p;
            switch_timestamp = put waited.switch_timestamp p waited.time_elapsed;
          } in
          switch_to_head k' (pop_head k'.heap k'.ready))

  unfoldable pub schedule_advance : Kernel → Kernel
  unfolding empty push_tail pop_head idle switch_to_next
  schedule_advance k =
      if ltb 0 k.switch_lock_count
      then record k { switch_lock_flag = true }
      else (let timed = account (record k { time_elapsed = now k }) k.current in
          if not (empty timed.ready)
          then (let k' : Kernel = record (preempt timed timed.current) {
            quantum_remaining = quantum_length;
          } in
              switch_to_next k' (pop_head k'.heap k'.ready))
          else idle timed timed.current)

  unfoldable pub sched_yield : Kernel → Kernel
  unfolding sched_lock schedule_advance sched_unlock
  sched_yield k = sched_unlock (schedule_advance (sched_lock k))

  unfoldable pub sched_resume : Kernel → Kernel
  unfolding schedule_advance sched_unlock
  sched_resume k =
      let count =
        if ltb 0 k.switch_lock_count then k.switch_lock_count - 1 else k.switch_lock_count in
      let k' : Kernel = record k { switch_lock_count = count } in
      sched_unlock (
        if count == 0 && k'.switch_lock_flag
        then schedule_advance (record k' { switch_lock_flag = false })
        else k')

  unfoldable pub sched_add_proc : Kernel → ℕ → Kernel
  unfolding sched_postpone push_tail sched_resume
  sched_add_proc k process =
      let postponed = sched_postpone k in
      let (heap, ready) = push_tail postponed.heap postponed.ready (some process) in
      sched_resume (record postponed { heap = heap; ready = ready })

  unfoldable pub mp_block_proc : Kernel → ℕ → ℕ → Kernel
  unfolding sched_lock schedule_advance sched_unlock
  mp_block_proc k p reason =
      let locked = sched_lock k in
      sched_unlock (schedule_advance (record locked { heap = set_status locked.heap p reason }))
