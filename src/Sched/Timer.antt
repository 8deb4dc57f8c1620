-- ===== src/Sched/Timer.antt =====
-- The timer tick of kernel/mp/scheduler.c.
use hojicha.Sched.{Kernel, sched_postpone, sched_resume, sched_yield}
use hojicha.ProcQueue.{Heap, Queue}
use hojicha.ProcQueue.Sleep.{wake_procs_before_timestamp}
use hojicha.Common.{ℕ, ◌-◌, Option, none, some, leb, ◌==◌, if◌then◌else◌}

module _ (now : Kernel → ℕ) (halt : Kernel → Kernel) where
  -- The part of a tick after the sleepers are woken.
  abbrev pub tick : Kernel → Kernel
  unfolding sched_yield
  tick k =
      if k.quantum_remaining == 0
      then k
      else if leb k.quantum_remaining k.tick_interval_ns
      then sched_yield now halt k
      else record k { quantum_remaining = k.quantum_remaining - k.tick_interval_ns }

  abbrev pub woken : Kernel → Option (Heap × Queue × Queue) → Option Kernel
  woken k none = none
  woken k (some (heap, ready, sleeping)) =
      some (record k { heap = heap; ready = ready; sleeping = sleeping })

  abbrev pub finish_tick : Option Kernel → Option Kernel
  unfolding tick sched_resume
  finish_tick none = none
  finish_tick (some k) = some (sched_resume now halt (tick k))

  -- On fuel for the walk along the sleepers; `none` is a lack of it.
  unfoldable pub handle_timer : ℕ → Kernel → ℕ → Option Kernel
  unfolding sched_postpone wake_procs_before_timestamp finish_tick
  handle_timer fuel k timestamp =
      let postponed = sched_postpone k in
      finish_tick (
        woken postponed (
          wake_procs_before_timestamp fuel postponed.heap postponed.ready postponed.sleeping
            timestamp))
