-- ===== src/Sched/Examples.antt =====
-- A semaphore of kernel/mp/semaphore.c with three processes.
use hojicha.ProcQueue.{Heap, push_tail, pop_head, empty}
use hojicha.Sched.{
  Kernel, running, blocked, sched_postpone, sched_resume, sched_lock, sched_unlock, mp_block_proc,
  schedule_advance, multitask_switch,
}
use hojicha.Sched.Waiting.{
  Semaphore, semaphore_create, semaphore_lock, semaphore_unlock, wait_queue_init, wait_queue_sleep,
  enqueue_current,
}
use hojicha.Sched.Handover.{Scene, Unlocks, semaphore_unlock_lem, unlock_times, unlocks-wake}
use hojicha.Sched.Blocking.{Locks, semaphore_lock_lem}
use hojicha.Sched.Counting.{Runs, created, locks, awake, asleep, Runs-bounded}
use hojicha.Common.{
  ℕ, List, ◌≡◌, ◌≤◌, ◌+◌, refl, none, some, [], ◌∷◌, ◌==◌, if◌then◌else◌, true, false, arith,
  length, ◌⊎◌,
}

-- Process 1 runs, 2 is ready, 3 and 4 wait.
abbrev processes : Heap
processes p =
    if p == 3
    then record { next = some 4; status = blocked; sleep_until = 0 }
    else record { next = none; status = if p == 1 then running else 2; sleep_until = 0 }

abbrev kernel : Kernel
kernel = record {
  heap = processes;
  elapsed = λ p. 0;
  switch_timestamp = λ p. 0;
  current = some 1;
  ready = record { head = some 2; tail = some 2 };
  sleeping = record { head = none; tail = none };
  irq_lock_count = 0;
  switch_lock_count = 0;
  switch_lock_flag = false;
  quantum_remaining = 50000;
  tick_interval_ns = 1000000;
  time_elapsed = 0;
  time_idle = 0;
  idle_switch_timestamp = 0;
  interrupts_on = true;
  faulted = false;
}

abbrev clock : Kernel → ℕ
clock k = k.time_elapsed + 1

abbrev halted : Kernel → Kernel
halted k = k

abbrev taken : Semaphore
taken = record { limit = 1; current_locks = 1; waiters = record { head = some 3; tail = some 4 } }

scene : Scene kernel taken.waiters (2 ∷ []) (3 ∷ 4 ∷ [])
scene = record {
  quiet = record { irq = refl; switch = refl; flag = refl };
  runs = ((refl, refl), refl, (tt, tt));
  waits = ((refl, (refl, refl)), refl, ((omega arith, tt), (tt, tt)));
  apart = ((omega arith, (omega arith, tt)), tt);
}

-- Process 1 goes to the end of the waiters and process 2 runs.
waits_last :
    ((semaphore_lock clock halted kernel taken).0.current ≡ some 2)
    × ((semaphore_lock clock halted kernel taken).1.waiters
        ≡ record { head = some 3; tail = some 1 })
unfolding semaphore_lock wait_queue_sleep sched_postpone sched_resume sched_lock sched_unlock
    enqueue_current mp_block_proc schedule_advance multitask_switch push_tail pop_head empty
waits_last = (refl, refl)

semaphore_lock_lem_example :
    Locks false kernel taken 1 2 (semaphore_lock clock halted kernel taken) [] (3 ∷ 4 ∷ [])
semaphore_lock_lem_example =
    semaphore_lock_lem clock halted kernel taken [] (3 ∷ 4 ∷ []) 1 2 scene refl (omega arith, tt)
      (omega arith, (omega arith, tt))

semaphore_unlock_lem_example :
    Unlocks taken (semaphore_unlock clock halted kernel taken) (2 ∷ []) (3 ∷ 4 ∷ [])
semaphore_unlock_lem_example =
    semaphore_unlock_lem clock halted kernel taken (2 ∷ []) (3 ∷ 4 ∷ []) scene

-- Process 4 is woken by the second unlock.
unlocks-wake_example :
    Scene
      (unlock_times clock halted 2 kernel taken).0
      (unlock_times clock halted 2 kernel taken).1.waiters
      (2 ∷ 3 ∷ 4 ∷ [])
      []
    × ((unlock_times clock halted 2 kernel taken).1.current_locks ≡ 1)
unlocks-wake_example = unlocks-wake clock halted kernel taken (2 ∷ []) (3 ∷ 4 ∷ []) [] scene

abbrev fresh : Semaphore
fresh = record { limit = 1; current_locks = 0; waiters = record { head = none; tail = none } }

-- Process 1 takes the lock and process 2 waits for it.
abbrev once_locked : Semaphore
once_locked = (semaphore_lock clock halted kernel fresh).1

abbrev second_kernel : Kernel
second_kernel = record kernel {
  heap = λ p. record { next = none; status = if p == 2 then running else 2; sleep_until = 0 };
  current = some 2;
  ready = record { head = some 1; tail = some 1 };
}

abbrev contended : Semaphore
contended = (semaphore_lock clock halted second_kernel once_locked).1

abbrev one_holder : List ℕ
one_holder = 1 ∷ []

abbrev one_waiter : List ℕ
one_waiter = 2 ∷ []

contended-Runs : Runs clock halted 1 contended one_holder one_waiter
unfolding semaphore_create wait_queue_init semaphore_lock wait_queue_sleep sched_postpone
    sched_resume sched_lock sched_unlock enqueue_current mp_block_proc schedule_advance
    multitask_switch push_tail pop_head empty awake asleep
contended-Runs =
    locks once_locked (1 ∷ []) []
      (locks fresh [] [] (created fresh refl) kernel 1 2 []
        (record {
          quiet = record { irq = refl; switch = refl; flag = refl };
          runs = ((refl, refl), refl, (tt, tt));
          waits = (refl, refl, tt);
          apart = (tt, tt);
        })
        refl refl (omega arith, tt) tt)
      second_kernel 2 1 []
      (record {
        quiet = record { irq = refl; switch = refl; flag = refl };
        runs = ((refl, refl), refl, (tt, tt));
        waits = (refl, refl, tt);
        apart = (tt, tt);
      })
      refl refl (omega arith, tt) tt

Runs-bounded_example :
    (contended.limit ≡ 1)
    × (contended.current_locks ≡ length one_holder)
    × (length one_holder ≤ 1)
    × ((one_waiter ≡ []) ⊎ (length one_holder ≡ 1))
Runs-bounded_example =
    Runs-bounded clock halted 1 contended one_holder one_waiter (omega arith) contended-Runs
