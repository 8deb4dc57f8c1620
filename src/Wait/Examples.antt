-- ===== src/Wait/Examples.antt =====
-- A process of kernel/mp/wait.c with two children.
use hojicha.ProcQueue.{remove}
use hojicha.Sched.{Kernel, sched_postpone, sched_resume, schedule_advance, sched_unlock}
use hojicha.Wait.{
  System, Slots, Waited, max_children, ready_to_die, wait_child_find, find_loop,
  process_wait_collect, proc_free, orphan, forget_child, fails, echild, einval,
}
use hojicha.Wait.Waitpid.{waitpid_proc}
use hojicha.Wait.Find.{Finds, wait_child_find-Finds}
use hojicha.Common.{
  ℕ, ◌≡◌, refl, true, false, Option, none, some, ◌==◌, if◌then◌else◌, ℤ, pos, negsuc,
}

-- Process 10 has the child 20 in slot 1, which lives, and the child 30 in slot 3, which is dead.
abbrev slots : Slots
slots slot = if slot == 1 then some 20 else if slot == 3 then some 30 else none

abbrev kernel : Kernel
kernel = record {
  heap = λ p. record { next = none; status = if p == 30 then ready_to_die else 2; sleep_until = 0 };
  elapsed = λ p. 0;
  switch_timestamp = λ p. 0;
  current = some 10;
  ready = record { head = none; tail = none };
  sleeping = record { head = none; tail = none };
  irq_lock_count = 0;
  switch_lock_count = 0;
  switch_lock_flag = false;
  quantum_remaining = 0;
  tick_interval_ns = 1000000;
  time_elapsed = 0;
  time_idle = 0;
  idle_switch_timestamp = 0;
  interrupts_on = true;
  faulted = false;
}

abbrev family : System
family = record {
  kernel = kernel;
  pid = λ p. if p == 20 then 2 else 3;
  exit_code = λ p. 7;
  parent = λ p. some 10;
  children = λ p. if p == 10 then some slots else none;
  child_waiters = λ p. record { head = none; tail = none };
  exit_waiters = λ p. record { head = none; tail = none };
  dying = record { head = some 30; tail = some 30 };
}

abbrev clock : Kernel → ℕ
clock k = 0

abbrev waited : Option ℕ → ℤ → ℕ → Option Waited
unfolding waitpid_proc
waited process pid options =
    elim (waitpid_proc clock (λ k. k) (λ s. s) 5 family process pid true options) [
      | none ↦ none
      | some (sys, w) ↦ some w
    ]

-- Any child: 30 is dead and is collected. Child 2 lives. There is no child 9, and no option 2.
waits :
    (waited (some 10) (negsuc 0) 0 ≡ some (record { ret = pos 3; wstatus = some 1792 }))
    × (waited (some 10) (pos 2) 1 ≡ some (fails (pos 0)))
    × (waited (some 10) (pos 9) 0 ≡ some (fails echild))
    × (waited (some 10) (pos 2) 2 ≡ some (fails einval))
unfolding waited waitpid_proc wait_child_find find_loop process_wait_collect proc_free orphan
    forget_child sched_postpone sched_resume schedule_advance sched_unlock remove
waits = (refl, refl, refl, refl)

wait_child_find-Finds_example :
    Finds family (negsuc 0) slots 1 max_children (wait_child_find family 10 (negsuc 0))
wait_child_find-Finds_example = wait_child_find-Finds family 10 (negsuc 0) slots refl
