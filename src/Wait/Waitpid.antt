-- ===== src/Wait/Waitpid.antt =====
-- `waitpid_proc` of kernel/mp/wait.c.
use hojicha.Wait.{
  System, Waited, at, is_dead, fails, echild, einval, wait_child_find, process_wait_collect,
}
use hojicha.Sched.{Kernel, sched_postpone, sched_resume}
use hojicha.Sched.Waiting.{wait_queue_sleep_postponed}
use hojicha.Common.{
  ℕ, zero, suc, ◌/◌, ◌%◌, Bool, true, false, Option, none, some, ◌||◌, not, ◌==◌, if◌then◌else◌, ℤ,
  pos, negsuc,
}

abbrev pub invalid : ℤ → ℕ → Bool
invalid (pos n) options = not (options / 2 == 0) || n == 0
invalid (negsuc zero) options = not (options / 2 == 0)
invalid (negsuc (suc n)) options = true

abbrev pub is_any : ℤ → Bool
is_any (negsuc zero) = true
is_any pid = false

abbrev pub no_hang : ℕ → Bool
no_hang options = not (options % 2 == 0)

-- `meanwhile` is what other processes do while the caller sleeps.
module _ (now : Kernel → ℕ) (halt : Kernel → Kernel) (meanwhile : System → System) (fuel : ℕ) where
  abbrev pub postpone : System → System
  unfolding sched_postpone
  postpone sys = record sys { kernel = sched_postpone sys.kernel }

  -- `sched_resume` and the result.
  abbrev pub resume : Option (System × Waited) → Option (System × Waited)
  unfolding sched_resume
  resume none = none
  resume (some (sys, waited)) =
      some (record sys { kernel = sched_resume now halt sys.kernel }, waited)

  -- After the sleep: the child that was found, if it is dead now.
  abbrev pub collect : System → ℕ → Bool → Option (ℕ × ℕ) → Option (System × Waited)
  unfolding process_wait_collect resume
  collect sys process stores none = resume (some (sys, fails echild))
  collect sys process stores (some (child, slot)) =
      if is_dead sys child
      then resume (process_wait_collect fuel sys process child slot stores)
      else resume (some (sys, fails echild))

  abbrev pub sleep_on_children : System → ℕ → System
  unfolding wait_queue_sleep_postponed
  sleep_on_children sys process =
      let (kernel, q) =
        wait_queue_sleep_postponed now halt sys.kernel (sys.child_waiters process) in
      meanwhile (record sys { kernel = kernel; child_waiters = at sys.child_waiters process q })

  abbrev pub sleep_on_child : System → ℕ → System
  unfolding wait_queue_sleep_postponed
  sleep_on_child sys child =
      let (kernel, q) = wait_queue_sleep_postponed now halt sys.kernel (sys.exit_waiters child) in
      meanwhile (record sys { kernel = kernel; exit_waiters = at sys.exit_waiters child q })

  abbrev pub wait_for : System → ℕ → ℤ → Bool → ℕ → Option (ℕ × ℕ) → Option (System × Waited)
  unfolding wait_child_find collect sleep_on_children sleep_on_child
  wait_for sys process pid stores options none = resume (some (sys, fails echild))
  wait_for sys process pid stores options (some (child, slot)) =
      let for_any = sleep_on_children sys process in
      let for_one = sleep_on_child sys child in
      if is_dead sys child
      then resume (process_wait_collect fuel sys process child slot stores)
      else if no_hang options
      then resume (some (sys, fails (pos 0)))
      else if is_any pid
      then collect for_any process stores (wait_child_find for_any process pid)
      else collect for_one process stores (some (child, slot))

  -- `stores` is `wstatus != NULL`; `none` as the process is NULL.
  unfoldable pub waitpid_proc : System → Option ℕ → ℤ → Bool → ℕ → Option (System × Waited)
  unfolding wait_child_find wait_for
  waitpid_proc sys none pid stores options = some (sys, fails echild)
  waitpid_proc sys (some process) pid stores options = elim (sys.children process) [
    | none ↦ some (sys, fails echild)
    | some slots ↦
        if invalid pid options
        then some (sys, fails einval)
        else wait_for (postpone sys) process pid stores options
            (wait_child_find (postpone sys) process pid)
  ]
