-- ===== src/ProcQueue/Examples.antt =====
-- kernel/mp/proc_queue.c and kernel/mp/sleep.c on a few processes.
use hojicha.ProcQueue.{Heap, Queue, remove}
use hojicha.ProcQueue.Chain.{NotIn, Holds}
use hojicha.ProcQueue.Remove.{Removes, remove_lem}
use hojicha.ProcQueue.Search.{prefix, suffix}
use hojicha.ProcQueue.Sleep.{
  sleep_until_less_than_equal, sleep_proc_until, wake_procs_before_timestamp,
}
use hojicha.ProcQueue.Sleep.Doze.{Sleeps, sleep_proc_until_lem}
use hojicha.ProcQueue.Sleep.Wake.{Wakes, wake_procs_before_timestamp_lem}
use hojicha.Common.{ℕ, ◌*◌, ◌≡◌, refl, none, some, List, [], ◌∷◌, ◌++◌, ◌==◌, if◌then◌else◌, arith}

-- Processes 1, 2 and 3 sleep, until 10, 20 and 30; process 7 is ready.
abbrev heap : Heap
heap q = record {
  next = if q == 1 then some 2 else if q == 2 then some 3 else none;
  status = 4;
  sleep_until = q * 10;
}

abbrev sleeping : Queue
sleeping = record { head = some 1; tail = some 3 }

abbrev ready : Queue
ready = record { head = some 7; tail = some 7 }

abbrev sleepers : List ℕ
sleepers = 1 ∷ 2 ∷ 3 ∷ []

apart_7 : NotIn 7 sleepers
apart_7 = (omega arith, (omega arith, (omega arith, tt)))

sleeping-Holds : Holds heap sleeping sleepers
sleeping-Holds = (
  (refl, (refl, (refl, refl))),
  refl,
  ((omega arith, (omega arith, tt)), ((omega arith, tt), (tt, tt))),
)

ready-Holds : Holds heap ready (7 ∷ [])
ready-Holds = ((refl, refl), refl, (tt, tt))

remove_lem_example : Removes (remove 3 heap sleeping (some 2)) (1 ∷ 3 ∷ [])
remove_lem_example = remove_lem 3 heap sleeping (1 ∷ []) (3 ∷ []) 2 sleeping-Holds (omega arith)

wake_procs_before_timestamp_lem_example :
    Wakes
      (wake_procs_before_timestamp 3 heap ready sleeping 25)
      (7 ∷ [])
      (prefix heap (sleep_until_less_than_equal 25) sleepers)
      (suffix heap (sleep_until_less_than_equal 25) sleepers)
wake_procs_before_timestamp_lem_example =
    wake_procs_before_timestamp_lem 3 heap ready sleeping (7 ∷ []) sleepers 25 ready-Holds
      sleeping-Holds (apart_7, tt) (omega arith)

-- Two of the three are due.
woken :
    (prefix heap (sleep_until_less_than_equal 25) sleepers ≡ 1 ∷ 2 ∷ [])
    × (suffix heap (sleep_until_less_than_equal 25) sleepers ≡ 3 ∷ [])
woken = (refl, refl)

sleep_proc_until_lem_example : Sleeps (sleep_proc_until 3 heap sleeping 7 20) (
    prefix heap (sleep_until_less_than_equal 20) sleepers
    ++ 7 ∷ suffix heap (sleep_until_less_than_equal 20) sleepers)
sleep_proc_until_lem_example =
    sleep_proc_until_lem 3 heap sleeping sleepers 7 20 sleeping-Holds apart_7 (omega arith)
