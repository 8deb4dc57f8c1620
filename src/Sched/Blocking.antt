-- ===== src/Sched/Blocking.antt =====
-- `semaphore_lock` and `semaphore_try_lock` of kernel/mp/semaphore.c: a lock is taken, or the caller
-- waits and another process runs.
use mathlib.Core.Path.{subst}
use hojicha.ProcQueue.{push_tail, pop_head}
use hojicha.ProcQueue.Chain.{NotIn, Holds, Apart_sym, NotIn-append}
use hojicha.ProcQueue.Ends.{push_tail_lem, pop_head_lem}
use hojicha.Sched.{Kernel, set_status, blocked, sched_unlock, sched_postpone, sched_resume}
use hojicha.Sched.Waiting.{Semaphore, semaphore_lock}
use hojicha.Sched.Views.{
  Holds-set_status, Holds-set_proc, Holds-push_tail, Apart-snoc, set_status-status, set_next-status,
}
use hojicha.Sched.Handover.{IsQuiet, Scene, popped_heap}
use hojicha.Common.{
  ℕ, ◌≡◌, ◌≢◌, ◌+◌, ◌^◌, ◌%◌, refl, none, some, List, [], ◌∷◌, ◌++◌, ltb, sym, ap, ◌∙◌, Bool, true,
  false,
}
use hojicha.Sched.Switch.{
  quiet_eta, by_test, chosen, lock_switches, switched, switched-current, switched-status,
}

-- The caller `p` has joined the waiters and `y` runs.
pub record Blocks (p y : ℕ) (s : Semaphore) (result : Kernel × Semaphore) (ready waiting : List ℕ)
    : Type 0 where
  pub scene : Scene result.0 result.1.waiters ready waiting
  pub current : result.0.current ≡ some y
  pub status : (result.0.heap p).status ≡ blocked
  pub locks : result.1.current_locks ≡ s.current_locks

-- The lock is taken; the processes and the queues are as before.
pub record Takes (k : Kernel) (s : Semaphore) (result : Kernel × Semaphore) (ready waiting : List ℕ)
    : Type 0 where
  pub scene : Scene result.0 result.1.waiters ready waiting
  pub current : result.0.current ≡ k.current
  pub heap : result.0.heap ≡ k.heap
  pub locks : result.1.current_locks ≡ (s.current_locks + 1) % 2 ^ 8

-- By whether a lock is left.
abbrev pub Locks :
    Bool → Kernel → Semaphore → (p y : ℕ) → Kernel × Semaphore → (ready waiting : List ℕ) → Type 0
Locks true k s p y result ready waiting = Takes k s result (y ∷ ready) waiting
Locks false k s p y result ready waiting = Blocks p y s result ready (waiting ++ p ∷ [])

module _ (now : Kernel → ℕ) (halt : Kernel → Kernel) where
  postpone_resume :
      (k : Kernel)
      → sched_resume now halt (
          sched_postpone
            (record k { irq_lock_count = 0; switch_lock_count = 0; switch_lock_flag = false }))
        ≡ record k {
          irq_lock_count = 0;
          switch_lock_count = 0;
          switch_lock_flag = false;
          interrupts_on = true;
        }
  unfolding sched_resume sched_postpone sched_unlock
  postpone_resume k = refl

  lock_taken :
      (k : Kernel) (s : Semaphore)
      → IsQuiet k
      → ltb s.current_locks s.limit ≡ true
      → semaphore_lock now halt k s ≡ (
        record k {
          irq_lock_count = 0;
          switch_lock_count = 0;
          switch_lock_flag = false;
          interrupts_on = true;
        },
        record s { current_locks = (s.current_locks + 1) % 2 ^ 8 },
      )
  unfolding semaphore_lock
  lock_taken k s quiet left =
      ap (by_test now halt k s) left
      ∙ ap (λ k'. (k', record s { current_locks = (s.current_locks + 1) % 2 ^ 8 }))
          (ap (λ k'. sched_resume now halt (sched_postpone k'))
              (quiet_eta now halt k k.current quiet refl)
            ∙ postpone_resume k)

  -- The queues before the switch: the caller waits, and the first that is ready is out.
  lock_queues :
      (k : Kernel) (s : Semaphore) (ready waiting : List ℕ) (p y : ℕ)
      → Scene k s.waiters (y ∷ ready) waiting
      → NotIn p (y ∷ ready)
      → NotIn p waiting
      → Holds (chosen now halt k s.waiters p y).heap (chosen now halt k s.waiters p y).ready ready
        × Holds
            (chosen now halt k s.waiters p y).heap
            (push_tail k.heap s.waiters (some p)).1
            (waiting ++ p ∷ [])
        × (((chosen now halt k s.waiters p y).heap p).status ≡ blocked)
  lock_queues k s ready waiting p y scene out out' =
      let (heap, waiters) = push_tail k.heap s.waiters (some p) in
      let marked = set_status heap p blocked in
      let ne : p ≢ y = λ e. out.0 (sym e) in
      let joined =
        Holds-set_status heap p blocked waiters (waiting ++ p ∷ [])
          (push_tail_lem k.heap s.waiters waiting p scene.waits out') in
      let ran = Holds-set_status heap p blocked k.ready (y ∷ ready) (
        Holds-push_tail k.heap s.waiters k.ready waiting (y ∷ ready) p scene.waits scene.runs out
          (Apart_sym (y ∷ ready) waiting scene.apart)) in
      (
        subst (λ h. Holds h (pop_head marked k.ready).1 ready)
            (popped_heap marked k.ready y ran.0.0) (pop_head_lem marked k.ready (y ∷ ready) ran).0,
        Holds-set_proc marked y (record (marked y) { next = none }) waiters (waiting ++ p ∷ [])
            (NotIn-append y waiting (p ∷ []) scene.apart.0 (ne, tt)) joined,
        set_next-status marked y none p ∙ set_status-status heap p blocked,
      )

  -- `semaphore_lock` with no lock of the scheduler held, `p` running and `y` the first that is ready.
  -- `p` stands in no queue. When a lock is left it is counted, `p` runs on, and the processes and
  -- both queues are as before. When none is left `p` is blocked at the end of the waiters, `y` leaves
  -- the ready queue and runs, and the count of locks stays.
  pub semaphore_lock_lem :
      (k : Kernel) (s : Semaphore) (ready waiting : List ℕ) (p y : ℕ)
      → Scene k s.waiters (y ∷ ready) waiting
      → k.current ≡ some p
      → NotIn p (y ∷ ready)
      → NotIn p waiting
      → Locks (ltb s.current_locks s.limit) k s p y (semaphore_lock now halt k s) ready waiting
  semaphore_lock_lem k s ready waiting p y scene current out out' =
      go (ltb s.current_locks s.limit) refl
    where
      go :
          (b : Bool)
          → ltb s.current_locks s.limit ≡ b
          → Locks b k s p y (semaphore_lock now halt k s) ready waiting
      go true e =
          subst (λ r. Takes k s r (y ∷ ready) waiting) (sym (lock_taken k s scene.quiet e))
            (record {
              scene = record {
                quiet = record { irq = refl; switch = refl; flag = refl };
                runs = scene.runs;
                waits = scene.waits;
                apart = scene.apart;
              };
              current = refl;
              heap = refl;
              locks = refl;
            })
      go false e =
          let (runs, waits, status) = lock_queues k s ready waiting p y scene out out' in
          subst (λ r. Blocks p y s r ready (waiting ++ p ∷ []))
            (sym (lock_switches now halt k s p y scene.quiet current e scene.runs.0.0))
            (record {
              scene =
                  switched now halt (chosen now halt k s.waiters p y) y
                    (push_tail k.heap s.waiters (some p)).1 ready (waiting ++ p ∷ []) refl refl refl
                    runs waits
                    (Apart_sym (waiting ++ p ∷ []) ready
                      (Apart-snoc waiting ready p (Apart_sym ready waiting scene.apart.1) out.1));
              current = switched-current now halt (chosen now halt k s.waiters p y) y;
              status =
                  switched-status now halt (chosen now halt k s.waiters p y) p y
                    (λ e'. out.0 (sym e'))
                  ∙ status;
              locks = refl;
            })
