-- ===== src/Sched/Handover.antt =====
-- `semaphore_unlock` of kernel/mp/semaphore.c: a lock is handed over to the oldest waiter.
use mathlib.Core.List.{append-nil, append_assoc}
use mathlib.Core.Path.{subst}
use hojicha.ProcQueue.{Heap, Queue, set_next, push_tail, pop_head}
use hojicha.ProcQueue.Chain.{Holds, Apart, Apart_sym}
use hojicha.ProcQueue.Ends.{pop_head_lem}
use hojicha.ProcQueue.Sleep.{ready_to_run}
use hojicha.Sched.{Kernel, set_status}
use hojicha.Sched.Waiting.{Semaphore, semaphore_unlock}
use hojicha.Sched.Views.{moved_lem, Apart-snoc}
use hojicha.Common.{
  ℕ, ◌≡◌, ◌+◌, ◌-◌, ◌^◌, ◌%◌, refl, none, some, List, [], ◌∷◌, ◌++◌, sym, ◌∙◌, true, false, length,
  zero, suc,
}

-- No lock of the scheduler is held and no switch is due.
pub record IsQuiet (k : Kernel) : Type 0 where
  pub irq : k.irq_lock_count ≡ 0
  pub switch : k.switch_lock_count ≡ 0
  pub flag : k.switch_lock_flag ≡ false

-- The processes that are ready and those that wait.
pub record Scene (k : Kernel) (waiters : Queue) (ready waiting : List ℕ) : Type 0 where
  pub quiet : IsQuiet k
  pub runs : Holds k.heap k.ready ready
  pub waits : Holds k.heap waiters waiting
  pub apart : Apart ready waiting

-- The kernel with no lock held, after a change of the heap and the ready queue.
abbrev unlocked : Kernel → Heap × Queue → Kernel
unlocked k (heap, ready) = record k {
  heap = heap;
  ready = ready;
  irq_lock_count = 0;
  switch_lock_count = 0;
  switch_lock_flag = false;
  interrupts_on = true;
}

abbrev marked : Kernel → ℕ → Heap
marked k x = set_status (set_next k.heap x none) x ready_to_run

module _ (now : Kernel → ℕ) (halt : Kernel → Kernel) where
  pub unlock_some :
      (k : Kernel) (s : Semaphore) (x : ℕ)
      → IsQuiet k
      → s.waiters.head ≡ some x
      → semaphore_unlock now halt k s ≡ (
        unlocked k (push_tail (marked k x) k.ready (some x)),
        record s { waiters = (pop_head k.heap s.waiters).1 },
      )
  unfolding semaphore_unlock pop_head
  unlock_some k s x quiet h = rw (quiet.irq, quiet.switch, quiet.flag, h) refl

  unlock_none :
      (k : Kernel) (s : Semaphore)
      → IsQuiet k
      → s.waiters.head ≡ none
      → semaphore_unlock now halt k s ≡ (
        unlocked k (k.heap, k.ready),
        record s { current_locks = (s.current_locks + 2 ^ 8 - 1) % 2 ^ 8 },
      )
  unfolding semaphore_unlock
  unlock_none k s quiet h = rw (quiet.irq, quiet.switch, quiet.flag, h) refl

pub popped_heap :
    (heap : Heap) (queue : Queue) (x : ℕ)
    → queue.head ≡ some x
    → (pop_head heap queue).0 ≡ set_next heap x none
unfolding pop_head
popped_heap heap queue x h = rw h refl

-- What an unlock makes of a semaphore with the given processes ready and waiting.
abbrev pub Unlocks : Semaphore → Kernel × Semaphore → (ready waiting : List ℕ) → Type 0
Unlocks s (k', s') ready [] =
    Scene k' s'.waiters ready []
    × (s'.current_locks ≡ (s.current_locks + 2 ^ 8 - 1) % 2 ^ 8)
    × (s'.limit ≡ s.limit)
Unlocks s (k', s') ready (x ∷ waiting) =
    Scene k' s'.waiters (ready ++ x ∷ []) waiting
    × (s'.current_locks ≡ s.current_locks)
    × (s'.limit ≡ s.limit)
    × ((k'.heap x).status ≡ ready_to_run)

module _ (now : Kernel → ℕ) (halt : Kernel → Kernel) where
  -- `semaphore_unlock` with no lock of the scheduler held. When a process waits, the oldest one leaves
  -- the queue for the end of the ready queue, is marked as ready, and the count of locks stays: it is
  -- handed over. When none waits the count goes down by one as a byte. Every other process keeps its
  -- place.
  pub semaphore_unlock_lem :
      (k : Kernel) (s : Semaphore) (ready waiting : List ℕ)
      → Scene k s.waiters ready waiting
      → Unlocks s (semaphore_unlock now halt k s) ready waiting
  semaphore_unlock_lem k s ready [] scene =
      subst (λ r. Unlocks s r ready []) (sym (unlock_none now halt k s scene.quiet scene.waits.0))
        (
          record {
            quiet = record { irq = refl; switch = refl; flag = refl };
            runs = scene.runs;
            waits = scene.waits;
            apart = scene.apart;
          },
          refl,
          refl,
        )
  semaphore_unlock_lem k s ready (x ∷ waiting) scene =
      let head = scene.waits.0.0 in
      let (out, apart) = Apart_sym ready (x ∷ waiting) scene.apart in
      let left : Holds (set_next k.heap x none) (pop_head k.heap s.waiters).1 waiting =
        subst (λ h. Holds h (pop_head k.heap s.waiters).1 waiting)
          (popped_heap k.heap s.waiters x head)
          (pop_head_lem k.heap s.waiters (x ∷ waiting) scene.waits).0 in
      let (runs, waits, status) =
        moved_lem k.heap k.ready (pop_head k.heap s.waiters).1 ready waiting x scene.runs left out
          scene.waits.2.0 (Apart_sym waiting ready apart) in
      subst (λ r. Unlocks s r ready (x ∷ waiting))
        (sym (unlock_some now halt k s x scene.quiet head))
        (
          record {
            quiet = record { irq = refl; switch = refl; flag = refl };
            runs = runs;
            waits = waits;
            apart = Apart-snoc ready waiting x (Apart_sym waiting ready apart) scene.waits.2.0;
          },
          refl,
          refl,
          status,
        )

  -- `count` calls in a row.
  abbrev pub unlock_times : ℕ → Kernel → Semaphore → Kernel × Semaphore
  unlock_times zero k s = (k, s)
  unlock_times (suc count) k s =
      let (k', s') = semaphore_unlock now halt k s in unlock_times count k' s'

  -- A process that waits is woken after as many unlocks as there are waiters up to it, itself
  -- included, whatever waits behind it: then all of them are in the ready queue, in the order in
  -- which they waited, behind those that were ready before, and the rest wait as before. No lock of
  -- the scheduler is held at the start.
  pub unlocks-wake :
      (k : Kernel) (s : Semaphore) (ready first rest : List ℕ)
      → Scene k s.waiters ready (first ++ rest)
      → (let (k', s') = unlock_times (length first) k s in
          Scene k' s'.waiters (ready ++ first) rest × (s'.current_locks ≡ s.current_locks))
  unlocks-wake k s ready [] rest scene = (rw (append-nil ready) scene, refl)
  unlocks-wake k s ready (x ∷ first) rest scene =
      let (k', s') = semaphore_unlock now halt k s in
      let (scene', count, limit, status) =
        semaphore_unlock_lem k s ready (x ∷ first ++ rest) scene in
      let (later, count') = unlocks-wake k' s' (ready ++ x ∷ []) first rest scene' in
      (
        subst
            (λ l.
              Scene (unlock_times (length first) k' s').0
                (unlock_times (length first) k' s').1.waiters l rest)
            (append_assoc ready (x ∷ []) first) later,
        count' ∙ count,
      )
