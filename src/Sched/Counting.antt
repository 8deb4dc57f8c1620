-- ===== src/Sched/Counting.antt =====
-- The count of locks of kernel/mp/semaphore.c, under every run of its functions.
use mathlib.Core.Option.{some_inj}
use mathlib.Core.Path.{subst}
use hojicha.ProcQueue.{Heap, set_next}
use hojicha.ProcQueue.Chain.{NotIn}
use hojicha.ProcQueue.Sleep.{ready_to_run}
use hojicha.Sched.{Kernel, sched_postpone, sched_resume, sched_unlock, blocked, running, set_status}
use hojicha.Sched.Waiting.{
  Semaphore, semaphore_create, semaphore_lock, semaphore_try_lock, semaphore_unlock,
}
use hojicha.Sched.Handover.{IsQuiet, Scene, semaphore_unlock_lem, unlock_some}
use hojicha.Sched.Blocking.{Locks, semaphore_lock_lem}
use hojicha.Sched.Switch.{quiet_eta, by_test}
use hojicha.Sched.Views.{push_tail-status, set_status-other, set_next-status}
use hojicha.Common.{
  ℕ, ◌≡◌, ◌≤◌, ◌<◌, ◌+◌, ◌^◌, ◌%◌, refl, some, none, ap, ◌∙◌, sym, arith, ltb, true, false,
  if◌then◌else◌, if_ind, if_yes, Bool, List, [], ◌∷◌, ◌++◌, length, All, ◌==◌, ◌⊎◌, inl, inr,
  length-append,
}

length_swap : (xs ys : List ℕ) → length (xs ++ ys) ≡ length (ys ++ xs)
length_swap xs ys = length-append xs ys ∙ omega arith ∙ sym (length-append ys xs)

-- The processes of a list that run again, and those that are still blocked.
unfoldable pub awake : Heap → List ℕ → List ℕ
awake heap [] = []
awake heap (x ∷ xs) =
    let rest = awake heap xs in if (heap x).status == blocked then rest else x ∷ rest

unfoldable pub asleep : Heap → List ℕ → List ℕ
asleep heap [] = []
asleep heap (x ∷ xs) =
    let rest = asleep heap xs in if (heap x).status == blocked then x ∷ rest else rest

abbrev pub AreBlocked : Heap → List ℕ → Type 0
AreBlocked heap xs = All (λ x. (heap x).status ≡ blocked) xs

awake_none : (heap : Heap) (xs : List ℕ) → AreBlocked heap xs → awake heap xs ≡ []
unfolding awake
awake_none heap [] a = refl
awake_none heap (x ∷ xs) (e, a) =
    if_yes {b = (heap x).status == blocked} _ _ (ground (arith, e)) ∙ awake_none heap xs a

asleep_all : (heap : Heap) (xs : List ℕ) → AreBlocked heap xs → asleep heap xs ≡ xs
unfolding asleep
asleep_all heap [] a = refl
asleep_all heap (x ∷ xs) (e, a) =
    if_yes {b = (heap x).status == blocked} _ _ (ground (arith, e))
    ∙ ap (λ l. x ∷ l) (asleep_all heap xs a)

-- The count is that of the holders, who are not more than the limit, and who are as many when a
-- process waits.
abbrev pub IsCounted : ℕ → Semaphore → (holders waiting : List ℕ) → Type 0
IsCounted limit s holders waiting =
    (s.limit ≡ limit)
    × (s.current_locks ≡ length holders)
    × (length holders ≤ limit)
    × ((waiting ≡ []) ⊎ (length holders ≡ limit))

module _ (now : Kernel → ℕ) (halt : Kernel → Kernel) where
  -- The semaphores that calls make of one that `semaphore_create` returned, with the processes that
  -- hold a lock and those that wait for one, both as the callers see it: a process holds a lock when
  -- its call of `semaphore_lock` has left it running, or its call of `semaphore_try_lock` has
  -- returned true, or it has waited and an unlock has woken it; it waits when its call of
  -- `semaphore_lock` has left it blocked. Between two calls the scheduler may do anything that
  -- leaves the queue of the waiters and their blocking as they are.
  pub data Runs (limit : ℕ) : Semaphore → (holders waiting : List ℕ) → Type 0 where
    created : (s : Semaphore) → semaphore_create true limit ≡ some s → Runs limit s [] []
    locks :
        (s : Semaphore) (holders waiting : List ℕ)
        → Runs limit s holders waiting
        → (k : Kernel) (p y : ℕ) (ready : List ℕ) → Scene k s.waiters (y ∷ ready) waiting
        → k.current ≡ some p
        → (k.heap p).status ≡ running
        → NotIn p (y ∷ ready)
        → NotIn p waiting
        → Runs limit
            (semaphore_lock now halt k s).1
            (awake (semaphore_lock now halt k s).0.heap (p ∷ []) ++ holders)
            (waiting ++ asleep (semaphore_lock now halt k s).0.heap (p ∷ []))
    tries :
        (s : Semaphore) (holders waiting : List ℕ)
        → Runs limit s holders waiting
        → (k : Kernel) (p : ℕ) → IsQuiet k
        → k.current ≡ some p
        → Runs limit
            (semaphore_try_lock now halt k s).1
            (if (semaphore_try_lock now halt k s).2 then p ∷ holders else holders)
            waiting
    unlocks :
        (s : Semaphore) (p : ℕ) (holders waiting : List ℕ)
        → Runs limit s (p ∷ holders) waiting
        → (k : Kernel) (ready : List ℕ) → Scene k s.waiters ready waiting
        → AreBlocked k.heap waiting
        → Runs limit
            (semaphore_unlock now halt k s).1
            (awake (semaphore_unlock now halt k s).0.heap waiting ++ holders)
            (asleep (semaphore_unlock now halt k s).0.heap waiting)
    -- The order of the holders does not matter.
    turns :
        (s : Semaphore) (first rest waiting : List ℕ)
        → Runs limit s (first ++ rest) waiting
        → Runs limit s (rest ++ first) waiting

  locked :
      (limit : ℕ) (s : Semaphore) (holders waiting : List ℕ)
      → limit < 2 ^ 8
      → IsCounted limit s holders waiting
      → (k : Kernel) (p y : ℕ) (ready : List ℕ) (left : Bool) (r : Kernel × Semaphore)
      → ltb s.current_locks s.limit ≡ left
      → (k.heap p).status ≡ running
      → r.1.limit ≡ s.limit
      → Locks left k s p y r ready waiting
      → IsCounted limit r.1
          (awake r.0.heap (p ∷ []) ++ holders)
          (waiting ++ asleep r.0.heap (p ∷ []))
  unfolding awake asleep
  locked limit s holders waiting small (e, count, le, full) k p y ready true r left runs same
        taken =
      let status : (r.0.heap p).status ≡ running =
        ap (λ (h : Heap). (h p).status) taken.heap ∙ runs in
      let apart : ((r.0.heap p).status == blocked) ≡ false = ground (arith, status) in
      let more : length holders < limit = ground (arith, left, e, count) in
      let none_waits : waiting ≡ [] = elim full [
        | inl w ↦ w
        | inr f ↦ absurd (omega (arith, f, more))
      ] in
      rw (apart, none_waits)
        (same ∙ e, taken.locks ∙ omega (arith, count, more, small), omega (arith, more), inl refl)
  locked limit s holders waiting small (e, count, le, full) k p y ready false r left runs same
        blocks =
      let put_off : ((r.0.heap p).status == blocked) ≡ true = ground (arith, blocks.status) in
      rw put_off (same ∙ e, blocks.locks ∙ count, le, inr (ground (arith, left, e, count, le)))

  tried :
      (limit : ℕ) (s : Semaphore) (holders waiting : List ℕ) (p : ℕ) (left : Bool)
      → limit < 2 ^ 8
      → IsCounted limit s holders waiting
      → ltb s.current_locks s.limit ≡ left
      → IsCounted limit
          (if left then record s { current_locks = (s.current_locks + 1) % 2 ^ 8 } else s)
          (if left then p ∷ holders else holders)
          waiting
  tried limit s holders waiting p false small counted left = counted
  tried limit s holders waiting p true small (e, count, le, full) left =
      let more : length holders < limit = ground (arith, left, e, count) in
      (
        e,
        omega (arith, count, more, small),
        omega (arith, more),
        elim full [ inl w ↦ inl w | inr f ↦ absurd (omega (arith, f, more)) ],
      )

  -- An unlock leaves the waiters behind the first one blocked.
  unlock-AreBlocked :
      (k : Kernel) (s : Semaphore) (x : ℕ) (xs : List ℕ)
      → IsQuiet k
      → s.waiters.head ≡ some x
      → NotIn x xs
      → AreBlocked k.heap xs
      → AreBlocked (semaphore_unlock now halt k s).0.heap xs
  unlock-AreBlocked k s x [] quiet h out a = tt
  unlock-AreBlocked k s x (z ∷ xs) quiet h (ne, out) (e, a) =
      let marked = set_status (set_next k.heap x none) x ready_to_run in
      (
        ap (λ (r : Kernel × Semaphore). (r.0.heap z).status) (unlock_some now halt k s x quiet h)
            ∙ push_tail-status marked k.ready x z
            ∙ set_status-other (set_next k.heap x none) x ready_to_run z ne
            ∙ set_next-status k.heap x none z
            ∙ e,
        unlock-AreBlocked k s x xs quiet h out a,
      )

  unlocked :
      (limit : ℕ) (s : Semaphore) (p : ℕ) (holders waiting : List ℕ)
      → limit < 2 ^ 8
      → IsCounted limit s (p ∷ holders) waiting
      → (k : Kernel) (ready : List ℕ) → Scene k s.waiters ready waiting
      → AreBlocked k.heap waiting
      → IsCounted limit
          (semaphore_unlock now halt k s).1
          (awake (semaphore_unlock now halt k s).0.heap waiting ++ holders)
          (asleep (semaphore_unlock now halt k s).0.heap waiting)
  unfolding awake asleep
  unlocked limit s p holders [] small (e, count, le, full) k ready scene a =
      let (_, count', same) = semaphore_unlock_lem now halt k s ready [] scene in
      (same ∙ e, count' ∙ omega (arith, count, le, small), omega (arith, le), inl refl)
  unlocked limit s p holders (x ∷ xs) small (e, count, le, full) k ready scene (_, a) =
      let (_, count', same, status) = semaphore_unlock_lem now halt k s ready (x ∷ xs) scene in
      let rest = unlock-AreBlocked k s x xs scene.quiet scene.waits.0.0 scene.waits.2.0 a in
      let heap = (semaphore_unlock now halt k s).0.heap in
      let woken : ((heap x).status == blocked) ≡ false = ground (arith, status) in
      let all : length holders + 1 ≡ limit = ground (arith, full) in
      rw (woken, awake_none heap xs rest, asleep_all heap xs rest)
        (same ∙ e, count' ∙ count, le, inr (omega (arith, all)))

  lock-limit : (k : Kernel) (s : Semaphore) → (semaphore_lock now halt k s).1.limit ≡ s.limit
  unfolding semaphore_lock
  lock-limit k s =
      if_ind (λ (r : Kernel × Semaphore). r.1.limit ≡ s.limit) (ltb s.current_locks s.limit) _ _
        (λ t. refl) (λ f. refl)

  -- The kernel with no lock of the scheduler held.
  abbrev released : Kernel → Kernel
  released k = record k {
    irq_lock_count = 0;
    switch_lock_count = 0;
    switch_lock_flag = false;
    interrupts_on = true;
  }

  abbrev held : Kernel → Kernel
  held k = record k {
    current = k.current;
    irq_lock_count = 0;
    switch_lock_count = 0;
    switch_lock_flag = false;
  }

  once : (k : Kernel) → sched_resume now halt (sched_postpone (held k)) ≡ released k
  unfolding sched_resume sched_postpone sched_unlock
  once k = refl

  twice :
      (k : Kernel)
      → sched_resume now halt (sched_resume now halt (sched_postpone (sched_postpone (held k))))
        ≡ released k
  unfolding sched_resume sched_postpone sched_unlock
  twice k = refl

  -- `semaphore_try_lock` by its test.
  abbrev by_try : Kernel → Semaphore → Bool → Kernel × Semaphore × Bool
  by_try k s left =
      if left
      then (
        sched_resume now halt (semaphore_lock now halt (sched_postpone k) s).0,
        (semaphore_lock now halt (sched_postpone k) s).1,
        true,
      )
      else (sched_resume now halt (sched_postpone k), s, false)

  by_try_lem :
      (k : Kernel) (s : Semaphore) (left : Bool)
      → ltb s.current_locks s.limit ≡ left
      → by_try (held k) s left ≡ (
        released k,
        if left then record s { current_locks = (s.current_locks + 1) % 2 ^ 8 } else s,
        left,
      )
  unfolding semaphore_lock
  by_try_lem k s true e =
      ap (λ (r : Kernel × Semaphore). (sched_resume now halt r.0, r.1, true))
        (ap (by_test now halt (sched_postpone (held k)) s) e)
      ∙ ap (λ k'. (k', record s { current_locks = (s.current_locks + 1) % 2 ^ 8 }, true)) (twice k)
  by_try_lem k s false e = ap (λ k'. (k', s, false)) (once k)

  -- `semaphore_try_lock` with no lock of the scheduler held takes a lock and returns true when one
  -- is left, and else returns false and leaves the semaphore as it is; the caller runs on, and the
  -- queues of the scheduler are as before.
  pub semaphore_try_lock_lem :
      (k : Kernel) (s : Semaphore)
      → IsQuiet k
      → semaphore_try_lock now halt k s ≡ (
        record k {
          irq_lock_count = 0;
          switch_lock_count = 0;
          switch_lock_flag = false;
          interrupts_on = true;
        },
        if ltb s.current_locks s.limit
            then record s { current_locks = (s.current_locks + 1) % 2 ^ 8 }
            else s,
        ltb s.current_locks s.limit,
      )
  unfolding semaphore_try_lock
  semaphore_try_lock_lem k s quiet =
      ap (λ k'. by_try k' s (ltb s.current_locks s.limit))
        (quiet_eta now halt k k.current quiet refl)
      ∙ by_try_lem k s (ltb s.current_locks s.limit) refl

  -- However the functions of a semaphore are called after its creation, with any limit that a byte
  -- holds, by processes that run and, for `semaphore_unlock`, after a lock that is held: the count
  -- of locks is the number of holders, no more processes hold a lock than the limit allows, and a
  -- process waits only while all the locks are held. A woken waiter is a holder. With the limit 1
  -- of a mutex this is mutual exclusion. No lock of the scheduler is held when a function is called;
  -- when `semaphore_lock` is, another process is ready and the caller stands in no queue. Between
  -- two calls the queue of the waiters stays as it is, and they stay blocked.
  pub Runs-bounded :
      (limit : ℕ) (s : Semaphore) (holders waiting : List ℕ)
      → limit < 2 ^ 8
      → Runs limit s holders waiting
      → (s.limit ≡ limit)
        × (s.current_locks ≡ length holders)
        × (length holders ≤ limit)
        × ((waiting ≡ []) ⊎ (length holders ≡ limit))
  unfolding semaphore_create
  Runs-bounded limit s holders waiting small (created _ e) =
      subst (λ s'. IsCounted limit s' [] []) (some_inj.0 e) (refl, refl, omega arith, inl refl)
  Runs-bounded limit s holders waiting small (locks s' h w r k p y ready scene c status out out') =
      locked limit s' h w small (Runs-bounded limit s' h w small r) k p y ready
        (ltb s'.current_locks s'.limit) (semaphore_lock now halt k s') refl status (lock-limit k s')
        (semaphore_lock_lem now halt k s' ready w p y scene c out out')
  Runs-bounded limit s holders waiting small (tries s' h w r k p quiet c) =
      let e = semaphore_try_lock_lem k s' quiet in
      subst (λ (q : Kernel × Semaphore × Bool). IsCounted limit q.1 (if q.2 then p ∷ h else h) w)
        (sym e)
        (tried limit s' h w p (ltb s'.current_locks s'.limit) small
          (Runs-bounded limit s' h w small r) refl)
  Runs-bounded limit s holders waiting small (unlocks s' p h w r k ready scene a) =
      unlocked limit s' p h w small (Runs-bounded limit s' (p ∷ h) w small r) k ready scene a
  Runs-bounded limit s holders waiting small (turns _ first rest _ r) =
      let (e, count, le, full) = Runs-bounded limit s (first ++ rest) waiting small r in
      rw (length_swap rest first) (e, count, le, full)
