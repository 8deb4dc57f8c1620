-- ===== src/Sched/Switch.antt =====
-- `semaphore_lock` of kernel/mp/semaphore.c as far as the switch to another process.
use hojicha.ProcQueue.{Heap, Queue, set_next, push_tail, pop_head}
use hojicha.ProcQueue.Chain.{Holds, Apart}
use hojicha.Sched.{
  Kernel, set_status, running, blocked, uninitialized, quantum_length, account, switch_to_next,
  schedule_advance, sched_unlock, sched_postpone, sched_resume, put, multitask_switch,
  mp_block_proc, sched_lock,
}
use hojicha.Sched.Waiting.{Semaphore, semaphore_lock, wait_queue_sleep, enqueue_current}
use hojicha.Sched.Views.{Holds-set_status, set_status-status, set_status-other, popped}
use hojicha.Sched.Handover.{IsQuiet, Scene}
use hojicha.Common.{
  ℕ, ◌≡◌, ◌≢◌, ◌+◌, ◌^◌, ◌%◌, refl, Option, none, some, List, ◌==◌, ltb, if◌then◌else◌, if_ind, ap,
  ◌∙◌, Bool, true, false,
}

module _ (now : Kernel → ℕ) (halt : Kernel → Kernel) where
  -- A blocked process gives way to the first that is ready.
  advance_blocked :
      (k : Kernel) (p y : ℕ)
      → k.switch_lock_count ≡ 0
      → k.current ≡ some p
      → (k.heap p).status ≡ blocked
      → k.ready.head ≡ some y
      → schedule_advance now halt k
        ≡ switch_to_next
            (record (account (record k { time_elapsed = now k }) (some p)) {
              quantum_remaining = quantum_length;
            })
            (pop_head k.heap k.ready)
  unfolding schedule_advance
  advance_blocked k p y count current status head = rw (count, current, status, head) refl

  pub quiet_eta :
      (k : Kernel) (c : Option ℕ)
      → IsQuiet k
      → k.current ≡ c
      → k ≡ record k {
        current = c;
        irq_lock_count = 0;
        switch_lock_count = 0;
        switch_lock_flag = false;
      }
  quiet_eta k c quiet current = λ i. record k {
    current = current i;
    irq_lock_count = quiet.irq i;
    switch_lock_count = quiet.switch i;
    switch_lock_flag = quiet.flag i;
  }

  -- The kernel after the caller has joined the waiters, the switch due, and the one in which the
  -- switch happens.
  abbrev pub pending : Kernel → Queue → ℕ → Kernel
  pending k q p = record k {
    current = some p;
    heap = set_status (push_tail k.heap q (some p)).0 p blocked;
    irq_lock_count = 1;
    switch_lock_count = 1;
    switch_lock_flag = true;
    interrupts_on = false;
  }

  abbrev pub switching : Kernel → Queue → ℕ → Kernel
  switching k q p = record (pending k q p) { switch_lock_count = 0; switch_lock_flag = false }

  sleep_literal :
      (k : Kernel) (q : Queue) (p : ℕ)
      → wait_queue_sleep now halt
          (sched_postpone (record k {
            current = some p;
            irq_lock_count = 0;
            switch_lock_count = 0;
            switch_lock_flag = false;
          }))
          q
        ≡ (pending k q p, (push_tail k.heap q (some p)).1)
  unfolding wait_queue_sleep sched_postpone enqueue_current push_tail mp_block_proc sched_lock
      sched_unlock sched_resume schedule_advance
  sleep_literal k q p = refl

  sleep_pending :
      (k : Kernel) (q : Queue) (p : ℕ)
      → IsQuiet k
      → k.current ≡ some p
      → wait_queue_sleep now halt (sched_postpone k) q
        ≡ (pending k q p, (push_tail k.heap q (some p)).1)
  sleep_pending k q p quiet current =
      ap (λ k'. wait_queue_sleep now halt (sched_postpone k') q)
        (quiet_eta k (some p) quiet current)
      ∙ sleep_literal k q p

  resume_pending :
      (k : Kernel) (q : Queue) (p : ℕ)
      → sched_resume now halt (pending k q p)
        ≡ sched_unlock (schedule_advance now halt (switching k q p))
  unfolding sched_resume
  resume_pending k q p = refl

  -- `semaphore_lock` by its test.
  abbrev pub by_test : Kernel → Semaphore → Bool → Kernel × Semaphore
  by_test k s left =
      if left
      then (
        sched_resume now halt (sched_postpone k),
        record s { current_locks = (s.current_locks + 1) % 2 ^ 8 },
      )
      else (
        sched_resume now halt (wait_queue_sleep now halt (sched_postpone k) s.waiters).0,
        record s { waiters = (wait_queue_sleep now halt (sched_postpone k) s.waiters).1 },
      )

  lock_full :
      (k : Kernel) (s : Semaphore) (p : ℕ)
      → IsQuiet k
      → k.current ≡ some p
      → ltb s.current_locks s.limit ≡ false
      → semaphore_lock now halt k s ≡ (
        sched_unlock (schedule_advance now halt (switching k s.waiters p)),
        record s { waiters = (push_tail k.heap s.waiters (some p)).1 },
      )
  unfolding semaphore_lock
  lock_full k s p quiet current full =
      ap (by_test k s) full
      ∙ ap (λ (r : Kernel × Queue). (sched_resume now halt r.0, record s { waiters = r.1 }))
          (sleep_pending k s.waiters p quiet current)
      ∙ ap (λ k'. (k', record s { waiters = (push_tail k.heap s.waiters (some p)).1 }))
          (resume_pending k s.waiters p)

  -- The kernel once the first that is ready has left its queue.
  abbrev pub chosen : Kernel → Queue → (p y : ℕ) → Kernel
  chosen k q p y =
      let s = switching k q p in
      let timed = account (record s { time_elapsed = now s }) (some p) in
      record timed {
        quantum_remaining = quantum_length;
        heap = set_next s.heap y none;
        ready = (pop_head s.heap k.ready).1;
        switch_timestamp = put timed.switch_timestamp y timed.time_elapsed;
      }

  pub lock_switches :
      (k : Kernel) (s : Semaphore) (p y : ℕ)
      → IsQuiet k
      → k.current ≡ some p
      → ltb s.current_locks s.limit ≡ false
      → k.ready.head ≡ some y
      → semaphore_lock now halt k s ≡ (
        sched_unlock (multitask_switch (chosen k s.waiters p y) y),
        record s { waiters = (push_tail k.heap s.waiters (some p)).1 },
      )
  unfolding multitask_switch switch_to_next
  lock_switches k s p y quiet current full head =
      let k' = switching k s.waiters p in
      let s' : Semaphore = record s { waiters = (push_tail k.heap s.waiters (some p)).1 } in
      lock_full k s p quiet current full
      ∙ ap (λ k'. (sched_unlock k', s'))
          (advance_blocked k' p y refl refl
              (set_status-status (push_tail k.heap s.waiters (some p)).0 p blocked) head
            ∙ ap
                (switch_to_next (record (account (record k' { time_elapsed = now k' }) (some p)) {
                  quantum_remaining = quantum_length;
                }))
                (popped k'.heap k.ready y head))

  -- What a switch to `y` makes of two queues that do not hold it.
  pub switched :
      (k : Kernel) (y : ℕ) (waiters : Queue) (ready waiting : List ℕ)
      → k.irq_lock_count ≡ 1
      → k.switch_lock_count ≡ 0
      → k.switch_lock_flag ≡ false
      → Holds k.heap k.ready ready
      → Holds k.heap waiters waiting
      → Apart ready waiting
      → Scene (sched_unlock (multitask_switch k y)) waiters ready waiting
  unfolding sched_unlock multitask_switch
  switched k y waiters ready waiting irq switch flag h w a = record {
    quiet = record { irq = rw irq refl; switch = switch; flag = flag };
    runs =
        if_ind (λ heap. Holds heap k.ready ready) ((k.heap y).status == uninitialized) k.heap _
          (λ t. h) (λ f. Holds-set_status k.heap y running k.ready ready h);
    waits =
        if_ind (λ heap. Holds heap waiters waiting) ((k.heap y).status == uninitialized) k.heap _
          (λ t. w) (λ f. Holds-set_status k.heap y running waiters waiting w);
    apart = a;
  }

  pub switched-current :
      (k : Kernel) (y : ℕ) → (sched_unlock (multitask_switch k y)).current ≡ some y
  unfolding sched_unlock multitask_switch
  switched-current k y = refl

  pub switched-status :
      (k : Kernel) (p y : ℕ)
      → p ≢ y
      → ((sched_unlock (multitask_switch k y)).heap p).status ≡ (k.heap p).status
  unfolding sched_unlock multitask_switch
  switched-status k p y ne =
      if_ind (λ (heap : Heap). (heap p).status ≡ (k.heap p).status)
        ((k.heap y).status == uninitialized) k.heap _ (λ t. refl)
        (λ f. set_status-other k.heap y running p ne)
