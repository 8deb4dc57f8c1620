-- ===== src/ProcQueue/Remove.antt =====
-- `proc_queue_remove` of kernel/mp/proc_queue.c on a process that the queue holds.
use hojicha.ProcQueue.{Heap, Queue, set_next, remove_walk, remove, unlink}
use hojicha.ProcQueue.Chain.{
  Segment, NotIn, last_or, Holds, Segment-set_proc, Segment-append, Segment-set_last, Segment-split,
  last_or-append, last_or-some, Distinct-split, Distinct-join, Apart-last, Apart_sym, Apart-first,
}
use hojicha.ProcQueue.Insert.{inserted_tail}
use hojicha.ProcQueue.Splice.{rest_tail}
use hojicha.Common.{
  ℕ, zero, suc, ◌+◌, ◌≤◌, ◌≡◌, refl, Bool, true, false, Option, none, some, List, [], ◌∷◌, ◌++◌,
  ◌==◌, arith, sym, ◌∙◌, ap, length,
}

remove_walk_finds :
    (fuel : ℕ) (heap : Heap) (queue : Queue) (xs zs : List ℕ) (proc : ℕ) (prev from : Option ℕ)
    → Segment heap from (xs ++ proc ∷ zs) none
    → NotIn proc xs
    → length xs + 1 ≤ fuel
    → remove_walk fuel heap queue proc prev from ≡ (
        let (heap', queue') = unlink heap queue (last_or prev xs) proc in
        some (heap', queue', true))
unfolding remove_walk
remove_walk_finds zero heap queue [] zs proc prev from s out h = absurd (omega arith)
remove_walk_finds zero heap queue (x ∷ xs) zs proc prev from s out h = absurd (omega arith)
remove_walk_finds (suc fuel) heap queue [] zs proc prev from (a, s) out h =
    let yes : (proc == proc) ≡ true = ground arith in rw (a, yes) refl
remove_walk_finds (suc fuel) heap queue (x ∷ xs) zs proc prev from (a, s) (ne, out) h =
    let no : (x == proc) ≡ false = ground (arith, ne) in
    rw (a, no)
      (remove_walk_finds fuel heap queue xs zs proc (some x) (heap x).next s out (omega arith))

module _ (heap : Heap) (queue : Queue) (zs : List ℕ) (proc : ℕ) where
  unlink_first :
      Holds heap queue (proc ∷ zs)
      → Holds (unlink heap queue none proc).0 (unlink heap queue none proc).1 zs
  unlink_first (s, t, d) = (
    Segment-set_proc heap proc (record (heap proc) { next = none }) zs (heap proc).next none d.0
        s.1,
    rest_tail queue zs proc t d.0,
    d.1,
  )

  unlink_later :
      (xs : List ℕ) (x last : ℕ)
      → Holds heap queue ((x ∷ xs) ++ proc ∷ zs)
      → last_or (some x) xs ≡ some last
      → Holds
          (unlink heap queue (some last) proc).0
          (unlink heap queue (some last) proc).1
          ((x ∷ xs) ++ zs)
  unlink_later xs x last (s, t, d) e =
      let (at, front, back) = Segment-split heap (x ∷ xs) (proc ∷ zs) queue.head none s in
      let (d₁, d₂, apart) = Distinct-split (x ∷ xs) (proc ∷ zs) d in
      let mid = (heap proc).next in
      let (ne, last_zs) = Apart-last x last xs (proc ∷ zs) e apart in
      let proc_xs = (Apart_sym (x ∷ xs) (proc ∷ zs) apart).0 in
      let apart_zs = (Apart-first (x ∷ xs) (proc ∷ []) zs apart).1 in
      let heap₁ = set_next heap last mid in
      let first =
        Segment-set_proc heap₁ proc (record (heap₁ proc) { next = none }) (x ∷ xs) queue.head mid
          proc_xs (Segment-set_last heap xs x last queue.head at mid d₁ e front) in
      let others =
        Segment-set_proc heap₁ proc (record (heap₁ proc) { next = none }) zs mid none d₂.0
          (Segment-set_proc heap last (record (heap last) { next = mid }) zs mid none last_zs
            back.1) in
      (
        Segment-append (set_next heap₁ proc none) (x ∷ xs) zs queue.head mid none first others,
        inserted_tail queue.tail zs proc last (t ∙ last_or-append (some x) xs (proc ∷ zs)) d₂.0
            ∙ ap (λ o. last_or o zs) (sym e)
            ∙ sym (last_or-append (some x) xs zs),
        Distinct-join (x ∷ xs) zs d₁ d₂.1 apart_zs,
      )

-- What `remove` makes of a queue: it finds the process, and the queue then holds the others.
pub record Removes (result : Option (Heap × Queue × Bool)) (xs : List ℕ) : Type 0 where
  pub heap : Heap
  pub queue : Queue
  pub found : result ≡ some (heap, queue, true)
  pub holds : Holds heap queue xs

-- `remove` of a process in the queue ends within as many steps as processes stand before it and one
-- more, answers true, and leaves the other processes in order, wherever the process stood.
pub remove_lem :
    (fuel : ℕ) (heap : Heap) (queue : Queue) (xs zs : List ℕ) (proc : ℕ)
    → Holds heap queue (xs ++ proc ∷ zs)
    → length xs + 1 ≤ fuel
    → Removes (remove fuel heap queue (some proc)) (xs ++ zs)
unfolding remove
remove_lem fuel heap queue [] zs proc held h = record {
  heap = (unlink heap queue none proc).0;
  queue = (unlink heap queue none proc).1;
  found = remove_walk_finds fuel heap queue [] zs proc none queue.head held.0 tt h;
  holds = unlink_first heap queue zs proc held;
}
remove_lem fuel heap queue (x ∷ xs) zs proc held h =
    let (last, e) = last_or-some xs x in
    let (d₁, d₂, apart) = Distinct-split (x ∷ xs) (proc ∷ zs) held.2 in
    let out = (Apart_sym (x ∷ xs) (proc ∷ zs) apart).0 in
    let found = remove_walk_finds fuel heap queue (x ∷ xs) zs proc none queue.head held.0 out h in
    record {
      heap = (unlink heap queue (some last) proc).0;
      queue = (unlink heap queue (some last) proc).1;
      found =
          found
          ∙ ap (λ o. let (heap', queue') = unlink heap queue o proc in some (heap', queue', true))
              e;
      holds = unlink_later heap queue zs proc xs x last held e;
    }
