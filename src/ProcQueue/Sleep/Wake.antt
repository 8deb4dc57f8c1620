-- ===== src/ProcQueue/Sleep/Wake.antt =====
-- `wake_procs_before_timestamp` of kernel/mp/sleep.c.
use mathlib.Core.List.{append-nil}
use mathlib.Core.Option.{some_inj}
use mathlib.Core.Path.{subst}
use hojicha.ProcQueue.{
  Heap, Queue, set_next, set_proc, set_next?, splice, is_none, splice_prefix_tail, find_last_prefix,
}
use hojicha.ProcQueue.Chain.{
  Segment, Distinct, last_or, Holds, Apart, last_or-some, NotIn-last, Distinct-split,
}
use hojicha.ProcQueue.Search.{prefix, suffix, prefix-suffix, find_last_prefix_lem, length-prefix}
use hojicha.ProcQueue.Sleep.{
  ready_to_run, wake, wake_up_to, mark_ready, sleep_until_less_than_equal,
  wake_procs_before_timestamp,
}
use hojicha.ProcQueue.Splice.{splice_prefix_tail_lem}
use hojicha.Common.{
  ℕ, zero, suc, ◌≤◌, ◌≡◌, refl, true, false, Option, none, some, List, [], ◌∷◌, ◌++◌, ◌==◌, arith,
  sym, ◌∙◌, ap, All, Bool-cases, inl, inr, length,
}

abbrev set_ready : Heap → ℕ → Heap
set_ready heap p = set_proc heap p (record (heap p) { status = ready_to_run })

abbrev marked : Heap → List ℕ → Heap
marked heap [] = heap
marked heap (x ∷ xs) = marked (set_ready heap x) xs

Segment-ext :
    (heap heap' : Heap) (xs : List ℕ) (from stop : Option ℕ)
    → ((q : ℕ) → (heap' q).next ≡ (heap q).next)
    → Segment heap from xs stop
    → Segment heap' from xs stop
Segment-ext heap heap' [] from stop h s = s
Segment-ext heap heap' (x ∷ xs) from stop h (a, s) =
    (a, rw (h x) (Segment-ext heap heap' xs (heap x).next stop h s))

set_ready-next : (heap : Heap) (p q : ℕ) → (set_ready heap p q).next ≡ (heap q).next
set_ready-next heap p q = ground arith

marked-next : (heap : Heap) (xs : List ℕ) (q : ℕ) → (marked heap xs q).next ≡ (heap q).next
marked-next heap [] q = refl
marked-next heap (x ∷ xs) q = marked-next (set_ready heap x) xs q ∙ set_ready-next heap x q

marked_stays :
    (heap : Heap) (xs : List ℕ) (q : ℕ)
    → (heap q).status ≡ ready_to_run
    → (marked heap xs q).status ≡ ready_to_run
marked_stays heap [] q h = h
marked_stays heap (x ∷ xs) q h = marked_stays (set_ready heap x) xs q (ground (arith, h))

marked-status : (heap : Heap) (xs : List ℕ) → All (λ p. (marked heap xs p).status ≡ ready_to_run) xs
marked-status heap [] = tt
marked-status heap (x ∷ xs) =
    (marked_stays (set_ready heap x) xs x (ground arith), marked-status (set_ready heap x) xs)

mark_ready_lem :
    (fuel : ℕ) (heap : Heap) (xs zs : List ℕ) (x last : ℕ) (from : Option ℕ)
    → Segment heap from ((x ∷ xs) ++ zs) none
    → Distinct (x ∷ xs)
    → last_or (some x) xs ≡ some last
    → length (x ∷ xs) ≤ fuel
    → mark_ready fuel heap from last ≡ some (marked heap (x ∷ xs))
unfolding mark_ready
mark_ready_lem zero heap xs zs x last from s d e h = absurd (omega arith)
mark_ready_lem (suc fuel) heap [] zs x last from (a, s) d e h =
    let yes : (x == last) ≡ true = ground (arith, some_inj.0 e) in rw (a, yes) refl
mark_ready_lem (suc fuel) heap (y ∷ ys) zs x last from (a, s) d e h =
    let no : (x == last) ≡ false = ground (arith, NotIn-last x last y ys e d.0) in
    let heap' = set_ready heap x in
    let next : (heap' x).next ≡ (heap x).next = set_ready-next heap x x in
    let ih =
      mark_ready_lem fuel heap' ys zs y last (heap' x).next
        (rw next
          (Segment-ext heap heap' ((y ∷ ys) ++ zs) (heap x).next none (set_ready-next heap x) s))
        d.1 e (omega arith) in
    rw (a, no) ih

set_next-status :
    (heap : Heap) (p q : ℕ) (n : Option ℕ) → ((set_next heap p n) q).status ≡ (heap q).status
set_next-status heap p q n = ground arith

set_next?-status :
    (heap : Heap) (p : Option ℕ) (q : ℕ) (n : Option ℕ)
    → ((set_next? heap p n) q).status ≡ (heap q).status
set_next?-status heap none q n = refl
set_next?-status heap (some p) q n = set_next-status heap p q n

splice-status :
    (heap : Heap) (dst src : Queue) (first last q : ℕ)
    → ((splice heap dst src first last).0 q).status ≡ (heap q).status
splice-status heap dst src first last q = elim (Bool-cases (is_none dst.head)) [
  | inl t ↦ rw t (set_next-status heap last q none)
  | inr f ↦ rw f (
      set_next?-status (set_next heap last none) dst.tail q (some first)
      ∙ set_next-status heap last q none)
]

splice_prefix_tail-status :
    (heap : Heap) (dst src : Queue) (last q first : ℕ)
    → src.head ≡ some first
    → ((splice_prefix_tail heap dst src (some last)).0 q).status ≡ (heap q).status
unfolding splice_prefix_tail
splice_prefix_tail-status heap dst src last q first h =
    rw h (splice-status heap dst src first last q)

Holds-marked :
    (heap : Heap) (due : List ℕ) (queue : Queue) (xs : List ℕ)
    → Holds heap queue xs
    → Holds (marked heap due) queue xs
Holds-marked heap due queue xs (s, t, d) =
    (Segment-ext heap (marked heap due) xs queue.head none (marked-next heap due) s, t, d)

All-map : {P Q : ℕ → Type 0} → ((p : ℕ) → P p → Q p) → (xs : List ℕ) → All P xs → All Q xs
All-map f [] h = tt
All-map f (x ∷ xs) h = (f x h.0, All-map f xs h.1)

-- What waking makes of the two queues: the due processes go, in order, behind the ready ones and are
-- marked ready to run, and the others keep sleeping.
pub record Wakes (result : Option (Heap × Queue × Queue)) (ys due others : List ℕ) : Type 0 where
  pub heap : Heap
  pub ready : Queue
  pub sleeping : Queue
  pub returns : result ≡ some (heap, ready, sleeping)
  pub woken : Holds heap ready (ys ++ due)
  pub asleep : Holds heap sleeping others
  pub status : All (λ p. (heap p).status ≡ ready_to_run) due

wake_up_to_lem :
    (fuel : ℕ) (heap : Heap) (ready sleeping : Queue) (ys due others : List ℕ)
    → Holds heap ready ys
    → Holds heap sleeping (due ++ others)
    → Apart ys (due ++ others)
    → length due ≤ fuel
    → Wakes (wake_up_to fuel heap ready sleeping (last_or none due)) ys due others
wake_up_to_lem fuel heap ready sleeping ys [] others r s a h = record {
  heap = heap;
  ready = ready;
  sleeping = sleeping;
  returns = refl;
  woken = rw (append-nil ys) r;
  asleep = s;
  status = tt;
}
wake_up_to_lem fuel heap ready sleeping ys (x ∷ due) others r s a h =
    let (last, e) = last_or-some due x in
    let (d₁, d₂, apart) = Distinct-split (x ∷ due) others s.2 in
    let heap' = marked heap (x ∷ due) in
    let marks = mark_ready_lem fuel heap due others x last sleeping.head s.0 d₁ e h in
    let (woken, asleep) =
      splice_prefix_tail_lem heap' ready sleeping ys others due x last
        (Holds-marked heap (x ∷ due) ready ys r)
        (Holds-marked heap (x ∷ due) sleeping ((x ∷ due) ++ others) s) e a in
    record {
      heap = (splice_prefix_tail heap' ready sleeping (some last)).0;
      ready = (splice_prefix_tail heap' ready sleeping (some last)).1;
      sleeping = (splice_prefix_tail heap' ready sleeping (some last)).2;
      returns = rw (e, marks) refl;
      woken = woken;
      asleep = asleep;
      status =
          All-map (λ p h. splice_prefix_tail-status heap' ready sleeping last p x s.0.0 ∙ h)
            (x ∷ due) (marked-status heap (x ∷ due));
    }

wake_procs_eq :
    (fuel : ℕ) (heap : Heap) (ready sleeping : Queue) (timestamp : ℕ) (last : Option ℕ)
    → find_last_prefix fuel heap sleeping (sleep_until_less_than_equal timestamp) ≡ some last
    → wake_procs_before_timestamp fuel heap ready sleeping timestamp
      ≡ wake_up_to fuel heap ready sleeping last
unfolding wake_procs_before_timestamp
wake_procs_eq fuel heap ready sleeping timestamp last e = ap (wake fuel heap ready sleeping) e

-- `wake_procs_before_timestamp` ends within as many steps as processes sleep. It takes the sleeping
-- processes before the first whose time is after the timestamp, puts them in order behind the ready
-- ones and marks them ready to run; the others keep sleeping, in order.
pub wake_procs_before_timestamp_lem :
    (fuel : ℕ) (heap : Heap) (ready sleeping : Queue) (ys xs : List ℕ) (timestamp : ℕ)
    → Holds heap ready ys
    → Holds heap sleeping xs
    → Apart ys xs
    → length xs ≤ fuel
    → Wakes
        (wake_procs_before_timestamp fuel heap ready sleeping timestamp)
        ys
        (prefix heap (sleep_until_less_than_equal timestamp) xs)
        (suffix heap (sleep_until_less_than_equal timestamp) xs)
wake_procs_before_timestamp_lem fuel heap ready sleeping ys xs timestamp r s a h =
    let due = sleep_until_less_than_equal timestamp in
    let whole = prefix-suffix heap due xs in
    let found = find_last_prefix_lem fuel heap sleeping due xs s h in
    subst (λ w. Wakes w ys (prefix heap due xs) (suffix heap due xs))
      (sym (wake_procs_eq fuel heap ready sleeping timestamp _ found))
      (wake_up_to_lem fuel heap ready sleeping ys (prefix heap due xs) (suffix heap due xs) r
        (rw whole s) (rw whole a) (omega (arith, length-prefix heap due xs)))
