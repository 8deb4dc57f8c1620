-- ===== src/Sched/Views.antt =====
-- The queues of kernel/mp/scheduler.c and kernel/mp/wait_queue.c as lists, and how a wake-up moves a
-- process from the one to the other.
use mathlib.Core.Path.{subst}
use hojicha.ProcQueue.{
  Proc, Heap, Queue, set_next, set_next?, set_proc, push_tail, pop_head, is_none,
}
use hojicha.ProcQueue.Chain.{
  Segment, NotIn, Holds, Segment-set_proc, Apart, Apart-last, last_or-some,
}
use hojicha.ProcQueue.Ends.{push_tail_lem, push_tail-some}
use hojicha.ProcQueue.Sleep.{ready_to_run}
use hojicha.Sched.{set_status}
use hojicha.Common.{
  ℕ, ◌≡◌, ◌≢◌, refl, Option, none, some, List, [], ◌∷◌, ◌++◌, ◌==◌, sym, ◌∙◌, arith, if_ind,
}

-- Writes that keep every `next` keep the lists.
pub Segment-agree :
    (heap heap' : Heap)
    → ((p : ℕ) → (heap' p).next ≡ (heap p).next)
    → (xs : List ℕ) (from stop : Option ℕ) → Segment heap from xs stop
    → Segment heap' from xs stop
Segment-agree heap heap' same [] from stop s = s
Segment-agree heap heap' same (x ∷ xs) from stop (a, s) =
    (a, rw (same x) (Segment-agree heap heap' same xs (heap x).next stop s))

set_status-next : (heap : Heap) (p s q : ℕ) → (set_status heap p s q).next ≡ (heap q).next
set_status-next heap p s q =
    if_ind (λ (v : Proc). v.next ≡ (heap q).next) (q == p) _ _ (λ t. ground (arith, t)) (λ f. refl)

pub Holds-set_status :
    (heap : Heap) (p s : ℕ) (queue : Queue) (xs : List ℕ)
    → Holds heap queue xs
    → Holds (set_status heap p s) queue xs
Holds-set_status heap p s queue xs (a, t, d) =
    (Segment-agree heap (set_status heap p s) (set_status-next heap p s) xs queue.head none a, t, d)

pub Holds-set_proc :
    (heap : Heap) (p : ℕ) (v : Proc) (queue : Queue) (xs : List ℕ)
    → NotIn p xs
    → Holds heap queue xs
    → Holds (set_proc heap p v) queue xs
Holds-set_proc heap p v queue xs out (a, t, d) =
    (Segment-set_proc heap p v xs queue.head none out a, t, d)

-- What is pushed on one queue leaves another as it is.
pub Holds-push_tail :
    (heap : Heap) (queue other : Queue) (xs zs : List ℕ) (p : ℕ)
    → Holds heap queue xs
    → Holds heap other zs
    → NotIn p zs
    → Apart xs zs
    → Holds (push_tail heap queue (some p)).0 other zs
unfolding push_tail
Holds-push_tail heap queue other [] zs p (s, t, d) h out a =
    rw s (Holds-set_proc heap p _ other zs out h)
Holds-push_tail heap queue other (x ∷ xs) zs p (s, t, d) h out a =
    let (l, e) = last_or-some xs x in
    subst (λ (r : Heap × Queue). Holds r.0 other zs)
      (sym (push_tail-some heap queue p x l s.0 (t ∙ e)))
      (Holds-set_proc (set_next heap p none) l _ other zs (Apart-last x l xs zs e a)
        (Holds-set_proc heap p _ other zs out h))

pub set_next-status :
    (heap : Heap) (p : ℕ) (n : Option ℕ) (q : ℕ) → (set_next heap p n q).status ≡ (heap q).status
set_next-status heap p n q =
    if_ind (λ (v : Proc). v.status ≡ (heap q).status) (q == p) _ _ (λ t. ground (arith, t))
      (λ f. refl)

set_next?-status :
    (heap : Heap) (t n : Option ℕ) (q : ℕ) → (set_next? heap t n q).status ≡ (heap q).status
set_next?-status heap none n q = refl
set_next?-status heap (some p) n q = set_next-status heap p n q

pub push_tail-status :
    (heap : Heap) (queue : Queue) (p q : ℕ)
    → ((push_tail heap queue (some p)).0 q).status ≡ (heap q).status
unfolding push_tail
push_tail-status heap queue p q =
    if_ind (λ (r : Heap × Queue). (r.0 q).status ≡ (heap q).status) (is_none queue.head) _ _
      (λ t. set_next-status heap p none q)
      (λ f.
        set_next?-status (set_next heap p none) queue.tail (some p) q
        ∙ set_next-status heap p none q)

pub set_status-status : (heap : Heap) (p s : ℕ) → (set_status heap p s p).status ≡ s
set_status-status heap p s = ground arith

pub Apart-snoc : (ys xs : List ℕ) (p : ℕ) → Apart ys xs → NotIn p xs → Apart (ys ++ p ∷ []) xs
Apart-snoc [] xs p a out = (out, tt)
Apart-snoc (y ∷ ys) xs p a out = (a.0, Apart-snoc ys xs p a.1 out)

-- A process that has left one queue, is marked as ready and joins the other.
pub moved_lem :
    (heap : Heap) (queue other : Queue) (xs zs : List ℕ) (p : ℕ)
    → Holds heap queue xs
    → Holds (set_next heap p none) other zs
    → NotIn p xs
    → NotIn p zs
    → Apart xs zs
    → (let (heap', queue') =
          push_tail (set_status (set_next heap p none) p ready_to_run) queue (some p) in
        Holds heap' queue' (xs ++ p ∷ [])
        × Holds heap' other zs
        × ((heap' p).status ≡ ready_to_run))
moved_lem heap queue other xs zs p h k out out' a =
    let marked = set_status (set_next heap p none) p ready_to_run in
    let here =
      Holds-set_status (set_next heap p none) p ready_to_run queue xs
        (Holds-set_proc heap p (record (heap p) { next = none }) queue xs out h) in
    let there = Holds-set_status (set_next heap p none) p ready_to_run other zs k in
    (
      push_tail_lem marked queue xs p here out,
      Holds-push_tail marked queue other xs zs p here there out' a,
      push_tail-status marked queue p p ∙ set_status-status (set_next heap p none) p ready_to_run,
    )

pub set_status-other :
    (heap : Heap) (p s q : ℕ) → q ≢ p → (set_status heap p s q).status ≡ (heap q).status
set_status-other heap p s q ne = ground (arith, ne)

pub popped :
    (heap : Heap) (queue : Queue) (x : ℕ)
    → queue.head ≡ some x
    → pop_head heap queue ≡ (set_next heap x none, (pop_head heap queue).1, some x)
unfolding pop_head
popped heap queue x h = rw h refl
