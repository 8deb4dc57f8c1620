-- ===== src/ProcQueue/Ends.antt =====
-- The queue operations of kernel/mp/proc_queue.c at a queue's ends.
use mathlib.Core.Path.{subst}
use hojicha.ProcQueue.{Heap, Queue, set_next, push_head, push_tail, pop_head, is_none}
use hojicha.ProcQueue.Chain.{
  Segment, NotIn, last_or, Holds, Segment-set_proc, Segment-append, Segment-set_last, last_or-snoc,
  Distinct-snoc, last_or-some, set_next-next, set_proc-ne, last_or-ne,
}
use hojicha.Common.{
  ℕ, ◌≡◌, ◌≢◌, refl, Option, none, some, List, [], ◌∷◌, ◌++◌, if◌then◌else◌, sym, ◌∙◌,
}

pushed_tail :
    (queue : Queue) (xs : List ℕ) (proc : ℕ)
    → queue.tail ≡ last_or none xs
    → (if is_none queue.tail then some proc else queue.tail) ≡ last_or (some proc) xs
pushed_tail queue [] proc t = rw t refl
pushed_tail queue (x ∷ xs) proc t = let (l, e) = last_or-some xs x in rw (t, e) refl

-- `push_head` puts a process that is not in the queue in front of the others.
pub push_head_lem :
    (heap : Heap) (queue : Queue) (xs : List ℕ) (proc : ℕ)
    → Holds heap queue xs
    → NotIn proc xs
    → Holds (push_head heap queue (some proc)).0 (push_head heap queue (some proc)).1 (proc ∷ xs)
unfolding push_head
push_head_lem heap queue xs proc (s, t, d) out = (
  (
    refl,
    rw (set_next-next heap proc queue.head) (Segment-set_proc heap proc _ xs queue.head none out s),
  ),
  pushed_tail queue xs proc t,
  (out, d),
)

pub push_tail-some :
    (heap : Heap) (queue : Queue) (proc x l : ℕ)
    → queue.head ≡ some x
    → queue.tail ≡ some l
    → push_tail heap queue (some proc) ≡ (
      set_next (set_next heap proc none) l (some proc),
      record { head = some x; tail = some proc },
    )
unfolding push_tail
push_tail-some heap queue proc x l h t = rw (h, t) refl

-- `push_tail` puts a process that is not in the queue behind the others.
pub push_tail_lem :
    (heap : Heap) (queue : Queue) (xs : List ℕ) (proc : ℕ)
    → Holds heap queue xs
    → NotIn proc xs
    → Holds
        (push_tail heap queue (some proc)).0
        (push_tail heap queue (some proc)).1
        (xs ++ proc ∷ [])
unfolding push_tail
push_tail_lem heap queue [] proc (s, t, d) out =
    rw s ((refl, set_next-next heap proc none), refl, (tt, tt))
push_tail_lem heap queue (x ∷ xs) proc (s, t, d) out =
    let (l, e) = last_or-some xs x in
    let heap' = set_next heap proc none in
    let kept =
      Segment-set_proc heap proc (record (heap proc) { next = none }) (x ∷ xs) queue.head none out
        s in
    let ne : l ≢ proc = last_or-ne xs proc x l out e in
    let joined =
      Segment-append (set_next heap' l (some proc)) (x ∷ xs) (proc ∷ []) queue.head (some proc) none
        (Segment-set_last heap' xs x l queue.head none (some proc) d e kept)
        (refl, set_proc-ne heap' l proc _ (λ q. ne (sym q)) ∙ set_next-next heap proc none) in
    subst (λ r. Holds r.0 r.1 ((x ∷ xs) ++ proc ∷ []))
      (sym (push_tail-some heap queue proc x l s.0 (t ∙ e)))
      ((refl, joined.1), sym (last_or-snoc (some x) xs proc), Distinct-snoc (x ∷ xs) proc d out)

popped_tail :
    (heap : Heap) (xs : List ℕ) (next tail : Option ℕ) (x : ℕ)
    → Segment heap next xs none
    → tail ≡ last_or (some x) xs
    → (if is_none next then none else tail) ≡ last_or none xs
popped_tail heap [] next tail x s t = rw s refl
popped_tail heap (y ∷ ys) next tail x s t = rw s.0 t

-- What `pop_head` makes of a queue that holds `xs`.
abbrev pub Pops : Heap → Queue → Heap × Queue × Option ℕ → List ℕ → Type 0
Pops heap queue (heap', queue', out) [] = (heap' ≡ heap) × (queue' ≡ queue) × (out ≡ none)
Pops heap queue (heap', queue', out) (x ∷ xs) =
    Holds heap' queue' xs × (out ≡ some x) × ((heap' x).next ≡ none)

-- `pop_head` takes the first process out of the queue, and nothing from an empty one.
pub pop_head_lem :
    (heap : Heap) (queue : Queue) (xs : List ℕ)
    → Holds heap queue xs
    → Pops heap queue (pop_head heap queue) xs
unfolding pop_head
pop_head_lem heap queue [] (s, t, d) = rw s (refl, refl, refl)
pop_head_lem heap queue (x ∷ xs) (s, t, d) = rw s.0 (
  (
    Segment-set_proc heap x _ xs (heap x).next none d.0 s.1,
    popped_tail heap xs (heap x).next queue.tail x s.1 t,
    d.1,
  ),
  refl,
  set_next-next heap x none,
)
