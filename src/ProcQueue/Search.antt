-- ===== src/ProcQueue/Search.antt =====
-- The loops of kernel/mp/proc_queue.c: the longest prefix of a queue, and taking a process out.
use hojicha.ProcQueue.{
  Proc, Heap, Queue, set_proc, last_prefix_walk, find_last_prefix, remove_walk, remove,
}
use hojicha.ProcQueue.Chain.{Segment, NotIn, last_or, Holds}
use hojicha.Common.{
  ℕ, zero, suc, ◌≤◌, ◌≡◌, refl, Bool, false, Option, none, some, List, [], ◌∷◌, ◌++◌, ◌==◌,
  if◌then◌else◌, arith, Bool-cases, inl, inr, length,
}

-- The processes before the first that fails `pred`, and the others.
abbrev pub prefix : Heap → (Proc → Bool) → List ℕ → List ℕ
prefix heap pred [] = []
prefix heap pred (x ∷ xs) = if pred (heap x) then x ∷ prefix heap pred xs else []

abbrev pub suffix : Heap → (Proc → Bool) → List ℕ → List ℕ
suffix heap pred [] = []
suffix heap pred (x ∷ xs) = if pred (heap x) then suffix heap pred xs else x ∷ xs

pub prefix-suffix :
    (heap : Heap) (pred : Proc → Bool) (xs : List ℕ)
    → prefix heap pred xs ++ suffix heap pred xs ≡ xs
prefix-suffix heap pred [] = refl
prefix-suffix heap pred (x ∷ xs) = ground (arith, prefix-suffix heap pred xs)

pub length-prefix :
    (heap : Heap) (pred : Proc → Bool) (xs : List ℕ) → length (prefix heap pred xs) ≤ length xs
length-prefix heap pred [] = omega arith
length-prefix heap pred (x ∷ xs) = ground (arith, length-prefix heap pred xs)

-- A process outside the list does not count.
pub prefix-set_proc :
    (heap : Heap) (p : ℕ) (v : Proc) (pred : Proc → Bool) (xs : List ℕ)
    → NotIn p xs
    → prefix (set_proc heap p v) pred xs ≡ prefix heap pred xs
prefix-set_proc heap p v pred [] out = refl
prefix-set_proc heap p v pred (x ∷ xs) (ne, out) =
    let same : set_proc heap p v x ≡ heap x = ground (arith, ne) in
    rw (same, prefix-set_proc heap p v pred xs out) refl

last_prefix_walk_lem :
    (fuel : ℕ) (heap : Heap) (pred : Proc → Bool) (xs : List ℕ) (last from : Option ℕ)
    → length xs ≤ fuel
    → Segment heap from xs none
    → last_prefix_walk fuel heap pred last from ≡ some (last_or last (prefix heap pred xs))
unfolding last_prefix_walk
last_prefix_walk_lem fuel heap pred [] last from h s = rw s refl
last_prefix_walk_lem zero heap pred (x ∷ xs) last from h s = absurd (omega arith)
last_prefix_walk_lem (suc fuel) heap pred (x ∷ xs) last from h (a, s) =
    let ih = last_prefix_walk_lem fuel heap pred xs (some x) (heap x).next (omega arith) s in
    elim (Bool-cases (pred (heap x))) [ inl t ↦ rw (a, t) ih | inr f ↦ rw (a, f) refl ]

-- `find_last_prefix` ends within as many steps as the queue has processes and answers the last of
-- the processes before the first that fails the predicate, or NULL when there is none.
pub find_last_prefix_lem :
    (fuel : ℕ) (heap : Heap) (queue : Queue) (pred : Proc → Bool) (xs : List ℕ)
    → Holds heap queue xs
    → length xs ≤ fuel
    → find_last_prefix fuel heap queue pred ≡ some (last_or none (prefix heap pred xs))
unfolding find_last_prefix
find_last_prefix_lem fuel heap queue pred xs (s, t, d) h =
    last_prefix_walk_lem fuel heap pred xs none queue.head h s

-- A process that is not in the queue is looked for along all of it, in as many steps as the queue
-- has processes; `remove` then changes nothing and answers false.
pub remove_absent :
    (fuel : ℕ) (heap : Heap) (queue : Queue) (xs : List ℕ) (proc : ℕ)
    → Holds heap queue xs
    → NotIn proc xs
    → length xs ≤ fuel
    → remove fuel heap queue (some proc) ≡ some (heap, queue, false)
unfolding remove remove_walk
remove_absent fuel heap queue xs proc (s, t, d) out h = go fuel xs none queue.head s out h
  where
    go :
        (fuel : ℕ) (ys : List ℕ) (prev from : Option ℕ)
        → Segment heap from ys none
        → NotIn proc ys
        → length ys ≤ fuel
        → remove_walk fuel heap queue proc prev from ≡ some (heap, queue, false)
    go fuel [] prev from s out h = rw s refl
    go zero (y ∷ ys) prev from s out h = absurd (omega arith)
    go (suc fuel) (y ∷ ys) prev from (a, s) (ne, out) h =
        let no : (y == proc) ≡ false = ground (arith, ne) in
        rw (a, no) (go fuel ys (some y) (heap y).next s out (omega arith))
