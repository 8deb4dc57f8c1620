-- ===== src/ProcQueue/Walks.antt =====
-- The walks of kernel/mp/proc_queue.c that look at a whole queue: `proc_queue_find`,
-- `proc_queue_find_last` and `proc_queue_for_each`.
use hojicha.ProcQueue.{Proc, Heap, Queue}
use hojicha.ProcQueue.Chain.{Segment, Holds}
use hojicha.Common.{
  ℕ, zero, suc, ◌≡◌, ◌≤◌, refl, Bool, true, false, Option, none, some, List, [], ◌∷◌, length,
  if◌then◌else◌, ap, ◌∙◌, arith,
}

-- The predecessor and the process that is found; the outer `none` is out of fuel.
unfoldable pub find_walk :
    ℕ → Heap → (Proc → Bool) → (prev proc : Option ℕ) → Option (Option (Option ℕ × ℕ))
find_walk fuel heap pred prev none = some none
find_walk zero heap pred prev (some proc) = none
find_walk (suc fuel) heap pred prev (some proc) =
    let rest = find_walk fuel heap pred (some proc) (heap proc).next in
    if pred (heap proc) then some (some (prev, proc)) else rest

unfoldable pub find : ℕ → Heap → Queue → (Proc → Bool) → Option (Option (Option ℕ × ℕ))
unfolding find_walk
find fuel heap queue pred = find_walk fuel heap pred none queue.head

unfoldable pub find_last_walk :
    ℕ → Heap → (Proc → Bool) → (last proc : Option ℕ) → Option (Option ℕ)
find_last_walk fuel heap pred last none = some last
find_last_walk zero heap pred last (some proc) = none
find_last_walk (suc fuel) heap pred last (some proc) =
    find_last_walk fuel heap pred (if pred (heap proc) then some proc else last) (heap proc).next

unfoldable pub find_last : ℕ → Heap → Queue → (Proc → Bool) → Option (Option ℕ)
unfolding find_last_walk
find_last fuel heap queue pred = find_last_walk fuel heap pred none queue.head

-- `each` may change the processes; the next one is read afterwards.
unfoldable pub for_each_walk : ℕ → (Heap → ℕ → Heap) → Heap → Option ℕ → Option Heap
for_each_walk fuel each heap none = some heap
for_each_walk zero each heap (some proc) = none
for_each_walk (suc fuel) each heap (some proc) =
    let heap' = each heap proc in for_each_walk fuel each heap' (heap' proc).next

unfoldable pub for_each : ℕ → (Heap → ℕ → Heap) → Heap → Queue → Option Heap
unfolding for_each_walk
for_each fuel each heap queue = for_each_walk fuel each heap queue.head

-- The same on a list.
abbrev pub find_in : Heap → (Proc → Bool) → Option ℕ → List ℕ → Option (Option ℕ × ℕ)
find_in heap pred prev [] = none
find_in heap pred prev (x ∷ xs) =
    let later = find_in heap pred (some x) xs in if pred (heap x) then some (prev, x) else later

abbrev pub find_last_in : Heap → (Proc → Bool) → Option ℕ → List ℕ → Option ℕ
find_last_in heap pred last [] = last
find_last_in heap pred last (x ∷ xs) =
    find_last_in heap pred (if pred (heap x) then some x else last) xs

find_walk-find_in :
    (fuel : ℕ) (heap : Heap) (pred : Proc → Bool) (prev from : Option ℕ) (xs : List ℕ)
    → Segment heap from xs none
    → length xs ≤ fuel
    → find_walk fuel heap pred prev from ≡ some (find_in heap pred prev xs)
unfolding find_walk
find_walk-find_in zero heap pred prev from [] s h = rw s refl
find_walk-find_in (suc fuel) heap pred prev from [] s h = rw s refl
find_walk-find_in zero heap pred prev from (x ∷ xs) s h = absurd (omega arith)
find_walk-find_in (suc fuel) heap pred prev from (x ∷ xs) (e, s) h =
    ap (find_walk (suc fuel) heap pred prev) e
    ∙ ap (λ r. if pred (heap x) then some (some (prev, x)) else r)
        (find_walk-find_in fuel heap pred (some x) (heap x).next xs s (omega arith))
    ∙ pushed (pred (heap x)) (some (prev, x)) (find_in heap pred (some x) xs)
  where
    pushed :
        (b : Bool) (v w : Option (Option ℕ × ℕ))
        → (if b then some v else some w) ≡ some (if b then v else w)
    pushed true v w = refl
    pushed false v w = refl

find_last_walk-find_last_in :
    (fuel : ℕ) (heap : Heap) (pred : Proc → Bool) (last from : Option ℕ) (xs : List ℕ)
    → Segment heap from xs none
    → length xs ≤ fuel
    → find_last_walk fuel heap pred last from ≡ some (find_last_in heap pred last xs)
unfolding find_last_walk
find_last_walk-find_last_in zero heap pred last from [] s h = rw s refl
find_last_walk-find_last_in (suc fuel) heap pred last from [] s h = rw s refl
find_last_walk-find_last_in zero heap pred last from (x ∷ xs) s h = absurd (omega arith)
find_last_walk-find_last_in (suc fuel) heap pred last from (x ∷ xs) (e, s) h =
    ap (find_last_walk (suc fuel) heap pred last) e
    ∙ find_last_walk-find_last_in fuel heap pred (if pred (heap x) then some x else last)
        (heap x).next xs s (omega arith)

-- On a queue that holds `xs`, with as much fuel as it has processes, `find` gives the first process
-- that satisfies the predicate, with its predecessor, and `find_last` the last one.
pub find_lem :
    (fuel : ℕ) (heap : Heap) (queue : Queue) (pred : Proc → Bool) (xs : List ℕ)
    → Holds heap queue xs
    → length xs ≤ fuel
    → (find fuel heap queue pred ≡ some (find_in heap pred none xs))
      × (find_last fuel heap queue pred ≡ some (find_last_in heap pred none xs))
unfolding find find_last
find_lem fuel heap queue pred xs holds h = (
  find_walk-find_in fuel heap pred none queue.head xs holds.0 h,
  find_last_walk-find_last_in fuel heap pred none queue.head xs holds.0 h,
)
