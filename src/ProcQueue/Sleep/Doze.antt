-- ===== src/ProcQueue/Sleep/Doze.antt =====
-- `sleep_proc_until` of kernel/mp/sleep.c.
use mathlib.Core.Path.{subst}
use hojicha.ProcQueue.{Heap, Queue, set_proc, push_head, empty, is_none, find_last_prefix}
use hojicha.ProcQueue.Chain.{NotIn, last_or, Holds, last_or-some, Segment-set_proc}
use hojicha.ProcQueue.Ends.{push_head_lem}
use hojicha.ProcQueue.Insert.{insert_after_lem}
use hojicha.ProcQueue.Search.{prefix, suffix, prefix-suffix, find_last_prefix_lem, prefix-set_proc}
use hojicha.ProcQueue.Sleep.{
  sleeping_timer, place, settle, sleep_until_less_than_equal, sleep_proc_until,
}
use hojicha.Common.{
  ℕ, ◌≤◌, ◌≡◌, refl, Option, none, some, List, [], ◌∷◌, ◌++◌, if◌then◌else◌, sym, ◌∙◌, ap, length,
}

-- The process with its new time and status.
abbrev dozing : Heap → ℕ → ℕ → Heap
dozing heap process timestamp =
    set_proc heap process
      (record (heap process) { sleep_until = timestamp; status = sleeping_timer })

-- What falling asleep makes of the queue of sleepers.
pub record Sleeps (result : Option (Heap × Queue)) (xs : List ℕ) : Type 0 where
  pub heap : Heap
  pub sleeping : Queue
  pub returns : result ≡ some (heap, sleeping)
  pub asleep : Holds heap sleeping xs

place_lem :
    (heap : Heap) (sleeping : Queue) (front others : List ℕ) (process : ℕ)
    → Holds heap sleeping (front ++ others)
    → NotIn process (front ++ others)
    → (let (heap', sleeping') = place heap sleeping process (last_or none front) in
        Holds heap' sleeping' (front ++ process ∷ others))
place_lem heap sleeping [] others process s out = push_head_lem heap sleeping others process s out
place_lem heap sleeping (x ∷ front) others process s out =
    let (last, e) = last_or-some front x in
    subst
      (λ o.
        Holds (place heap sleeping process o).0 (place heap sleeping process o).1
          ((x ∷ front) ++ process ∷ others))
      (sym e) (insert_after_lem heap sleeping others front x last process s e out)

sleep_proc_until_eq :
    (fuel : ℕ) (heap : Heap) (sleeping : Queue) (xs : List ℕ) (process timestamp : ℕ)
    (last : Option ℕ)
    → Holds (dozing heap process timestamp) sleeping xs
    → find_last_prefix fuel
        (dozing heap process timestamp)
        sleeping
        (sleep_until_less_than_equal timestamp)
      ≡ some last
    → (xs ≡ [] → last ≡ none)
    → sleep_proc_until fuel heap sleeping process timestamp
      ≡ some (place (dozing heap process timestamp) sleeping process last)
unfolding sleep_proc_until empty
sleep_proc_until_eq fuel heap sleeping [] process timestamp last s e none_first =
    rw (s.0, none_first refl) refl
sleep_proc_until_eq fuel heap sleeping (x ∷ xs) process timestamp last s e none_first =
    ap
      (λ o.
        if is_none o
        then some (push_head (dozing heap process timestamp) sleeping (some process))
        else settle (dozing heap process timestamp) sleeping process (
            find_last_prefix fuel (dozing heap process timestamp) sleeping
              (sleep_until_less_than_equal timestamp)))
      s.0.0
    ∙ ap (settle (dozing heap process timestamp) sleeping process) e

-- `sleep_proc_until`, up to its switch to another process, ends within as many steps as processes
-- sleep. It puts a process that does not sleep yet behind the sleepers before the first whose time
-- is after the new one, and the sleepers keep their order.
pub sleep_proc_until_lem :
    (fuel : ℕ) (heap : Heap) (sleeping : Queue) (xs : List ℕ) (process timestamp : ℕ)
    → Holds heap sleeping xs
    → NotIn process xs
    → length xs ≤ fuel
    → Sleeps (sleep_proc_until fuel heap sleeping process timestamp) (
        prefix heap (sleep_until_less_than_equal timestamp) xs
        ++ process ∷ suffix heap (sleep_until_less_than_equal timestamp) xs)
sleep_proc_until_lem fuel heap sleeping xs process timestamp (s, t, d) out h =
    let due = sleep_until_less_than_equal timestamp in
    let heap' = dozing heap process timestamp in
    let held : Holds heap' sleeping xs =
      (Segment-set_proc heap process _ xs sleeping.head none out s, t, d) in
    let whole = prefix-suffix heap due xs in
    let found =
      find_last_prefix_lem fuel heap' sleeping due xs held h
      ∙ ap (λ ys. some (last_or none ys)) (prefix-set_proc heap process _ due xs out) in
    record {
      heap = (place heap' sleeping process (last_or none (prefix heap due xs))).0;
      sleeping = (place heap' sleeping process (last_or none (prefix heap due xs))).1;
      returns =
          sleep_proc_until_eq fuel heap sleeping xs process timestamp
            (last_or none (prefix heap due xs)) held found
            (λ e. ap (λ ys. last_or none (prefix heap due ys)) e);
      asleep =
          place_lem heap' sleeping (prefix heap due xs) (suffix heap due xs) process (rw whole held)
            (rw whole out);
    }
