-- ===== src/ProcQueue/Insert.antt =====
-- `proc_queue_insert_after` of kernel/mp/proc_queue.c.
use mathlib.Core.Path.{subst}
use hojicha.ProcQueue.{Heap, Queue, set_next, insert_after, same}
use hojicha.ProcQueue.Chain.{
  NotIn, last_or, Holds, Apart, Segment-set_proc, Segment-append, Segment-set_last, Segment-split,
  Segment-next_last, last_or-append, last_or-some, Distinct-split, Distinct-join, Apart-last,
  NotIn-last, NotIn-first, set_next-next, set_proc-ne,
}
use hojicha.Common.{
  ℕ, ◌≡◌, ◌≢◌, refl, true, false, Option, none, some, List, [], ◌∷◌, ◌++◌, ◌==◌, if◌then◌else◌,
  arith, sym, ◌∙◌, ap,
}

insert_after_eq :
    (heap : Heap) (queue : Queue) (last proc : ℕ) (mid : Option ℕ)
    → (heap last).next ≡ mid
    → insert_after heap queue (some last) (some proc) ≡ (
      set_next (set_next heap proc mid) last (some proc),
      record queue { tail = if same queue.tail (some last) then some proc else queue.tail },
    )
unfolding insert_after
insert_after_eq heap queue last proc mid e = rw e refl

pub inserted_tail :
    (tail : Option ℕ) (zs : List ℕ) (last proc : ℕ)
    → tail ≡ last_or (some last) zs
    → NotIn last zs
    → (if same tail (some last) then some proc else tail) ≡ last_or (some proc) zs
inserted_tail tail [] last proc t out =
    let eq : (last == last) ≡ true = ground arith in rw (t, eq) refl
inserted_tail tail (z ∷ zs) last proc t out =
    let (l, e) = last_or-some zs z in
    let ne : (l == last) ≡ false = ground (arith, NotIn-last last l z zs e out) in
    rw (t, e, ne) refl

-- The list with the new process apart from both its parts.
Apart-insert : (xs zs : List ℕ) (p : ℕ) → NotIn p xs → Apart xs zs → Apart xs (p ∷ zs)
Apart-insert [] zs p out a = tt
Apart-insert (x ∷ xs) zs p out a = ((λ e. out.0 (sym e), a.0), Apart-insert xs zs p out.1 a.1)

-- `insert_after` behind the last process of `x ∷ xs` puts a process that is not in the queue
-- between these and the others.
pub insert_after_lem :
    (heap : Heap) (queue : Queue) (zs xs : List ℕ) (x last proc : ℕ)
    → Holds heap queue ((x ∷ xs) ++ zs)
    → last_or (some x) xs ≡ some last
    → NotIn proc ((x ∷ xs) ++ zs)
    → Holds
        (insert_after heap queue (some last) (some proc)).0
        (insert_after heap queue (some last) (some proc)).1
        ((x ∷ xs) ++ proc ∷ zs)
insert_after_lem heap queue zs xs x last proc (s, t, d) e out =
    let (mid, front, back) = Segment-split heap (x ∷ xs) zs queue.head none s in
    let (d₁, d₂, apart) = Distinct-split (x ∷ xs) zs d in
    let (out₁, out₂) = NotIn-first proc (x ∷ xs) zs out in
    let ne : last ≢ proc = NotIn-last proc last x xs e out₁ in
    let last_zs = Apart-last x last xs zs e apart in
    let heap₁ = set_next heap proc mid in
    let heap₂ = set_next heap₁ last (some proc) in
    let kept =
      Segment-set_proc heap proc (record (heap proc) { next = mid }) (x ∷ xs) queue.head mid out₁
        front in
    let first = Segment-set_last heap₁ xs x last queue.head mid (some proc) d₁ e kept in
    let others =
      Segment-set_proc heap₁ last (record (heap₁ last) { next = some proc }) zs mid none last_zs
        (Segment-set_proc heap proc (record (heap proc) { next = mid }) zs mid none out₂ back) in
    let next : (heap₂ proc).next ≡ mid =
      set_proc-ne heap₁ last proc _ (λ q. ne (sym q)) ∙ set_next-next heap proc mid in
    let joined =
      Segment-append heap₂ (x ∷ xs) (proc ∷ zs) queue.head (some proc) none first
        (refl, rw next others) in
    subst (λ r. Holds r.0 r.1 ((x ∷ xs) ++ proc ∷ zs))
      (sym (
        insert_after_eq heap queue last proc mid
          (Segment-next_last heap xs x last queue.head mid e front)))
      (
        joined,
        inserted_tail queue.tail zs last proc
              (t ∙ last_or-append (some x) xs zs ∙ ap (λ o. last_or o zs) e) last_zs
            ∙ ap (λ o. last_or o (proc ∷ zs)) (sym e)
            ∙ sym (last_or-append (some x) xs (proc ∷ zs)),
        Distinct-join (x ∷ xs) (proc ∷ zs) d₁ (out₂, d₂) (Apart-insert (x ∷ xs) zs proc out₁ apart),
      )
