-- ===== src/ProcQueue/Splice.antt =====
-- `proc_queue_splice_prefix_tail` of kernel/mp/proc_queue.c.
use mathlib.Core.Path.{subst}
use hojicha.ProcQueue.{Heap, Queue, set_next, splice_prefix_tail, same}
use hojicha.ProcQueue.Chain.{
  Segment, NotIn, Distinct, last_or, Holds, Apart, Segment-set_proc, Segment-append,
  Segment-set_last, Segment-split, Segment-next_last, last_or-append, last_or-some, Distinct-split,
  Distinct-join, Apart-last, NotIn-last, NotIn-first, Apart-first, Apart_sym,
}
use hojicha.Common.{
  ℕ, ◌≡◌, refl, true, false, Option, none, some, List, [], ◌∷◌, ◌++◌, ◌==◌, if◌then◌else◌, arith,
  sym, ◌∙◌, ap,
}

-- The source after the splice.
abbrev rest_of : Queue → Option ℕ → ℕ → Queue
rest_of src mid last = record {
  head = mid;
  tail = if same src.tail (some last) then none else src.tail;
}

splice_onto_empty :
    (heap : Heap) (dst src : Queue) (x last : ℕ) (mid : Option ℕ)
    → dst.head ≡ none
    → src.head ≡ some x
    → (heap last).next ≡ mid
    → splice_prefix_tail heap dst src (some last)
      ≡ (set_next heap last none, record { head = some x; tail = some last }, rest_of src mid last)
unfolding splice_prefix_tail
splice_onto_empty heap dst src x last mid a b c = rw (a, b, c) refl

splice_onto :
    (heap : Heap) (dst src : Queue) (y l x last : ℕ) (mid : Option ℕ)
    → dst.head ≡ some y
    → dst.tail ≡ some l
    → src.head ≡ some x
    → (heap last).next ≡ mid
    → splice_prefix_tail heap dst src (some last) ≡ (
      set_next (set_next heap last none) l (some x),
      record { head = some y; tail = some last },
      rest_of src mid last,
    )
unfolding splice_prefix_tail
splice_onto heap dst src y l x last mid a b c d = rw (a, b, c, d) refl

pub rest_tail :
    (src : Queue) (zs : List ℕ) (last : ℕ)
    → src.tail ≡ last_or (some last) zs
    → NotIn last zs
    → (if same src.tail (some last) then none else src.tail) ≡ last_or none zs
rest_tail src [] last t out = let eq : (last == last) ≡ true = ground arith in rw (t, eq) refl
rest_tail src (z ∷ zs) last t out =
    let (l, e) = last_or-some zs z in
    let ne : (l == last) ≡ false = ground (arith, NotIn-last last l z zs e out) in
    rw (t, e, ne) refl

module _ (heap : Heap) (dst src : Queue) (zs xs : List ℕ) (x last : ℕ)
    (held : Holds heap src ((x ∷ xs) ++ zs)) (ends : last_or (some x) xs ≡ some last) where
  abbrev halves : (mid : Option ℕ) × Segment heap src.head (x ∷ xs) mid × Segment heap mid zs none
  halves = Segment-split heap (x ∷ xs) zs src.head none held.0

  abbrev parts : Distinct (x ∷ xs) × Distinct zs × Apart (x ∷ xs) zs
  parts = Distinct-split (x ∷ xs) zs held.2

  -- The part that leaves, in the heap in which it ends.
  leaving : Segment (set_next heap last none) src.head (x ∷ xs) none
  leaving = Segment-set_last heap xs x last src.head halves.0 none parts.0 ends halves.1

  staying : Segment (set_next heap last none) halves.0 zs none
  staying =
      Segment-set_proc heap last _ zs halves.0 none (Apart-last x last xs zs ends parts.2) halves.2

  staying_tail : (if same src.tail (some last) then none else src.tail) ≡ last_or none zs
  staying_tail =
      rest_tail src zs last (held.1 ∙ last_or-append (some x) xs zs ∙ ap (λ o. last_or o zs) ends)
        (Apart-last x last xs zs ends parts.2)

-- `splice_prefix_tail` up to the last process of `x ∷ xs` moves exactly these processes, in order,
-- from the front of one queue to the end of the other, when no process stands in both.
pub splice_prefix_tail_lem :
    (heap : Heap) (dst src : Queue) (ys zs xs : List ℕ) (x last : ℕ)
    → Holds heap dst ys
    → Holds heap src ((x ∷ xs) ++ zs)
    → last_or (some x) xs ≡ some last
    → Apart ys ((x ∷ xs) ++ zs)
    → Holds
        (splice_prefix_tail heap dst src (some last)).0
        (splice_prefix_tail heap dst src (some last)).1
        (ys ++ x ∷ xs)
      × Holds
          (splice_prefix_tail heap dst src (some last)).0
          (splice_prefix_tail heap dst src (some last)).2
          zs
splice_prefix_tail_lem heap dst src [] zs xs x last (s, t, d) held e apart =
    let at =
      Segment-next_last heap xs x last src.head (halves heap dst src zs xs x last held e).0 e
        (halves heap dst src zs xs x last held e).1 in
    subst (λ r. Holds r.0 r.1 (x ∷ xs) × Holds r.0 r.2 zs)
      (sym (splice_onto_empty heap dst src x last _ s held.0.0 at))
      (
        (
          (refl, (leaving heap dst src zs xs x last held e).1),
          sym e,
          (parts heap dst src zs xs x last held e).0,
        ),
        (
          staying heap dst src zs xs x last held e,
          staying_tail heap dst src zs xs x last held e,
          (parts heap dst src zs xs x last held e).1,
        ),
      )
splice_prefix_tail_lem heap dst src (y ∷ ys) zs xs x last (s, t, d) held e apart =
    let (mid, front, back) = halves heap dst src zs xs x last held e in
    let (l, el) = last_or-some ys y in
    let (apart_xs, apart_zs) = Apart-first (y ∷ ys) (x ∷ xs) zs apart in
    let (l_xs, l_zs) = NotIn-first l (x ∷ xs) zs (Apart-last y l ys ((x ∷ xs) ++ zs) el apart) in
    let last_ys = Apart-last x last xs (y ∷ ys) e (Apart_sym (y ∷ ys) (x ∷ xs) apart_xs) in
    let heap₁ = set_next heap last none in
    let kept =
      Segment-set_proc heap last (record (heap last) { next = none }) (y ∷ ys) dst.head none last_ys
        s in
    let moved = Segment-set_last heap₁ ys y l dst.head none (some x) d el kept in
    let added =
      Segment-set_proc heap₁ l (record (heap₁ l) { next = some x }) (x ∷ xs) src.head none l_xs
        (leaving heap dst src zs xs x last held e) in
    let joined =
      Segment-append (set_next heap₁ l (some x)) (y ∷ ys) (x ∷ xs) dst.head (some x) none moved
        (refl, added.1) in
    subst (λ r. Holds r.0 r.1 ((y ∷ ys) ++ (x ∷ xs)) × Holds r.0 r.2 zs)
      (sym (
        splice_onto heap dst src y l x last mid s.0 (t ∙ el) held.0.0
          (Segment-next_last heap xs x last src.head mid e front)))
      (
        (
          (refl, joined.1),
          sym e ∙ sym (last_or-append (some y) ys (x ∷ xs)),
          Distinct-join (y ∷ ys) (x ∷ xs) d (parts heap dst src zs xs x last held e).0 apart_xs,
        ),
        (
          Segment-set_proc heap₁ l (record (heap₁ l) { next = some x }) zs mid none l_zs
              (staying heap dst src zs xs x last held e),
          staying_tail heap dst src zs xs x last held e,
          (parts heap dst src zs xs x last held e).1,
        ),
      )
