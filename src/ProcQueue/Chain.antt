-- ===== src/ProcQueue/Chain.antt =====
-- The list of processes that a queue of kernel/mp/proc_queue.c links.
use mathlib.Core.Option.{some_inj, none-ne-some}
use hojicha.ProcQueue.{Proc, Heap, Queue, set_next, set_proc}
use hojicha.Common.{
  ℕ, ◌≡◌, ◌≢◌, refl, Option, none, some, List, [], ◌∷◌, ◌++◌, arith, sym, ◌∙◌, ap, All,
}

-- `xs` are the processes from `from` on, in order; the last one's `next` is `stop`.
abbrev pub Segment : Heap → Option ℕ → List ℕ → Option ℕ → Type 0
Segment heap from [] stop = from ≡ stop
Segment heap from (x ∷ xs) stop = (from ≡ some x) × Segment heap (heap x).next xs stop

abbrev pub NotIn : ℕ → List ℕ → Type 0
NotIn p xs = All (λ x. x ≢ p) xs

abbrev pub Distinct : List ℕ → Type 0
Distinct [] = Unit
Distinct (x ∷ xs) = NotIn x xs × Distinct xs

-- The last of `xs`, or `d` when there is none.
abbrev pub last_or : Option ℕ → List ℕ → Option ℕ
last_or d [] = d
last_or d (x ∷ xs) = last_or (some x) xs

-- The queue holds `xs`.
abbrev pub Holds : Heap → Queue → List ℕ → Type 0
Holds heap queue xs = Segment heap queue.head xs none × (queue.tail ≡ last_or none xs) × Distinct xs

-- A write to a process outside the list keeps it.
pub Segment-set_proc :
    (heap : Heap) (p : ℕ) (v : Proc) (xs : List ℕ) (from stop : Option ℕ)
    → NotIn p xs
    → Segment heap from xs stop
    → Segment (set_proc heap p v) from xs stop
Segment-set_proc heap p v [] from stop out s = s
Segment-set_proc heap p v (x ∷ xs) from stop (ne, out) (a, s) =
    let same : ((set_proc heap p v) x).next ≡ (heap x).next = ground (arith, ne) in
    (a, rw same (Segment-set_proc heap p v xs (heap x).next stop out s))

pub Segment-append :
    (heap : Heap) (xs ys : List ℕ) (from mid stop : Option ℕ)
    → Segment heap from xs mid
    → Segment heap mid ys stop
    → Segment heap from (xs ++ ys) stop
Segment-append heap [] ys from mid stop s t = rw s t
Segment-append heap (x ∷ xs) ys from mid stop (a, s) t =
    (a, Segment-append heap xs ys (heap x).next mid stop s t)

-- The last of a list stands in it.
pub last_or-ne :
    (xs : List ℕ) (p x t : ℕ) → NotIn p (x ∷ xs) → last_or none (x ∷ xs) ≡ some t → t ≢ p
last_or-ne [] p x t h e = λ q. h.0 (some_inj.0 e ∙ q)
last_or-ne (y ∷ ys) p x t h e = last_or-ne ys p y t h.1 e

-- Writing the last process's `next` moves the end of the segment.
pub Segment-set_last :
    (heap : Heap) (xs : List ℕ) (x t : ℕ) (from stop stop' : Option ℕ)
    → Distinct (x ∷ xs)
    → last_or none (x ∷ xs) ≡ some t
    → Segment heap from (x ∷ xs) stop
    → Segment (set_next heap t stop') from (x ∷ xs) stop'
Segment-set_last heap [] x t from stop stop' d e s =
    let at : x ≡ t = some_inj.0 e in
    let same : (set_next heap t stop' x).next ≡ stop' = ground (arith, at) in (s.0, same)
Segment-set_last heap (y ∷ ys) x t from stop stop' d e s =
    let ne : t ≢ x = last_or-ne ys x y t d.0 e in
    let same : (set_next heap t stop' x).next ≡ (heap x).next = ground (arith, ne) in
    (s.0, rw same (Segment-set_last heap ys y t (heap x).next stop stop' d.1 e s.1))

-- A list that starts at NULL is empty.
pub Segment_none : (heap : Heap) (xs : List ℕ) → Segment heap none xs none → xs ≡ []
Segment_none heap [] s = refl
Segment_none heap (x ∷ xs) s = absurd (none-ne-some x s.0)

pub last_or-snoc : (d : Option ℕ) (xs : List ℕ) (p : ℕ) → last_or d (xs ++ p ∷ []) ≡ some p
last_or-snoc d [] p = refl
last_or-snoc d (x ∷ xs) p = last_or-snoc (some x) xs p

pub NotIn-append : (p : ℕ) (xs ys : List ℕ) → NotIn p xs → NotIn p ys → NotIn p (xs ++ ys)
NotIn-append p [] ys a b = b
NotIn-append p (x ∷ xs) ys a b = (a.0, NotIn-append p xs ys a.1 b)

pub Distinct-snoc : (xs : List ℕ) (p : ℕ) → Distinct xs → NotIn p xs → Distinct (xs ++ p ∷ [])
Distinct-snoc [] p d out = (tt, tt)
Distinct-snoc (x ∷ xs) p d out =
    (NotIn-append x xs (p ∷ []) d.0 (λ e. out.0 (sym e), tt), Distinct-snoc xs p d.1 out.1)

pub last_or-some : (xs : List ℕ) (x : ℕ) → (t : ℕ) × (last_or (some x) xs ≡ some t)
last_or-some [] x = (x, refl)
last_or-some (y ∷ ys) x = last_or-some ys y

pub set_next-next : (heap : Heap) (p : ℕ) (n : Option ℕ) → (set_next heap p n p).next ≡ n
set_next-next heap p n = ground arith

pub set_proc-ne :
    (heap : Heap) (p q : ℕ) (v : Proc) → q ≢ p → (set_proc heap p v q).next ≡ (heap q).next
set_proc-ne heap p q v ne = ground arith

pub Segment-split :
    (heap : Heap) (xs ys : List ℕ) (from stop : Option ℕ)
    → Segment heap from (xs ++ ys) stop
    → (mid : Option ℕ) × Segment heap from xs mid × Segment heap mid ys stop
Segment-split heap [] ys from stop s = (from, refl, s)
Segment-split heap (x ∷ xs) ys from stop (a, s) =
    let (mid, t, u) = Segment-split heap xs ys (heap x).next stop s in (mid, (a, t), u)

-- The `next` of a segment's last process is its stop.
pub Segment-next_last :
    (heap : Heap) (xs : List ℕ) (x t : ℕ) (from stop : Option ℕ)
    → last_or (some x) xs ≡ some t
    → Segment heap from (x ∷ xs) stop
    → (heap t).next ≡ stop
Segment-next_last heap [] x t from stop e (a, s) = ap (λ q. (heap q).next) (sym (some_inj.0 e)) ∙ s
Segment-next_last heap (y ∷ ys) x t from stop e (a, s) =
    Segment-next_last heap ys y t (heap x).next stop e s

pub last_or-append :
    (d : Option ℕ) (xs ys : List ℕ) → last_or d (xs ++ ys) ≡ last_or (last_or d xs) ys
last_or-append d [] ys = refl
last_or-append d (x ∷ xs) ys = last_or-append (some x) xs ys

-- No process of the one list stands in the other.
abbrev pub Apart : List ℕ → List ℕ → Type 0
Apart xs ys = All (λ x. NotIn x ys) xs

pub NotIn-last : (p t x : ℕ) (xs : List ℕ) → last_or (some x) xs ≡ some t → NotIn p (x ∷ xs) → t ≢ p
NotIn-last p t x xs e out = last_or-ne xs p x t out e

pub NotIn-first : (p : ℕ) (xs ys : List ℕ) → NotIn p (xs ++ ys) → NotIn p xs × NotIn p ys
NotIn-first p [] ys out = (tt, out)
NotIn-first p (x ∷ xs) ys (ne, out) = let (a, b) = NotIn-first p xs ys out in ((ne, a), b)

-- Distinct processes, cut in two.
pub Distinct-split :
    (xs ys : List ℕ) → Distinct (xs ++ ys) → Distinct xs × Distinct ys × Apart xs ys
Distinct-split [] ys d = (tt, d, tt)
Distinct-split (x ∷ xs) ys (out, d) =
    let (a, b, c) = Distinct-split xs ys d in
    let (u, v) = NotIn-first x xs ys out in ((u, a), b, (v, c))

pub Distinct-join : (xs ys : List ℕ) → Distinct xs → Distinct ys → Apart xs ys → Distinct (xs ++ ys)
Distinct-join [] ys d e a = e
Distinct-join (x ∷ xs) ys d e a = (NotIn-append x xs ys d.0 a.0, Distinct-join xs ys d.1 e a.1)

pub Apart-last :
    (x t : ℕ) (xs ys : List ℕ) → last_or (some x) xs ≡ some t → Apart (x ∷ xs) ys → NotIn t ys
Apart-last x t [] ys e a = rw⁻¹ (some_inj.0 e) a.0
Apart-last x t (y ∷ zs) ys e a = Apart-last y t zs ys e a.1

pub Apart_sym : (xs ys : List ℕ) → Apart xs ys → Apart ys xs
Apart_sym xs [] a = tt
Apart_sym xs (y ∷ ys) a = (heads xs a, Apart_sym xs ys (tails xs a))
  where
    heads : (zs : List ℕ) → Apart zs (y ∷ ys) → NotIn y zs
    heads [] b = tt
    heads (z ∷ zs) b = (λ e. b.0.0 (sym e), heads zs b.1)

    tails : (zs : List ℕ) → Apart zs (y ∷ ys) → Apart zs ys
    tails [] b = tt
    tails (z ∷ zs) b = (b.0.1, tails zs b.1)

pub Apart-first : (ys xs zs : List ℕ) → Apart ys (xs ++ zs) → Apart ys xs × Apart ys zs
Apart-first [] xs zs a = (tt, tt)
Apart-first (y ∷ ys) xs zs a =
    let (b, c) = Apart-first ys xs zs a.1 in
    let (u, v) = NotIn-first y xs zs a.0 in ((u, b), (v, c))
