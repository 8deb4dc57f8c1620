-- ===== src/Vma/Remove.antt =====
-- `vma_remove` of kernel/memory/vma.c.
use hojicha.Vma.{Vma, Vmas, addr_max, range_valid, keep, report, cut, remove_walk, remove}
use hojicha.Vma.Areas.{
  IsArea, From, WellFormed, holds, covers, From-le, covers_below, covers-append,
}
use hojicha.Vma.Insert.{range_valid-IsArea}
use hojicha.Common.{
  ℕ, ◌+◌, ◌-◌, ◌≤◌, ◌<◌, ◌≡◌, refl, Bool, true, false, not, ◌&&◌, Option, none, some, [], ◌∷◌, ◌++◌,
  ltb, leb, ◌==◌, if◌then◌else◌, arith, Bool-cases, inl, inr, ltb→lt, ◌∙◌,
}

-- The addresses that `remove` takes away: those of the range in the area that holds its start.
abbrev pub removed : Vmas → (start end : ℕ) → ℕ → Bool
removed [] start end x = false
removed (v ∷ vs) start end x =
    if holds v start then holds v x && (leb start x && leb x end) else removed vs start end x

removed_below : (low : ℕ) (vs : Vmas) (s e x : ℕ) → From low vs → s < low → removed vs s e x ≡ false
removed_below low [] s e x f h = refl
removed_below low (v ∷ vs) s e x (a, b, c) h =
    ground (arith, removed_below (v.end + 1) vs s e x c, b.ordered)

-- What is removed was covered.
removed-covers : (vs : Vmas) (s e x : ℕ) → covers vs x ≡ false → removed vs s e x ≡ false
removed-covers [] s e x h = refl
removed-covers (v ∷ vs) s e x h = ground (arith, removed-covers vs s e x)

-- What the walk leaves of the areas from `low` on.
abbrev Left : (s e low : ℕ) → Vmas → Option Vmas → Type 0
Left s e low vs none = ⊥
Left s e low vs (some ws) =
    From low ws × ((x : ℕ) → covers ws x ≡ (covers vs x && not (removed vs s e x)))

-- A range of whole pages inside the addresses.
module _ (s e : ℕ)
    (r : IsArea (record { start = s; end = e; access = 0; flags = 0; offset = 0 })) where
  abbrev remove_end : Vma → ℕ
  remove_end v = if ltb e v.end then e else v.end

  abbrev front : Vma → Vma
  front v = record v { end = s - 1 }

  abbrev back : Vma → Vma
  back v = record v { start = e + 1 }

  module _ (v : Vma) (a : IsArea v) (h : holds v s ≡ true) where
    inside : (v.start ≤ s) × (s ≤ v.end)
    inside = ground arith

    front-IsArea : v.start < s → IsArea (front v)
    front-IsArea lt = omega (arith, a.in_range, a.start_aligned, r.start_aligned, inside)

    back-IsArea : e < v.end → IsArea (back v)
    back-IsArea lt = omega (arith, a.in_range, a.end_aligned, r.end_aligned, inside)

    -- The four shapes of the cut.
    abbrev pieces : Vmas
    pieces =
        if s == v.start
        then if ltb e v.end then back v ∷ [] else []
        else if ltb e v.end
        then front v ∷ back v ∷ []
        else front v ∷ []

    cut-pieces : cut true v s (remove_end v) ≡ some pieces
    unfolding cut
    cut-pieces = ground (arith, inside, a.in_range)

    covers-pieces : (x : ℕ) → covers pieces x ≡ (holds v x && not (leb s x && leb x e))
    covers-pieces x = ground (arith, inside, r.ordered)

    pieces-From : (rest : Vmas) → From (v.end + 1) rest → From v.start (pieces ++ rest)
    pieces-From rest f = elim (Bool-cases (s == v.start)) [
      | inl at_start ↦ elim (Bool-cases (ltb e v.end)) [
        | inl part ↦
            rw (at_start, part) (omega (arith, inside, r.ordered), back-IsArea (ltb→lt _ _ part), f)
        | inr all ↦
            rw (at_start, all) (From-le (v.end + 1) v.start rest (omega (arith, a.ordered)) f)
      ]
      | inr later ↦
          let lt : v.start < s = ground (arith, inside) in
          elim (Bool-cases (ltb e v.end)) [
            | inl part ↦
                rw (later, part)
                  (
                    omega arith,
                    front-IsArea lt,
                    (omega (arith, r.ordered), back-IsArea (ltb→lt _ _ part), f),
                  )
            | inr all ↦
                rw (later, all)
                  (
                    omega arith,
                    front-IsArea lt,
                    From-le (v.end + 1) (s - 1 + 1) rest (omega (arith, inside)) f,
                  )
          ]
    ]

  keep-Left :
      (low : ℕ) (v : Vma) (vs : Vmas) (o : Option Vmas)
      → v.end < s
      → low ≤ v.start
      → IsArea v
      → From (v.end + 1) vs
      → Left s e (v.end + 1) vs o
      → Left s e low (v ∷ vs) (keep v o)
  keep-Left low v vs none h a b g l = l
  keep-Left low v vs (some ws) h a b g (f, c) = (
    (a, b, f),
    λ x. ground (arith, c x, covers_below (v.end + 1) vs x g, removed-covers vs s e x),
  )

  remove_walk-Left : (low : ℕ) (vs : Vmas) → From low vs → Left s e low vs (remove_walk true vs s e)
  unfolding remove_walk
  remove_walk-Left low [] f = (tt, λ x. refl)
  remove_walk-Left low (v ∷ vs) (a, b, c) = elim (Bool-cases (ltb v.end s)) [
    | inl past ↦
        rw past (keep-Left low v vs _ (ltb→lt _ _ past) a b c (remove_walk-Left (v.end + 1) vs c))
    | inr here ↦ elim (Bool-cases (ltb s v.start)) [
      | inl before ↦
          rw (here, before)
            ((a, b, c), λ x. ground (arith, removed_below (v.end + 1) vs s e x c, b.ordered))
      | inr hit ↦
          let h : holds v s ≡ true = ground arith in
          rw (here, hit, cut-pieces v b h)
            (
              From-le v.start low (pieces v b h ++ vs) a (pieces-From v b h vs c),
              λ x.
                  covers-append (pieces v b h) vs x
                  ∙ rw h (ground (arith, covers-pieces v b h x, covers_below (v.end + 1) vs x c)),
            )
    ]
  ]

-- What `remove` leaves when memory is at hand.
abbrev pub RemovedIf : Vmas → (start end : ℕ) → (valid : Bool) → Vmas × Bool → Type 0
RemovedIf vs s e valid (ws, done) =
    WellFormed ws
    × (done ≡ valid)
    × ((x : ℕ) → covers ws x ≡ (covers vs x && not (valid && removed vs s e x)))

-- With memory at hand `remove` succeeds exactly on a valid range. It keeps the list well-formed and
-- takes away, of the area that holds the start of the range, the addresses of the range, and no
-- other address; where no area holds the start it changes nothing that is covered.
pub remove-RemovedIf :
    (vs : Vmas) (s e : ℕ)
    → WellFormed vs
    → e ≤ addr_max
    → RemovedIf vs s e (range_valid s e) (remove true vs s e)
unfolding remove
remove-RemovedIf vs s e wf small = elim (Bool-cases (range_valid s e)) [
  | inr bad ↦ rw bad (wf, refl, λ x. ground arith)
  | inl good ↦
      let range : Vma = record { start = s; end = e; access = 0; flags = 0; offset = 0 } in
      rw good (of_walk _ (remove_walk-Left s e (range_valid-IsArea range small good) 0 vs wf))
]
  where
    of_walk : (o : Option Vmas) → Left s e 0 vs o → RemovedIf vs s e true (report vs o)
    of_walk none l = elim l [ ]
    of_walk (some ws) (f, c) = (f, refl, c)
