-- ===== src/Vma/Insert.antt =====
-- `vma_insert` of kernel/memory/vma.c.
use hojicha.Vma.{Vma, Vmas, addr_max, range_valid, overlaps, keep, report, insert_walk, insert}
use hojicha.Vma.Areas.{IsArea, From, WellFormed, holds, covers, meets, meets_below}
use hojicha.Common.{
  ℕ, ◌+◌, ◌≤◌, ◌<◌, ◌≡◌, refl, Bool, true, false, not, ◌&&◌, ◌||◌, Option, none, some, [], ◌∷◌, ltb,
  leb, ◌==◌, arith, Bool-cases, inl, inr, Option, ltb→lt,
}

-- The range test is exact: it accepts the non-empty ranges of whole pages.
pub range_valid-IsArea : (v : Vma) → v.end ≤ addr_max → range_valid v.start v.end ≡ true → IsArea v
unfolding range_valid
range_valid-IsArea v h e = ground arith

pub IsArea-range_valid : (v : Vma) → IsArea v → range_valid v.start v.end ≡ true
unfolding range_valid
IsArea-range_valid v a = ground (arith, a.ordered, a.in_range, a.start_aligned, a.end_aligned)

-- Where no area meets the new one, the walk links it in at its place.
abbrev Links : Vma → ℕ → Vmas → Option Vmas → Type 0
Links node low vs none = meets vs node.start node.end ≡ true
Links node low vs (some ws) =
    (meets vs node.start node.end ≡ false)
    × From low ws
    × ((x : ℕ) → covers ws x ≡ (covers vs x || holds node x))

module _ (node : Vma) (area : IsArea node) where
  keep-Links :
      (low : ℕ) (v : Vma) (vs : Vmas) (o : Option Vmas)
      → v.end < node.start
      → low ≤ v.start
      → IsArea v
      → Links node (v.end + 1) vs o
      → Links node low (v ∷ vs) (keep v o)
  keep-Links low v vs none h a b l = ground (arith, l)
  keep-Links low v vs (some ws) h a b (m, f, c) =
      (ground (arith, area.ordered), (a, b, f), λ x. ground (arith, c x))

  insert_walk-Links :
      (low : ℕ) (vs : Vmas)
      → low ≤ node.start
      → From low vs
      → Links node low vs (insert_walk true vs node)
  unfolding insert_walk
  insert_walk-Links low [] h f = (refl, (h, area, tt), λ x. ground arith)
  insert_walk-Links low (v ∷ vs) h (a, b, c) = elim (Bool-cases (ltb v.end node.start)) [
    | inl past ↦
        let room : (v.end == addr_max) ≡ false = ground (arith, area.ordered, area.in_range) in
        rw (past, room)
          (keep-Links low v vs _ (ltb→lt _ _ past) a b
            (insert_walk-Links (v.end + 1) vs (omega (arith, ltb→lt _ _ past)) c))
    | inr here ↦ elim (Bool-cases (overlaps v node.start node.end)) [
      | inl met ↦ rw (here, met) (rw met)
      | inr apart ↦
          let below : node.end < v.start = ground (arith, area.ordered) in
          rw (here, apart)
            (rw (apart, meets_below (v.end + 1) vs node.start node.end c (omega (arith, b.ordered)))
              (refl, (h, area, (omega arith, b, c)), λ x. ground arith))
    ]
  ]

  -- Without memory the walk never links.
  pub insert_walk-none : (vs : Vmas) → insert_walk false vs node ≡ none
  unfolding insert_walk
  insert_walk-none [] = refl
  insert_walk-none (v ∷ vs) = rw (insert_walk-none vs) (ground arith)

-- What `insert` answers, and the list that it leaves, for a range that is valid or not.
abbrev pub InsertedIf : Vmas → (start end : ℕ) → (allocated valid : Bool) → Vmas × Bool → Type 0
InsertedIf vs s e allocated valid (ws, done) =
    WellFormed ws
    × (done ≡ (allocated && (valid && not (meets vs s e))))
    × ((x : ℕ) → covers ws x ≡ (covers vs x || (done && (leb s x && leb x e))))

module _ (vs : Vmas) (new : Vma) (wf : WellFormed vs) where
  insert_of_walk :
      (o : Option Vmas) → Links new 0 vs o → InsertedIf vs new.start new.end true true (report vs o)
  insert_of_walk none l = rw l (wf, refl, λ x. ground arith)
  insert_of_walk (some ws) (m, f, c) = rw m (f, refl, c)

  insert_by_memory :
      (allocated : Bool)
      → IsArea new
      → InsertedIf vs new.start new.end allocated true (report vs (insert_walk allocated vs new))
  insert_by_memory true area = insert_of_walk _ (insert_walk-Links new area 0 vs (omega arith) wf)
  insert_by_memory false area = rw (insert_walk-none new area vs) (wf, refl, λ x. ground arith)

-- `insert` keeps the list well-formed. It succeeds exactly when memory is at hand, the range is
-- valid and no area meets it; it then covers the addresses of the range as well, and otherwise
-- covers what it did before. The range ends at a 64-bit address.
pub insert-InsertedIf :
    (allocated : Bool) (vs : Vmas) (s e access flags offset : ℕ)
    → WellFormed vs
    → e ≤ addr_max
    → InsertedIf vs s e allocated (range_valid s e) (insert allocated vs s e access flags offset)
unfolding insert
insert-InsertedIf allocated vs s e access flags offset wf small =
    let new : Vma = record {
      start = s;
      end = e;
      access = access;
      flags = flags;
      offset = offset;
    } in
    elim (Bool-cases (range_valid s e)) [
      | inr bad ↦ rw bad (wf, ground arith, λ x. ground arith)
      | inl good ↦
          rw good (insert_by_memory vs new wf allocated (range_valid-IsArea new small good))
    ]
