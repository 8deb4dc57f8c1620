-- ===== src/Vma/Areas.antt =====
-- The well-formed area lists of kernel/memory/vma.c, and the addresses that they cover.
use hojicha.Vma.{Vma, Vmas, addr_max, page_size, overlaps}
use hojicha.Common.{
  ℕ, ◌+◌, ◌%◌, ◌≤◌, ◌<◌, ◌≡◌, Bool, false, ◌&&◌, ◌||◌, [], ◌∷◌, ◌++◌, leb, refl, arith,
}

-- A non-empty range of whole pages.
pub record IsArea (v : Vma) : Type 0 where
  pub ordered : v.start ≤ v.end
  pub in_range : v.end ≤ addr_max
  pub start_aligned : v.start % page_size ≡ 0
  pub end_aligned : (v.end + 1) % page_size ≡ 0

-- The areas lie in ascending order with no overlap, all of them from `low` on.
abbrev pub From : ℕ → Vmas → Type 0
From low [] = Unit
From low (v ∷ vs) = (low ≤ v.start) × IsArea v × From (v.end + 1) vs

-- The invariant of an address space's list.
abbrev pub WellFormed : Vmas → Type 0
WellFormed vs = From 0 vs

abbrev pub holds : Vma → ℕ → Bool
holds v x = leb v.start x && leb x v.end

abbrev pub covers : Vmas → ℕ → Bool
covers [] x = false
covers (v ∷ vs) x = holds v x || covers vs x

-- Some area meets the range.
abbrev pub meets : Vmas → (start end : ℕ) → Bool
meets [] start end = false
meets (v ∷ vs) start end = overlaps v start end || meets vs start end

pub From-le : (low low' : ℕ) (vs : Vmas) → low' ≤ low → From low vs → From low' vs
From-le low low' [] h f = tt
From-le low low' (v ∷ vs) h (a, b, c) = (omega arith, b, c)

-- Nothing below the first area is covered.
pub covers_below : (low : ℕ) (vs : Vmas) (x : ℕ) → From low vs → x < low → covers vs x ≡ false
covers_below low [] x f h = refl
covers_below low (v ∷ vs) x (a, b, c) h = ground (arith, covers_below (v.end + 1) vs x c, b.ordered)

pub meets_below :
    (low : ℕ) (vs : Vmas) (start end : ℕ) → From low vs → end < low → meets vs start end ≡ false
meets_below low [] s e f h = refl
meets_below low (v ∷ vs) s e (a, b, c) h =
    ground (arith, meets_below (v.end + 1) vs s e c, b.ordered)

-- A range that no area meets is not covered anywhere.
pub covers_of_meets :
    (vs : Vmas) (start end x : ℕ)
    → meets vs start end ≡ false
    → start ≤ x
    → x ≤ end
    → covers vs x ≡ false
covers_of_meets [] s e x m p q = refl
covers_of_meets (v ∷ vs) s e x m p q = ground (arith, covers_of_meets vs s e x)

pub covers-append : (vs ws : Vmas) (x : ℕ) → covers (vs ++ ws) x ≡ (covers vs x || covers ws x)
covers-append [] ws x = refl
covers-append (v ∷ vs) ws x = ground (arith, covers-append vs ws x)
