-- ===== src/Vma/Fixed.antt =====
-- `vma_find_free_fixed` and `vma_copy_list` of kernel/memory/vma.c.
use hojicha.Vma.{
  Vma, Vmas, addr_max, page_aligned, fixed_walk, find_free_fixed, insert, insert_walk, copy_from,
  copy_list, clear,
}
use hojicha.Vma.Areas.{IsArea, From, WellFormed, meets, meets_below}
use hojicha.Vma.Insert.{IsArea-range_valid, insert_walk-none}
use hojicha.Vma.Search.{range_fits_lem}
use mathlib.Core.List.{append-nil, append_assoc}
use hojicha.Common.{
  ℕ, ◌+◌, ◌-◌, ◌^◌, ◌≤◌, ◌<◌, ◌≡◌, refl, Bool, true, false, not, ◌&&◌, ◌||◌, none, some, [], ◌∷◌,
  ◌++◌, ltb, leb, ◌==◌, if◌then◌else◌, arith, Bool-cases, inl, inr, ◌⊎◌,
}

fixed_walk-meets :
    (low : ℕ) (vs : Vmas) (s e : ℕ) → From low vs → fixed_walk vs s e ≡ not (meets vs s e)
unfolding fixed_walk
fixed_walk-meets low [] s e f = refl
fixed_walk-meets low (v ∷ vs) s e (a, b, c) =
    ground
      (arith, fixed_walk-meets (v.end + 1) vs s e c, meets_below (v.end + 1) vs s e c, b.ordered)

-- `find_free_fixed` answers the address asked for exactly when it and the length are whole pages,
-- the range lies within [min, max], and no area of the well-formed list meets it. The length is
-- positive and below 2 ^ 64, `min` is at most `max`, and `max` at most `addr_max`.
pub find_free_fixed-exact :
    (vs : Vmas) (addr min max length : ℕ)
    → WellFormed vs
    → 0 < length
    → length < 2 ^ 64
    → min ≤ max
    → max ≤ addr_max
    → find_free_fixed vs addr min max length ≡ (
        if page_aligned addr
          && (page_aligned length
              && (leb min addr
                  && (leb (addr + length - 1) max && not (meets vs addr (addr + length - 1)))))
        then some addr
        else none)
unfolding find_free_fixed
find_free_fixed-exact vs addr min max length wf p q le r =
    let a : (length == 0 || ltb max min) ≡ false = ground arith in
    rw (a, range_fits_lem addr min max length p q r)
      (ground (arith, fixed_walk-meets 0 vs addr (addr + length - 1) wf))

-- The last of a well-formed list lies above the rest.
last_facts :
    (low : ℕ) (vs : Vmas) (node : Vma)
    → From low (vs ++ node ∷ [])
    → (low ≤ node.start) × IsArea node
last_facts low [] node (a, b, c) = (a, b)
last_facts low (v ∷ vs) node (a, b, c) =
    let (d, e) = last_facts (v.end + 1) vs node c in (omega (arith, b.ordered), e)

-- Walking past areas that all end before the node.
insert_walk_last :
    (low : ℕ) (vs : Vmas) (node : Vma)
    → From low (vs ++ node ∷ [])
    → insert_walk true vs node ≡ some (vs ++ node ∷ [])
unfolding insert_walk
insert_walk_last low [] node f = refl
insert_walk_last low (v ∷ vs) node (a, b, c) =
    let (d, e) = last_facts (v.end + 1) vs node c in
    let ih = insert_walk_last (v.end + 1) vs node c in
    let past : ltb v.end node.start ≡ true = ground (arith, d) in
    let room : (v.end == addr_max) ≡ false = ground (arith, d, e.ordered, e.in_range) in
    rw (past, room, ih)

insert_last :
    (vs : Vmas) (v : Vma)
    → WellFormed (vs ++ v ∷ [])
    → insert true vs v.start v.end v.access v.flags v.offset ≡ (vs ++ v ∷ [], true)
unfolding insert
insert_last vs v f = rw (IsArea-range_valid v (last_facts 0 vs v f).1, insert_walk_last 0 vs v f)

From-prefix : (low : ℕ) (vs ws : Vmas) → From low (vs ++ ws) → From low vs
From-prefix low [] ws f = tt
From-prefix low (v ∷ vs) ws (a, b, c) = (a, b, From-prefix (v.end + 1) vs ws c)

insert_no_memory :
    (vs : Vmas) (v : Vma)
    → IsArea v
    → insert false vs v.start v.end v.access v.flags v.offset ≡ (vs, false)
unfolding insert
insert_no_memory vs v a = rw (IsArea-range_valid v a, insert_walk-none v a vs)

clear-nil : (vs : Vmas) → clear vs ≡ []
unfolding clear
clear-nil [] = refl
clear-nil (v ∷ vs) = clear-nil vs

-- A whole copy, or nothing.
abbrev pub CopiesOrClears : Vmas → Vmas × Bool → Type 0
CopiesOrClears src r = (r ≡ (src, true)) ⊎ (r ≡ ([], false))

copy_from-CopiesOrClears :
    (allocated : ℕ → Bool) (n : ℕ) (dst src : Vmas)
    → WellFormed (dst ++ src)
    → CopiesOrClears (dst ++ src) (copy_from allocated n dst src)
unfolding copy_from
copy_from-CopiesOrClears allocated n dst [] f = inl (rw append-nil)
copy_from-CopiesOrClears allocated n dst (v ∷ src) f =
    let f' : WellFormed ((dst ++ v ∷ []) ++ src) = rw append_assoc f in
    let g = From-prefix 0 (dst ++ v ∷ []) src f' in
    elim (Bool-cases (allocated n)) [
      | inl t ↦
          rw (t, insert_last dst v g)
            (rw append_assoc at (copy_from-CopiesOrClears allocated (n + 1) (dst ++ v ∷ []) src f'))
      | inr e ↦ rw (e, insert_no_memory dst v (last_facts 0 dst v g).1) (inr (rw (clear-nil dst)))
    ]

copy_all :
    (allocated : ℕ → Bool) (n : ℕ) (dst src : Vmas)
    → WellFormed (dst ++ src)
    → ((n : ℕ) → allocated n ≡ true)
    → copy_from allocated n dst src ≡ (dst ++ src, true)
unfolding copy_from
copy_all allocated n dst [] f all = rw append-nil
copy_all allocated n dst (v ∷ src) f all =
    let f' : WellFormed ((dst ++ v ∷ []) ++ src) = rw append_assoc f in
    let g = From-prefix 0 (dst ++ v ∷ []) src f' in
    rw (all n, insert_last dst v g)
      (rw append_assoc at (copy_all allocated (n + 1) (dst ++ v ∷ []) src f' all))

-- Copying a well-formed list into an empty one yields the same list and reports success, or, when
-- an allocation fails, reports failure and leaves the destination empty; with every allocation
-- granted it succeeds.
pub copy_list-CopiesOrClears :
    (allocated : ℕ → Bool) (src : Vmas)
    → WellFormed src
    → CopiesOrClears src (copy_list allocated [] src)
      × (((n : ℕ) → allocated n ≡ true) → copy_list allocated [] src ≡ (src, true))
unfolding copy_list
copy_list-CopiesOrClears allocated src f =
    (copy_from-CopiesOrClears allocated 0 [] src f, λ all. copy_all allocated 0 [] src f all)
