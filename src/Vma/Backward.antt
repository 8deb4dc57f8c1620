-- ===== src/Vma/Backward.antt =====
-- `vma_find_free_backward` of kernel/memory/vma.c.
use hojicha.Vma.{
  Vma, Vmas, addr_max, page_size, align_down, sub_addr, add_addr, range_fits, overlaps,
  backward_walk, up_to, find_free_backward, last_candidate,
}
use hojicha.Vma.Areas.{IsArea, From, WellFormed, meets, meets_below}
use hojicha.Vma.Search.{range_fits_lem, Fits}
use hojicha.Common.{
  ℕ, ◌+◌, ◌-◌, ◌%◌, ◌^◌, ◌≤◌, ◌<◌, ◌≡◌, refl, true, false, ◌&&◌, ◌||◌, Option, none, some, [], ◌∷◌,
  ltb, leb, ◌==◌, arith, Bool-cases, inl, inr, ltb→lt, ==→eq, ==→ne, sym, ◌∙◌, dec_lt, ◌⊎◌,
}

-- The areas lie in descending order, all of them below `high`.
abbrev Below : ℕ → Vmas → Type 0
Below high [] = Unit
Below high (v ∷ vs) = (v.end < high) × IsArea v × Below v.start vs

Below-le : (high high' : ℕ) (vs : Vmas) → high ≤ high' → Below high vs → Below high' vs
Below-le high high' [] h f = tt
Below-le high high' (v ∷ vs) h (a, b, c) = (omega arith, b, c)

meets_above : (high : ℕ) (vs : Vmas) (s e : ℕ) → Below high vs → high ≤ s → meets vs s e ≡ false
meets_above high [] s e f h = refl
meets_above high (v ∷ vs) s e (a, b, c) h = ground (arith, meets_above v.start vs s e c, b.ordered)

-- The areas from the first down to `end`, turned round, meet the same ranges up to `end`.
up_to-Below :
    (low : ℕ) (vs : Vmas) (end : ℕ) (before : Vmas)
    → From low vs
    → Below low before
    → (high : ℕ) × Below high (up_to vs end before)
unfolding up_to
up_to-Below low [] end before f b = (low, b)
up_to-Below low (v ∷ vs) end before (p, q, r) b = elim (Bool-cases (leb v.start end)) [
  | inl t ↦ rw t (
      up_to-Below (v.end + 1) vs end (v ∷ before) r
        (omega arith, q, Below-le low v.start before p b))
  | inr f ↦ rw f (low, b)
]

up_to-meets :
    (low : ℕ) (vs : Vmas) (end : ℕ) (before : Vmas) (s e : ℕ)
    → From low vs
    → e ≤ end
    → meets (up_to vs end before) s e ≡ (meets vs s e || meets before s e)
unfolding up_to
up_to-meets low [] end before s e f h = refl
up_to-meets low (v ∷ vs) end before s e (p, q, r) h = elim (Bool-cases (leb v.start end)) [
  | inl t ↦ rw (t, up_to-meets (v.end + 1) vs end (v ∷ before) s e r h) (ground arith)
  | inr f ↦ rw (f, meets_below (v.end + 1) vs s e r (ground (arith, q.ordered))) (ground arith)
]

-- What a search downwards from the page `from` finds: a free range that fits, and no higher page
-- is free; without one, no page down from `from` is free.
abbrev pub LastFit : (min max length : ℕ) → Vmas → (from : ℕ) → Option ℕ → Type 0
LastFit min max length vs from (some a) =
    (a ≤ from)
    × Fits min max length a
    × (a % page_size ≡ 0)
    × (meets vs a (a + length - 1) ≡ false)
    × ((b : ℕ) → b % page_size ≡ 0 → a < b → b ≤ from → meets vs b (b + length - 1) ≡ true)
LastFit min max length vs from none =
    (b : ℕ)
    → b % page_size ≡ 0
    → b ≤ from
    → Fits min max length b
    → meets vs b (b + length - 1) ≡ true

module _ (min max length : ℕ) (p : 0 < length) (q : length < 2 ^ 64) (r : max ≤ addr_max)
    (al : length % page_size ≡ 0) (mal : min % page_size ≡ 0) where
  -- An area that meets the pages from above `c'` up to `c`, and none from `c'` down, is passed by.
  retreat :
      (v : Vma) (vs : Vmas) (c c' : ℕ) (o : Option ℕ)
      → c' + length - 1 < v.start
      → c' ≤ c
      → ((b : ℕ) → b % page_size ≡ 0 → c' < b → b ≤ c → overlaps v b (b + length - 1) ≡ true)
      → LastFit min max length vs c' o
      → LastFit min max length (v ∷ vs) c o
  retreat v vs c c' none h k m l = λ b ba t fit. elim (dec_lt c' b) [
    | yes high ↦ rw (m b ba high t)
    | no low ↦ let le : b ≤ c' = omega arith in ground (arith, l b ba le fit)
  ]
  retreat v vs c c' (some a) h k m (l₀, l₁, l₂, l₃, l₄) = (
    omega arith,
    l₁,
    l₂,
    ground (arith, l₃),
    λ b ba lt t. elim (dec_lt c' b) [
      | yes high ↦ rw (m b ba high t)
      | no low ↦ let le : b ≤ c' = omega arith in ground (arith, l₄ b ba lt le)
    ],
  )

  fits_lem : (c : ℕ) → Fits min max length c → range_fits c min max length ≡ some (c + length - 1)
  fits_lem c f = rw (range_fits_lem c min max length p q r) (ground arith)

  -- The next candidate ends just below the area that stood in the way.
  lower :
      (v : Vma)
      → IsArea v
      → length ≤ v.start
      → let c' = align_down (sub_addr v.start length) in
        (c' ≡ v.start - length)
        × (c' + length ≡ v.start)
        × (c' + length - 1 < v.start)
        × (c' % page_size ≡ 0)
  lower v area h =
      let d : sub_addr v.start length ≡ v.start - length =
        omega (arith, area.in_range, area.ordered) in
      let m : (v.start - length) % page_size ≡ 0 = omega (arith, area.start_aligned) in
      let e : align_down (sub_addr v.start length) ≡ v.start - length = rw d (omega arith) in
      (e, omega arith, omega arith, rw e m)

  backward_walk-LastFit :
      (high : ℕ) (vs : Vmas) (c : ℕ)
      → Below high vs
      → c % page_size ≡ 0
      → Fits min max length c
      → LastFit min max length vs c (backward_walk vs c min max length)
  unfolding backward_walk
  backward_walk-LastFit high [] c f ca fit =
      let done : LastFit min max length [] c (some c) =
        (omega arith, fit, ca, refl, λ b ba h k. absurd (omega arith)) in
      rw (fits_lem c fit, LastFit) done
  backward_walk-LastFit high (v ∷ vs) c (a, area, f) ca fit =
      rw (fits_lem c fit, LastFit)
        (elim (Bool-cases (ltb (c + length - 1) v.start)) [
          | inl above ↦ rw above (
              retreat v vs c c _ (ltb→lt _ _ above) (omega arith) (λ b ba h k. absurd (omega arith))
                (backward_walk-LastFit v.start vs c f ca fit))
          | inr here ↦ elim (Bool-cases (ltb v.end c)) [
            | inl free ↦
                let e : meets vs c (c + length - 1) ≡ false =
                  meets_above v.start vs c (c + length - 1) f (ground (arith, area.ordered)) in
                rw (here, free)
                  (omega arith, fit, ca, rw e (ground arith), λ b ba h k. absurd (omega arith))
            | inr met ↦ elim (Bool-cases (leb v.start min)) [
              | inl low ↦ rw (here, met, low) (λ b ba h k. ground arith)
              | inr high ↦ elim (Bool-cases (ltb (v.start - min) length)) [
                | inl tight ↦ rw (here, met, high, tight) (λ b ba h k. ground arith)
                | inr room ↦
                    let c' = align_down (sub_addr v.start length) in
                    let (e, low, last, ca') = lower v area (ground arith) in
                    let fits : min + length ≤ v.start = ground (arith, high, room) in
                    let fit' : Fits min max length c' =
                      (omega (arith, e), ground (arith, here, last, fit)) in
                    rw (here, met, high, room)
                      (retreat v vs c c' _ last (ground (arith, here, last))
                        (λ b ba h k. ground (arith, e, met))
                        (backward_walk-LastFit v.start vs c' f ca' fit'))
              ]
            ]
          ]
        ])

-- `c` is the page that a downward search starts at.
abbrev pub IsLastCandidate : (hint max length c : ℕ) → Type 0
IsLastCandidate hint max length c =
    (c % page_size ≡ 0)
    × (c + length - 1 ≤ max)
    × ((hint ≡ 0) ⊎ (c ≤ hint))
    × ((d : ℕ) → d % page_size ≡ 0 → d + length - 1 ≤ max → (hint ≡ 0) ⊎ (d ≤ hint) → d ≤ c)

highest_lem :
    (max length : ℕ)
    → 0 < length
    → length - 1 ≤ max
    → max ≤ addr_max
    → add_addr (sub_addr max length) 1 ≡ max + 1 - length
highest_lem max length p q r = omega arith

ltb_irrefl : (a : ℕ) → ltb a a ≡ false
ltb_irrefl a = ground arith

last_candidate_lem :
    (hint max length : ℕ)
    → 0 < length
    → length - 1 ≤ max
    → max ≤ addr_max
    → IsLastCandidate hint max length (last_candidate hint max length)
unfolding last_candidate
last_candidate_lem hint max length p q r =
    rw (highest_lem max length p q r) (elim (Bool-cases (hint == 0)) [
      | inl z ↦
          rw (z, ltb_irrefl) (omega arith, omega arith, inl (==→eq _ _ z), λ d m k g. omega arith)
      | inr n ↦
          let ne = ==→ne _ _ n in
          rw n (elim (Bool-cases (ltb (align_down (max + 1 - length)) (align_down hint))) [
            | inl lt ↦
                let le = ltb→lt _ _ lt in
                rw lt (omega arith, omega arith, inr (omega arith), λ d m k g. omega arith)
            | inr ge ↦
                let le : align_down hint ≤ align_down (max + 1 - length) = ground (arith, ge) in
                rw ge (omega arith, omega arith, inr (omega arith), λ d m k g. omega arith)
          ])
    ])

-- A range that ends by `end` meets the list just where it meets the part up to `end`.
LastFit-up_to :
    (min max length : ℕ) (vs : Vmas) (c : ℕ) (o : Option ℕ)
    → WellFormed vs
    → LastFit min max length (up_to vs (c + length - 1) []) c o
    → LastFit min max length vs c o
LastFit-up_to min max length vs c o wf l = go o l
  where
    same :
        (b : ℕ)
        → b ≤ c
        → meets (up_to vs (c + length - 1) []) b (b + length - 1) ≡ meets vs b (b + length - 1)
    same b h = ground (arith, up_to-meets 0 vs (c + length - 1) [] b (b + length - 1) wf)

    go :
        (o : Option ℕ)
        → LastFit min max length (up_to vs (c + length - 1) []) c o
        → LastFit min max length vs c o
    go none l = λ b m h f. sym (same b h) ∙ l b m h f
    go (some a) (l₀, l₁, l₂, l₃, l₄) =
        (l₀, l₁, l₂, sym (same a l₀) ∙ l₃, λ b m h k. sym (same b k) ∙ l₄ b m h k)

-- What the backward search answers: the highest free page-aligned range that fits below the hint.
abbrev pub HighestFree : Vmas → (hint min max length : ℕ) → Option ℕ → Type 0
HighestFree vs hint min max length o =
    (c : ℕ) × IsLastCandidate hint max length c × LastFit min max length vs c o

-- `find_free_backward` starts at the highest page from which `length` bytes end within `max`, at
-- or below the hint unless that is zero, and returns the highest page-aligned address from there
-- down whose range lies within [min, max] and meets no area; if it fails, every page from there
-- down whose range fits meets an area. The list is well-formed, `length` is a positive number of
-- whole pages that fits between `min` and `max`, and `min` is a page.
pub find_free_backward-HighestFree :
    (vs : Vmas) (hint min max length : ℕ)
    → WellFormed vs
    → 0 < length
    → length < 2 ^ 64
    → length % page_size ≡ 0
    → min % page_size ≡ 0
    → min ≤ max
    → length - 1 ≤ max - min
    → max ≤ addr_max
    → HighestFree vs hint min max length (find_free_backward vs hint min max length)
unfolding find_free_backward
find_free_backward-HighestFree vs hint min max length wf p q al mal le room r =
    let facts = last_candidate_lem hint max length p (omega arith) r in
    let a : (length == 0 || ltb max min) ≡ false = ground arith in
    let b : (length % page_size == 0) ≡ true = ground arith in
    let d : ltb (max - min) (length - 1) ≡ false = ground arith in
    (
      last_candidate hint max length,
      facts,
      rw (a, b, d) (main (Bool-cases (leb min c && leb (c + length - 1) max)) facts),
    )
  where
    c : ℕ
    c = last_candidate hint max length

    main :
        ((leb min c && leb (c + length - 1) max) ≡ true)
          ⊎ ((leb min c && leb (c + length - 1) max) ≡ false)
        → IsLastCandidate hint max length c
        → LastFit min max length vs c (elim (range_fits c min max length) [
          | none ↦ none
          | some end ↦ backward_walk (up_to vs end []) c min max length
        ])
    main (inr tight) (f₀, f₁, f₂, f₃) =
        rw (range_fits_lem c min max length p q r, tight, LastFit)
          (λ b m h fit. absurd (ground (arith, tight, f₁, fit)))
    main (inl fits) (f₀, f₁, f₂, f₃) =
        let (high, below) = up_to-Below 0 vs (c + length - 1) [] wf tt in
        rw (range_fits_lem c min max length p q r, fits, LastFit)
          (LastFit-up_to min max length vs c _ wf (
            backward_walk-LastFit min max length p q r al mal high _ c below f₀
              (ground (arith, fits), f₁)))
