-- ===== src/Vma/Search.antt =====
-- The upward searches for a free range in kernel/memory/vma.c.
use hojicha.Vma.{
  Vma, Vmas, addr_max, page_size, add_addr, page_aligned, align_up, range_fits, overlaps,
  forward_walk, first_candidate, find_free_forward,
}
use hojicha.Vma.Areas.{From, WellFormed, meets, meets_below}
use hojicha.Common.{
  ℕ, ◌+◌, ◌-◌, ◌%◌, ◌^◌, ◌≤◌, ◌<◌, ◌≡◌, refl, true, false, ◌&&◌, ◌||◌, Option, none, some, [], ◌∷◌,
  ltb, leb, ◌==◌, if◌then◌else◌, arith, Bool-cases, inl, inr, ltb→lt, dec_lt,
}

-- The range of `length` addresses from `a` on lies inside [min, max].
abbrev pub Fits : (min max length a : ℕ) → Type 0
Fits min max length a = (min ≤ a) × (a + length - 1 ≤ max)

-- `range_fits` is exact and gives the last address.
pub range_fits_lem :
    (a min max length : ℕ)
    → 0 < length
    → length < 2 ^ 64
    → max ≤ addr_max
    → range_fits a min max length
      ≡ (if leb min a && leb (a + length - 1) max then some (a + length - 1) else none)
unfolding range_fits
range_fits_lem a min max length p q r = elim (Bool-cases (leb a addr_max)) [
  | inl ok ↦ ground (arith, ok)
  | inr bad ↦ ground (arith, bad)
]

-- What the walk from a candidate finds: a free range that fits, and no free one that fits lies
-- from the candidate up to it on the candidates' grid; without one, no such range is free.
abbrev pub FirstFit : (min max length : ℕ) → Vmas → (from : ℕ) → Option ℕ → Type 0
FirstFit min max length vs from (some a) =
    (from ≤ a)
    × Fits min max length a
    × (a % page_size ≡ 0)
    × (meets vs a (a + length - 1) ≡ false)
    × ((b : ℕ) → from ≤ b → b < a → meets vs b (b + length - 1) ≡ true)
FirstFit min max length vs from none =
    (b : ℕ) → from ≤ b → Fits min max length b → meets vs b (b + length - 1) ≡ true

module _ (min max length : ℕ) (p : 0 < length) (q : length < 2 ^ 64) (r : max ≤ addr_max) where
  -- An area that meets every range from `c` up to `c'` and none from there on is passed by.
  advance :
      (v : Vma) (vs : Vmas) (c c' : ℕ) (o : Option ℕ)
      → v.end < c'
      → c ≤ c'
      → ((b : ℕ) → c ≤ b → b < c' → overlaps v b (b + length - 1) ≡ true)
      → FirstFit min max length vs c' o
      → FirstFit min max length (v ∷ vs) c o
  advance v vs c c' none h k m l = λ b g fit. elim (dec_lt b c') [
    | yes early ↦ rw (m b g early)
    | no late ↦ ground (arith, l b (omega arith) fit)
  ]
  advance v vs c c' (some a) h k m (l₀, l₁, al, l₂, l₃) = (
    omega arith,
    l₁,
    al,
    ground (arith, l₂),
    λ b g lt. elim (dec_lt b c') [
      | yes early ↦ rw (m b g early)
      | no late ↦ let from : c' ≤ b = omega arith in ground (arith, l₃ b from lt)
    ],
  )

  -- No range fits above an area that leaves no room.
  no_room :
      (v : Vma) (vs : Vmas) (c : ℕ)
      → ((b : ℕ) → c ≤ b → Fits min max length b → overlaps v b (b + length - 1) ≡ true)
      → FirstFit min max length (v ∷ vs) c none
  no_room v vs c m = λ b g fit. rw (m b g fit)

  -- The walk goes on above the area that stands in the way, if the range still fits there.
  resume :
      (v : Vma) (vs : Vmas) (c n : ℕ)
      → n ≡ v.end + 1
      → c ≤ v.end
      → v.start ≤ c + length - 1
      → min ≤ n
      → (Fits min max length n
          → FirstFit min max length vs n (forward_walk vs n (n + length - 1) min max length))
      → FirstFit min max length (v ∷ vs) c (elim (range_fits n min max length) [
        | none ↦ none
        | some end ↦ forward_walk vs n end min max length
      ])
  resume v vs c n e h k m rec = elim (Bool-cases (leb min n && leb (n + length - 1) max)) [
    | inr tight ↦
        rw (range_fits_lem n min max length p q r, tight) (no_room v vs c (λ b g fit. ground arith))
    | inl fits ↦
        rw (range_fits_lem n min max length p q r, fits)
          (advance v vs c n _ (omega arith) (omega arith) (λ b g t. ground arith)
            (rec (ground arith, ground arith)))
  ]

  forward_walk-FirstFit :
      (low : ℕ) (vs : Vmas) (c : ℕ)
      → From low vs
      → c % page_size ≡ 0
      → Fits min max length c
      → FirstFit min max length vs c (forward_walk vs c (c + length - 1) min max length)
  unfolding forward_walk
  forward_walk-FirstFit low [] c f al (g₀, g₁) =
      (omega arith, (g₀, g₁), al, refl, λ b h k. absurd (omega arith))
  forward_walk-FirstFit low (v ∷ vs) c (a, area, f) al (g₀, g₁) = elim (Bool-cases (ltb v.end c)) [
    | inl past ↦ rw past (
        advance v vs c c _ (ltb→lt _ _ past) (omega arith) (λ b h k. absurd (omega arith))
          (forward_walk-FirstFit (v.end + 1) vs c f al (g₀, g₁)))
    | inr here ↦ elim (Bool-cases (ltb (c + length - 1) v.start)) [
      | inl free ↦
          let e : meets vs c (c + length - 1) ≡ false =
            meets_below (v.end + 1) vs c (c + length - 1) f (ground (arith, area.ordered)) in
          rw (here, free)
            (omega arith, (g₀, g₁), al, rw e (ground arith), λ b h k. absurd (omega arith))
      | inr met ↦ elim (Bool-cases (v.end == addr_max)) [
        | inl top ↦ rw (here, met, top) (no_room v vs c (λ b h fit. ground arith))
        | inr below ↦
            let next : add_addr v.end 1 ≡ v.end + 1 = ground (arith, area.in_range) in
            rw (here, met, below)
              (resume v vs c (add_addr v.end 1) (omega arith) (ground arith)
                (ground (arith, area.ordered)) (ground (arith, g₀, here))
                (forward_walk-FirstFit (v.end + 1) vs (add_addr v.end 1) f
                  (rw next area.end_aligned)))
      ]
    ]
  ]

-- The first candidate is the least page at or above both the hint and `min`.
pub first_candidate_lem :
    (hint min : ℕ)
    → min % page_size ≡ 0
    → hint ≤ addr_max - (page_size - 1)
    → (c : ℕ) × (first_candidate hint min ≡ some c)
      × (c % page_size ≡ 0)
      × (min ≤ c)
      × (hint ≤ c)
      × ((d : ℕ) → d % page_size ≡ 0 → min ≤ d → hint ≤ d → c ≤ d)
unfolding first_candidate
first_candidate_lem hint min a h = elim (Bool-cases (hint == 0)) [
  | inl z ↦ (min, ground (arith, z), a, omega arith, ground (arith, z), λ d p q r. q)
  | inr pos ↦ elim (Bool-cases (page_aligned hint)) [
    | inl al ↦ (
      (if ltb hint min then min else hint),
      ground (arith, pos, al),
      ground (arith, al),
      ground arith,
      ground arith,
      λ d p q r. ground arith,
    )
    | inr un ↦ (
      (if ltb (align_up hint) min then min else align_up hint),
      ground (arith, pos, un),
      ground arith,
      ground arith,
      ground arith,
      λ d p q r. ground arith,
    )
  ]
]

-- What the forward search answers: the lowest free range that fits, at or above the first
-- candidate, or that no range there is free.
abbrev pub LowestFree : Vmas → (hint min max length : ℕ) → Option ℕ → Type 0
LowestFree vs hint min max length o =
    (c : ℕ) × (c % page_size ≡ 0)
    × (min ≤ c)
    × (hint ≤ c)
    × ((d : ℕ) → d % page_size ≡ 0 → min ≤ d → hint ≤ d → c ≤ d)
    × FirstFit min max length vs c o

-- `find_free_forward` starts at the least page at or above the hint and `min`, and returns the
-- lowest page-aligned address from there on whose range of `length` bytes lies within [min, max]
-- and meets no area; if it fails, every range from there on that fits meets an area. The list is
-- well-formed, `length` is a positive number of whole pages, `min` is a page, and the hint leaves
-- room to be rounded up.
pub find_free_forward-LowestFree :
    (vs : Vmas) (hint min max length : ℕ)
    → WellFormed vs
    → 0 < length
    → length < 2 ^ 64
    → length % page_size ≡ 0
    → min % page_size ≡ 0
    → min ≤ max
    → max ≤ addr_max
    → hint ≤ addr_max - (page_size - 1)
    → LowestFree vs hint min max length (find_free_forward vs hint min max length)
unfolding find_free_forward
find_free_forward-LowestFree vs hint min max length wf p q al mal le r hh =
    let (c, e, ca, cm, ch, least) = first_candidate_lem hint min mal hh in
    let a : (length == 0 || ltb max min) ≡ false = ground arith in
    let b : (length % page_size == 0) ≡ true = ground arith in
    (
      c,
      ca,
      cm,
      ch,
      least,
      rw (a, b, e, range_fits_lem c min max length p q r)
          (elim (Bool-cases (leb min c && leb (c + length - 1) max)) [
            | inl fits ↦
                rw fits (
                  forward_walk-FirstFit min max length p q r 0 vs c wf ca
                    (cm, ground (arith, fits)))
            | inr tight ↦ rw tight (λ b h fit. absurd (ground (arith, tight, cm, fit)))
          ]),
    )
