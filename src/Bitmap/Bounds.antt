-- ===== src/Bitmap/Bounds.antt =====
-- The bounds that kernel/utils/bitmap.c keeps: every clear bit lies between them, and each bound is
-- itself a clear bit while one is left.
use hojicha.Bitmap.{
  Bitmap, exhausted, no_bounds, find_clear_forward, find_clear_backward, lower_high, refresh_high,
  raise_low, refresh_bounds_after_set,
}
use hojicha.Bitmap.Scan.{
  bit, IsBytes, Ascending, Descending, find_clear_forward-Ascending, find_clear_backward-Descending,
  find_clear_forward-none,
}
use hojicha.Common.{
  ℕ, ◌+◌, ◌-◌, ◌≤◌, ◌<◌, ◌≡◌, refl, ◌⊎◌, inl, inr, true, false, Option, none, some, ltb, ◌==◌,
  arith, Bool-cases, dec_lt, ==→eq, ==→ne, ◌≢◌, ap, sym, ℕ_discrete,
}

abbrev pub Encloses : Bitmap → Type 0
Encloses bm =
    (i : ℕ)
    → i < bm.bit_count
    → bit bm i ≡ false
    → (bm.lowest_clear_idx ≤ i) × (i ≤ bm.highest_clear_idx)

abbrev pub IsTight : Bitmap → Type 0
IsTight bm =
    ((bm.lowest_clear_idx ≡ bm.bit_count) × (bm.highest_clear_idx ≡ bm.bit_count))
    ⊎ ((bm.lowest_clear_idx < bm.bit_count)
        × (bm.highest_clear_idx < bm.bit_count)
        × (bit bm bm.lowest_clear_idx ≡ false)
        × (bit bm bm.highest_clear_idx ≡ false))

abbrev pub IsBounded : Bitmap → Type 0
IsBounded bm = Encloses bm × IsTight bm

-- No clear bit at all: the bounds may be given up.
exhausted-IsBounded :
    (bm : Bitmap) → ((i : ℕ) → i < bm.bit_count → bit bm i ≡ true) → IsBounded (exhausted bm)
exhausted-IsBounded bm h = (λ i p q. absurd (ground (arith, h i)), inl (refl, refl))

-- Bit `idx` has just been set; each bound is a clear bit, unless it is `idx`.
pub record Ready (bm : Bitmap) (idx : ℕ) : Type 0 where
  pub bytes : IsBytes bm
  pub encloses : Encloses bm
  pub low_lt : bm.lowest_clear_idx < bm.bit_count
  pub high_lt : bm.highest_clear_idx < bm.bit_count
  pub low_clear : bm.lowest_clear_idx ≢ idx → bit bm bm.lowest_clear_idx ≡ false
  pub high_clear : bm.highest_clear_idx ≢ idx → bit bm bm.highest_clear_idx ≡ false
  pub idx_set : bit bm idx ≡ true

module _ (bm : Bitmap) (idx : ℕ) (r : Ready bm idx) (low_ne : bm.lowest_clear_idx ≢ idx) where
  open r use {bytes, encloses, low_lt, high_lt, low_clear, high_clear, idx_set}

  low_le : bm.lowest_clear_idx ≤ bm.highest_clear_idx
  low_le = (encloses bm.lowest_clear_idx low_lt (low_clear low_ne)).1

  lower_high-IsBounded :
      (o : Option ℕ)
      → idx ≡ bm.highest_clear_idx
      → Descending bm bm.lowest_clear_idx (idx - 1) o
      → IsBounded (lower_high bm o)
  unfolding lower_high
  lower_high-IsBounded none e miss = exhausted-IsBounded bm λ i p. elim (Bool-cases (bit bm i)) [
    | inl t ↦ t
    | inr f ↦ elim (ℕ_discrete i idx) [
      | yes q ↦ rw q idx_set
      | no q ↦ let (a, b) = encloses i p f in miss i a (omega arith)
    ]
  ]
  lower_high-IsBounded (some prev) e (a, b, c, above) = (
    λ i p f. (
      (encloses i p f).0,
      elim (dec_lt prev i) [
        | no q ↦ omega arith
        | yes q ↦ elim (ℕ_discrete i idx) [
          | yes t ↦ absurd (ground (arith, idx_set, ap (bit bm) t))
          | no t ↦
              let top : i ≤ idx - 1 = omega (arith, (encloses i p f).1) in
              absurd (ground (arith, above i q top))
        ]
      ],
    ),
    inr (low_lt, omega arith, low_clear low_ne, c),
  )

  refresh_high-IsBounded : IsBounded (refresh_high bm idx)
  unfolding refresh_high
  refresh_high-IsBounded = elim (Bool-cases (idx == bm.highest_clear_idx)) [
    | inl last ↦
        let e : idx ≡ bm.highest_clear_idx = ==→eq _ _ last in
        let pos : ltb 0 idx ≡ true = ground (arith, low_le) in
        rw (last, pos)
          (lower_high-IsBounded _ e (
            find_clear_backward-Descending bm (idx - 1) bm.lowest_clear_idx bytes
              (omega (arith, low_le)) (omega arith)))
    | inr other ↦ rw other (
      encloses,
      inr (low_lt, high_lt, low_clear low_ne, high_clear (λ e. ==→ne _ _ other (sym e))),
    )
  ]

-- The lowest clear bit has been set: the next one, if any, takes its place.
module _ (bm : Bitmap) (idx : ℕ) (r : Ready bm idx) (low_eq : bm.lowest_clear_idx ≡ idx) where
  open r use {bytes, encloses, low_lt, high_lt, low_clear, high_clear, idx_set}

  none_left :
      ((y : ℕ) → idx + 1 ≤ y → y ≤ bm.highest_clear_idx → bit bm y ≡ true)
      → (i : ℕ) → i < bm.bit_count
      → bit bm i ≡ true
  none_left miss i p = elim (Bool-cases (bit bm i)) [
    | inl t ↦ t
    | inr f ↦ elim (ℕ_discrete i idx) [
      | yes q ↦ rw q idx_set
      | no q ↦ let (a, b) = encloses i p f in miss i (omega arith) b
    ]
  ]

  raise_low-IsBounded :
      (o : Option ℕ)
      → Ascending bm (idx + 1) bm.highest_clear_idx o
      → IsBounded (raise_low bm idx o)
  unfolding raise_low
  raise_low-IsBounded none miss = exhausted-IsBounded bm (none_left miss)
  raise_low-IsBounded (some next) (a, b, c, below) =
      refresh_high-IsBounded (record bm { lowest_clear_idx = next }) idx
        (record {
          bytes = bytes;
          encloses = λ i p f. (
            elim (dec_lt i next) [
              | no q ↦ omega arith
              | yes q ↦ elim (ℕ_discrete i idx) [
                | yes t ↦ absurd (ground (arith, idx_set, ap (bit bm) t))
                | no t ↦
                    let from : idx + 1 ≤ i = omega (arith, (encloses i p f).0) in
                    absurd (ground (arith, below i from q))
              ]
            ],
            (encloses i p f).1,
          );
          low_lt = omega arith;
          high_lt = high_lt;
          low_clear = λ _. c;
          high_clear = high_clear;
          idx_set = idx_set;
        })
        (omega arith)

  raise_low_found :
      IsBounded (raise_low bm idx (find_clear_forward bm (idx + 1) bm.highest_clear_idx))
  raise_low_found = elim (dec_lt bm.highest_clear_idx (idx + 1)) [
    | yes q ↦
        rw (find_clear_forward-none bm (idx + 1) bm.highest_clear_idx bytes q)
          (raise_low-IsBounded none (λ y l u. absurd (omega arith)))
    | no q ↦
        raise_low-IsBounded _ (
          find_clear_forward-Ascending bm (idx + 1) bm.highest_clear_idx bytes (omega arith)
            high_lt)
  ]

-- The refresh after a set puts both bounds right again.
pub refresh-IsBounded :
    (bm : Bitmap) (idx : ℕ) → Ready bm idx → IsBounded (refresh_bounds_after_set bm idx)
unfolding refresh_bounds_after_set
refresh-IsBounded bm idx r =
    let a : no_bounds bm ≡ false = ground (arith, r.low_lt, r.high_lt) in
    rw a (elim (Bool-cases (idx == bm.lowest_clear_idx)) [
      | inl e ↦ rw e (raise_low_found bm idx r (sym (==→eq _ _ e)))
      | inr ne ↦ rw ne (refresh_high-IsBounded bm idx r (λ e. ==→ne _ _ ne (sym e)))
    ])

-- The refresh moves the bounds and nothing else.
lower_high_keeps :
    (bm : Bitmap) (o : Option ℕ)
    → ((lower_high bm o).storage ≡ bm.storage)
      × ((lower_high bm o).bit_count ≡ bm.bit_count)
      × ((lower_high bm o).present ≡ bm.present)
unfolding lower_high
lower_high_keeps bm none = (refl, refl, refl)
lower_high_keeps bm (some prev) = (refl, refl, refl)

refresh_high_keeps :
    (bm : Bitmap) (idx : ℕ)
    → ((refresh_high bm idx).storage ≡ bm.storage)
      × ((refresh_high bm idx).bit_count ≡ bm.bit_count)
      × ((refresh_high bm idx).present ≡ bm.present)
unfolding refresh_high
refresh_high_keeps bm idx =
    ground (arith, lower_high_keeps bm (find_clear_backward bm (idx - 1) bm.lowest_clear_idx))

raise_low_keeps :
    (bm : Bitmap) (idx : ℕ) (o : Option ℕ)
    → ((raise_low bm idx o).storage ≡ bm.storage)
      × ((raise_low bm idx o).bit_count ≡ bm.bit_count)
      × ((raise_low bm idx o).present ≡ bm.present)
unfolding raise_low
raise_low_keeps bm idx none = (refl, refl, refl)
raise_low_keeps bm idx (some next) = refresh_high_keeps (record bm { lowest_clear_idx = next }) idx

pub refresh_keeps :
    (bm : Bitmap) (idx : ℕ)
    → ((refresh_bounds_after_set bm idx).storage ≡ bm.storage)
      × ((refresh_bounds_after_set bm idx).bit_count ≡ bm.bit_count)
      × ((refresh_bounds_after_set bm idx).present ≡ bm.present)
unfolding refresh_bounds_after_set
refresh_keeps bm idx = ground (
  arith,
  refresh_high_keeps bm idx,
  raise_low_keeps bm idx (find_clear_forward bm (idx + 1) bm.highest_clear_idx),
)
