-- ===== src/Bitmap/Scan.antt =====
-- The two searches of kernel/utils/bitmap.c for a clear bit between two indices.
use hojicha.Bitmap.{
  Bitmap, test_bit, byte_at, mask_low, mask_high, masked, masked_back, lowest_zero_bit,
  highest_zero_bit, forward_loop, backward_loop, find_clear_forward, find_clear_backward,
}
use hojicha.Bitmap.Byte.{
  test_bit-mask_low, test_bit-mask_high, mask_low_lt, mask_high_lt, lowest_lt, lowest_clear,
  lowest_least, highest_lt, highest_clear, highest_most, test_bit-full,
}
use hojicha.Common.{
  ℕ, zero, suc, ◌+◌, ◌-◌, ◌*◌, ◌/◌, ◌%◌, ◌≤◌, ◌<◌, ◌≡◌, ◌≢◌, Bool, true, false, ◌||◌, Option, none,
  some, ltb, leb, ◌==◌, arith, Bool-cases, inl, inr, sym, ◌∙◌, dec_lt, ==→eq, ==→ne,
}

-- The bit at an index, whatever the limits say.
abbrev pub bit : Bitmap → ℕ → Bool
bit bm i = test_bit (byte_at bm (i / 8)) (i % 8)

-- The storage holds bytes.
abbrev pub IsBytes : Bitmap → Type 0
IsBytes bm = (i : ℕ) → byte_at bm i < 256

module _ (bm : Bitmap) (lo hi : ℕ) (bytes : IsBytes bm) (le : lo ≤ hi) where
  masked_lt : (b : ℕ) → masked bm lo hi b < 256
  unfolding masked
  masked_lt b = ground (
    arith,
    bytes b,
    mask_low_lt (byte_at bm b) (lo % 8) (bytes b),
    mask_high_lt (byte_at bm b) (hi % 8) (bytes b),
    mask_high_lt (mask_low (byte_at bm b) (lo % 8)) (hi % 8),
  )

  masked_back_lt : (b : ℕ) → masked_back bm hi lo b < 256
  unfolding masked_back
  masked_back_lt b = ground (
    arith,
    bytes b,
    mask_low_lt (byte_at bm b) (lo % 8) (bytes b),
    mask_high_lt (byte_at bm b) (hi % 8) (bytes b),
    mask_low_lt (mask_high (byte_at bm b) (hi % 8)) (lo % 8),
  )

  -- In a masked byte the bits outside the range read as set, the others as they are.
  test_bit-masked :
      (b k : ℕ)
      → lo / 8 ≤ b
      → b ≤ hi / 8
      → k < 8
      → test_bit (masked bm lo hi b) k
        ≡ (ltb hi (b * 8 + k) || (ltb (b * 8 + k) lo || test_bit (byte_at bm b) k))
  unfolding masked
  test_bit-masked b k h₁ h₂ hk = ground (
    arith,
    bytes b,
    mask_low_lt (byte_at bm b) (lo % 8) (bytes b),
    test_bit-mask_low (byte_at bm b) (lo % 8) k (bytes b),
    test_bit-mask_high (byte_at bm b) (hi % 8) k (bytes b),
    test_bit-mask_high (mask_low (byte_at bm b) (lo % 8)) (hi % 8) k,
  )

  test_bit-masked_back :
      (b k : ℕ)
      → lo / 8 ≤ b
      → b ≤ hi / 8
      → k < 8
      → test_bit (masked_back bm hi lo b) k
        ≡ (ltb hi (b * 8 + k) || (ltb (b * 8 + k) lo || test_bit (byte_at bm b) k))
  unfolding masked_back
  test_bit-masked_back b k h₁ h₂ hk = ground (
    arith,
    bytes b,
    mask_high_lt (byte_at bm b) (hi % 8) (bytes b),
    test_bit-mask_low (byte_at bm b) (lo % 8) k (bytes b),
    test_bit-mask_high (byte_at bm b) (hi % 8) k (bytes b),
    test_bit-mask_low (mask_high (byte_at bm b) (hi % 8)) (lo % 8) k,
  )

  -- What a masked byte says of a position y in byte b.
  module _ (y : ℕ) (h₁ : lo ≤ y) (h₂ : y ≤ hi) where
    bit-masked : test_bit (masked bm lo hi (y / 8)) (y % 8) ≡ bit bm y
    bit-masked =
        ground (arith, test_bit-masked (y / 8) (y % 8) (omega arith) (omega arith) (omega arith))

    bit-masked_back : test_bit (masked_back bm hi lo (y / 8)) (y % 8) ≡ bit bm y
    bit-masked_back =
        ground
          (arith, test_bit-masked_back (y / 8) (y % 8) (omega arith) (omega arith) (omega arith))

    full_bit : masked bm lo hi (y / 8) ≡ 255 → bit bm y ≡ true
    full_bit e = ground (arith, bit-masked, test_bit-full (y % 8) (omega arith))

    full_bit_back : masked_back bm hi lo (y / 8) ≡ 255 → bit bm y ≡ true
    full_bit_back e = ground (arith, bit-masked_back, test_bit-full (y % 8) (omega arith))

-- A search upwards from byte `b` over [lo, hi]: it stops at the least clear bit, or finds none.
abbrev pub Ascending : Bitmap → (lo hi : ℕ) → Option ℕ → Type 0
Ascending bm lo hi none = (y : ℕ) → lo ≤ y → y ≤ hi → bit bm y ≡ true
Ascending bm lo hi (some x) =
    (lo ≤ x) × (x ≤ hi) × (bit bm x ≡ false) × ((y : ℕ) → lo ≤ y → y < x → bit bm y ≡ true)

abbrev pub Descending : Bitmap → (lo hi : ℕ) → Option ℕ → Type 0
Descending bm lo hi none = (y : ℕ) → lo ≤ y → y ≤ hi → bit bm y ≡ true
Descending bm lo hi (some x) =
    (lo ≤ x) × (x ≤ hi) × (bit bm x ≡ false) × ((y : ℕ) → x < y → y ≤ hi → bit bm y ≡ true)

bit-byte : (bm : Bitmap) (b k : ℕ) → k < 8 → bit bm (b * 8 + k) ≡ test_bit (byte_at bm b) k
bit-byte bm b k h =
    let q : (b * 8 + k) / 8 ≡ b = omega arith in
    let r : (b * 8 + k) % 8 ≡ k = omega arith in rw (q, r)

module _ (bm : Bitmap) (lo hi : ℕ) (bytes : IsBytes bm) (le : lo ≤ hi) where
  -- A byte that is not full holds the next clear bit, if the bits before it are set.
  module _ (b : ℕ) (h₁ : lo / 8 ≤ b) (h₂ : b ≤ hi / 8) (ne : masked bm lo hi b ≢ 255) where
    abbrev next : ℕ
    next = b * 8 + lowest_zero_bit (masked bm lo hi b)

    next_clear : (lo ≤ next) × (next ≤ hi) × (bit bm next ≡ false)
    next_clear =
        let m = masked bm lo hi b in
        let z = lowest_zero_bit m in
        let lt = masked_lt bm lo hi bytes le b in
        let small : z < 8 = lowest_lt m lt ne in
        let clear : test_bit m z ≡ false = lowest_clear m lt ne in
        rw (bit-byte bm b z small)
          (ground (arith, test_bit-masked bm lo hi bytes le b z h₁ h₂ small, clear))

    set_below : (y : ℕ) → lo ≤ y → b * 8 ≤ y → y < next → bit bm y ≡ true
    set_below y p q r =
        let m = masked bm lo hi b in
        let lt = masked_lt bm lo hi bytes le b in
        let small : lowest_zero_bit m < 8 = lowest_lt m lt ne in
        let e : y / 8 ≡ b = omega arith in
        let up : y ≤ hi = omega (arith, next_clear.1) in
        sym (bit-masked bm lo hi bytes le y p up)
        ∙ rw e (lowest_least m lt ne (y % 8) (omega arith))

  full_byte :
      (b : ℕ) → masked bm lo hi b ≡ 255 → (y : ℕ) → lo ≤ y → y ≤ hi → y / 8 ≡ b → bit bm y ≡ true
  full_byte b full y p q e = full_bit bm lo hi bytes le y p q (rw e full)

  forward_loop-Ascending :
      (fuel b : ℕ)
      → b + fuel ≡ hi / 8 + 1
      → lo / 8 ≤ b
      → ((y : ℕ) → lo ≤ y → y < b * 8 → y ≤ hi → bit bm y ≡ true)
      → Ascending bm lo hi (forward_loop fuel bm lo hi b)
  unfolding forward_loop
  forward_loop-Ascending zero b e h before = λ y p q. before y p (omega arith) q
  forward_loop-Ascending (suc fuel) b e h before = elim (Bool-cases (masked bm lo hi b == 255)) [
    | inl full ↦ rw full (
        forward_loop-Ascending fuel (b + 1) (omega arith) (omega arith) λ y p q r.
          elim (dec_lt y (b * 8)) [
            | yes old ↦ before y p old r
            | no new ↦ full_byte b (==→eq _ _ full) y p r (omega arith)
          ])
    | inr part ↦
        let ne = ==→ne _ _ part in
        let up : b ≤ hi / 8 = omega arith in
        let (c₀, c₁, c₂) = next_clear b h up ne in
        rw part (
          c₀,
          c₁,
          c₂,
          λ y p q. elim (dec_lt y (b * 8)) [
            | yes old ↦ before y p old (omega arith)
            | no new ↦ set_below b h up ne y p (omega arith) q
          ],
        )
  ]

-- The same upside down.
module _ (bm : Bitmap) (lo hi : ℕ) (bytes : IsBytes bm) (le : lo ≤ hi) where
  module _ (b : ℕ) (h₁ : lo / 8 ≤ b) (h₂ : b ≤ hi / 8) (ne : masked_back bm hi lo b ≢ 255) where
    abbrev previous : ℕ
    previous = b * 8 + highest_zero_bit (masked_back bm hi lo b)

    previous_clear : (lo ≤ previous) × (previous ≤ hi) × (bit bm previous ≡ false)
    previous_clear =
        let m = masked_back bm hi lo b in
        let z = highest_zero_bit m in
        let lt = masked_back_lt bm lo hi bytes le b in
        let small : z < 8 = highest_lt m lt ne in
        let clear : test_bit m z ≡ false = highest_clear m lt ne in
        rw (bit-byte bm b z small)
          (ground (arith, test_bit-masked_back bm lo hi bytes le b z h₁ h₂ small, clear))

    set_above : (y : ℕ) → y ≤ hi → y < b * 8 + 8 → previous < y → bit bm y ≡ true
    set_above y p q r =
        let m = masked_back bm hi lo b in
        let lt = masked_back_lt bm lo hi bytes le b in
        let e : y / 8 ≡ b = omega arith in
        let down : lo ≤ y = omega (arith, previous_clear.0) in
        sym (bit-masked_back bm lo hi bytes le y down p)
        ∙ rw e (highest_most m lt ne (y % 8) (omega arith) (omega arith))

  full_byte_back :
      (b : ℕ)
      → masked_back bm hi lo b ≡ 255
      → (y : ℕ) → lo ≤ y
      → y ≤ hi
      → y / 8 ≡ b
      → bit bm y ≡ true
  full_byte_back b full y p q e = full_bit_back bm lo hi bytes le y p q (rw e full)

  backward_loop-Descending :
      (fuel b : ℕ)
      → b ≡ lo / 8 + fuel - 1
      → b ≤ hi / 8
      → ((y : ℕ) → lo ≤ y → (lo / 8 + fuel) * 8 ≤ y → y ≤ hi → bit bm y ≡ true)
      → Descending bm lo hi (backward_loop fuel bm hi lo b)
  unfolding backward_loop
  backward_loop-Descending zero b e h after = λ y p q. after y p (omega arith) q
  backward_loop-Descending (suc fuel) b e h after =
      elim (Bool-cases (masked_back bm hi lo b == 255)) [
        | inl full ↦ rw full (
            backward_loop-Descending fuel (b - 1) (omega arith) (omega arith) λ y l p r.
              elim (dec_lt y (b * 8 + 8)) [
                | yes new ↦ full_byte_back b (==→eq _ _ full) y l r (omega arith)
                | no old ↦ after y l (omega arith) r
              ])
        | inr part ↦
            let ne = ==→ne _ _ part in
            let down : lo / 8 ≤ b = omega arith in
            let (c₀, c₁, c₂) = previous_clear b down h ne in
            rw part (
              c₀,
              c₁,
              c₂,
              λ y p q. elim (dec_lt y (b * 8 + 8)) [
                | yes new ↦ set_above b down h ne y q new p
                | no old ↦ after y (omega (arith, c₀)) (omega arith) q
              ],
            )
      ]

module _ (bm : Bitmap) (start end : ℕ) (bytes : IsBytes bm) where
  -- The forward search from `start` to `end` finds the least clear bit between them.
  pub find_clear_forward-Ascending :
      start ≤ end → end < bm.bit_count → Ascending bm start end (find_clear_forward bm start end)
  unfolding find_clear_forward
  find_clear_forward-Ascending le lt =
      let a : (ltb end start || leb bm.bit_count start) ≡ false = ground arith in
      let b : leb bm.bit_count end ≡ false = ground arith in
      rw (a, b)
        (forward_loop-Ascending bm start end bytes le (end / 8 - start / 8 + 1) (start / 8)
          (omega arith) (omega arith) (λ y p q r. absurd (omega arith)))

  pub find_clear_backward-Descending :
      end ≤ start
      → start < bm.bit_count
      → Descending bm end start (find_clear_backward bm start end)
  unfolding find_clear_backward
  find_clear_backward-Descending le lt =
      let a : (ltb start end || leb bm.bit_count end) ≡ false = ground arith in
      let b : leb bm.bit_count start ≡ false = ground arith in
      rw (a, b)
        (backward_loop-Descending bm end start bytes le (start / 8 - end / 8 + 1) (start / 8)
          (omega arith) (omega arith) (λ y l p q. absurd (omega arith)))

  -- An empty range holds no clear bit.
  pub find_clear_forward-none : end < start → find_clear_forward bm start end ≡ none
  unfolding find_clear_forward
  find_clear_forward-none h = let a : ltb end start ≡ true = ground arith in rw a

  pub find_clear_backward-none : start < end → find_clear_backward bm start end ≡ none
  unfolding find_clear_backward
  find_clear_backward-none h = let a : ltb start end ≡ true = ground arith in rw a
