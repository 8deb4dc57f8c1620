-- ===== src/Bitmap/Byte.antt =====
-- What the byte operations of the bitmap do to the single bits of a byte.
use hojicha.Bitmap.{test_bit, mask_low, mask_high, lowest_zero_bit, highest_zero_bit}
use hojicha.Common.{
  ℕ, ◌-◌, ◌^◌, ◌<◌, ◌≡◌, refl, Bool, true, false, not, ◌&&◌, ◌||◌, bit_and, bit_or, ltb, ◌==◌,
  passes, passes-lookup, eqb, eqb→eq, arith, ◌≢◌,
}

-- All bytes, and two bit positions.
abbrev check : (ℕ → ℕ → ℕ → Bool) → Bool
check p = passes 256 (λ b. passes 8 (λ j. passes 8 (λ k. p b j k)))

check_sound :
    (p : ℕ → ℕ → ℕ → Bool) → check p ≡ true → (b j k : ℕ) → b < 256 → j < 8 → k < 8 → p b j k ≡ true
check_sound p h b j k hb hj hk =
    passes-lookup 8 _ k (passes-lookup 8 _ j (passes-lookup 256 _ b h hb) hj) hk

set_table : check (λ b j k. eqb (test_bit (bit_or b (2 ^ j)) k) (j == k || test_bit b k)) ≡ true
unfolding passes
set_table = refl

clear_table :
    check (λ b j k. eqb (test_bit (bit_and b (255 - 2 ^ j)) k) (not (j == k) && test_bit b k))
    ≡ true
unfolding passes
clear_table = refl

mask_low_table : check (λ b j k. eqb (test_bit (mask_low b j) k) (ltb k j || test_bit b k)) ≡ true
unfolding passes mask_low
mask_low_table = refl

mask_high_table : check (λ b j k. eqb (test_bit (mask_high b j) k) (ltb j k || test_bit b k)) ≡ true
unfolding passes mask_high
mask_high_table = refl

bound_table :
    check (λ b j k.
      ltb (bit_or b (2 ^ j)) 256
      && ltb (bit_and b (255 - 2 ^ j)) 256
      && ltb (mask_low b j) 256
      && ltb (mask_high b j) 256)
    ≡ true
unfolding passes mask_high mask_low
bound_table = refl

-- The lowest zero bit of a byte that is not full: it is clear, and all bits below it are set.
zero_table :
    check (λ b j k.
      (b == 255)
      || (ltb (lowest_zero_bit b) 8
          && not (test_bit b (lowest_zero_bit b))
          && (not (ltb k (lowest_zero_bit b)) || test_bit b k)
          && ltb (highest_zero_bit b) 8
          && not (test_bit b (highest_zero_bit b))
          && (not (ltb (highest_zero_bit b) k) || test_bit b k)))
    ≡ true
unfolding passes lowest_zero_bit highest_zero_bit
zero_table = refl

module _ (b j k : ℕ) (hb : b < 256) (hj : j < 8) (hk : k < 8) where
  pub test_bit-set : test_bit (bit_or b (2 ^ j)) k ≡ (j == k || test_bit b k)
  test_bit-set = eqb→eq _ _ (check_sound _ set_table b j k hb hj hk)

  pub test_bit-clear : test_bit (bit_and b (255 - 2 ^ j)) k ≡ (not (j == k) && test_bit b k)
  test_bit-clear = eqb→eq _ _ (check_sound _ clear_table b j k hb hj hk)

  pub test_bit-mask_low : test_bit (mask_low b j) k ≡ (ltb k j || test_bit b k)
  test_bit-mask_low = eqb→eq _ _ (check_sound _ mask_low_table b j k hb hj hk)

  pub test_bit-mask_high : test_bit (mask_high b j) k ≡ (ltb j k || test_bit b k)
  test_bit-mask_high = eqb→eq _ _ (check_sound _ mask_high_table b j k hb hj hk)

module _ (b j : ℕ) (hb : b < 256) (hj : j < 8) where
  bounds :
      (ltb (bit_or b (2 ^ j)) 256
        && ltb (bit_and b (255 - 2 ^ j)) 256
        && ltb (mask_low b j) 256
        && ltb (mask_high b j) 256)
      ≡ true
  bounds = check_sound _ bound_table b j 0 hb hj (omega arith)

  pub set_lt : bit_or b (2 ^ j) < 256
  set_lt = ground (arith, bounds)

  pub clear_lt : bit_and b (255 - 2 ^ j) < 256
  clear_lt = ground (arith, bounds)

  pub mask_low_lt : mask_low b j < 256
  mask_low_lt = ground (arith, bounds)

  pub mask_high_lt : mask_high b j < 256
  mask_high_lt = ground (arith, bounds)

module _ (b : ℕ) (hb : b < 256) (ne : b ≢ 255) where
  zero_facts :
      (k : ℕ)
      → k < 8
      → ((b == 255)
          || (ltb (lowest_zero_bit b) 8
              && not (test_bit b (lowest_zero_bit b))
              && (not (ltb k (lowest_zero_bit b)) || test_bit b k)
              && ltb (highest_zero_bit b) 8
              && not (test_bit b (highest_zero_bit b))
              && (not (ltb (highest_zero_bit b) k) || test_bit b k)))
        ≡ true
  zero_facts k hk = check_sound _ zero_table b 0 k hb (omega arith) hk

  pub lowest_lt : lowest_zero_bit b < 8
  lowest_lt = ground (arith, zero_facts 0 (omega arith))

  pub lowest_clear : test_bit b (lowest_zero_bit b) ≡ false
  lowest_clear = ground (arith, zero_facts 0 (omega arith))

  pub lowest_least : (k : ℕ) → k < lowest_zero_bit b → test_bit b k ≡ true
  lowest_least k h = ground (arith, zero_facts k (omega (arith, lowest_lt)))

  pub highest_lt : highest_zero_bit b < 8
  highest_lt = ground (arith, zero_facts 0 (omega arith))

  pub highest_clear : test_bit b (highest_zero_bit b) ≡ false
  highest_clear = ground (arith, zero_facts 0 (omega arith))

  pub highest_most : (k : ℕ) → k < 8 → highest_zero_bit b < k → test_bit b k ≡ true
  highest_most k hk h = ground (arith, zero_facts k hk)

full_table : passes 8 (λ k. test_bit 255 k) ≡ true
unfolding passes
full_table = refl

pub test_bit-full : (k : ℕ) → k < 8 → test_bit 255 k ≡ true
test_bit-full k h = passes-lookup 8 _ k full_table h

pub test_bit-zero : (k : ℕ) → k < 8 → test_bit 0 k ≡ false
unfolding passes
test_bit-zero k h = eqb→eq _ _ (passes-lookup 8 (λ k. eqb (test_bit 0 k) false) k table h)
  where
    table : passes 8 (λ k. eqb (test_bit 0 k) false) ≡ true
    table = refl
