-- ===== src/Bitmap/Init.antt =====
-- `bitmap_init` of kernel/utils/bitmap.c.
use hojicha.Bitmap.{Bitmap, storage_size, init, get}
use hojicha.Bitmap.Byte.{test_bit-full, test_bit-zero}
use hojicha.Bitmap.Laws.{IsValid, get-bit}
use hojicha.Bitmap.Scan.{bit}
use hojicha.Common.{
  ℕ, zero, suc, ◌+◌, ◌-◌, ◌*◌, ◌/◌, ◌%◌, ◌^◌, ◌≤◌, ◌<◌, ◌≡◌, refl, inl, inr, Bool, true, false,
  ◌==◌, arith, length, length-replicate, get_or-replicate, replicate, ◌∙◌, get_or,
}

get_or-replicate_lt : (n i v : ℕ) → v < 256 → get_or (replicate n v) i 0 < 256
get_or-replicate_lt zero i v h = omega arith
get_or-replicate_lt (suc n) zero v h = h
get_or-replicate_lt (suc n) (suc i) v h = get_or-replicate_lt n i v h

module _ (n : ℕ) (pos : 0 < n) (small : n + 7 < 2 ^ 64) where
  storage_room : n ≤ storage_size n * 8
  unfolding storage_size
  storage_room = omega arith

  some_bits : (n == 0) ≡ false
  some_bits = ground arith

  byte_in : (i : ℕ) → i < n → i / 8 < storage_size n
  byte_in i h = omega (arith, storage_room)

  room : (v : ℕ) → n ≤ length (replicate (storage_size n) v) * 8
  room v = rw (length-replicate (storage_size n) v) storage_room

  abbrev filled : (v low high : ℕ) → Bitmap
  filled v low high = record {
    present = true;
    storage = replicate (storage_size n) v;
    bit_count = n;
    byte_count = storage_size n;
    lowest_clear_idx = low;
    highest_clear_idx = high;
  }

  bit-full : (low high i : ℕ) → i < n → bit (filled 255 low high) i ≡ true
  bit-full low high i h =
      rw (get_or-replicate {A = ℕ} (storage_size n) (i / 8) 255 0 (byte_in i h))
        (test_bit-full (i % 8) (omega arith))

  bit-empty : (low high i : ℕ) → i < n → bit (filled 0 low high) i ≡ false
  bit-empty low high i h =
      rw (get_or-replicate {A = ℕ} (storage_size n) (i / 8) 0 0 (byte_in i h))
        (test_bit-zero (i % 8) (omega arith))

  init_full : init true n true ≡ filled 255 n n
  unfolding init
  init_full = rw some_bits

  init_empty : init true n false ≡ filled 0 0 (n - 1)
  unfolding init
  init_empty = rw some_bits

  full-IsValid : IsValid (filled 255 n n)
  full-IsValid = record {
    present = refl;
    bytes = λ i. get_or-replicate_lt (storage_size n) i 255 (omega arith);
    room = room 255;
    bounded = (λ i p f. absurd (ground (arith, bit-full n n i p)), inl (refl, refl));
  }

  empty-IsValid : IsValid (filled 0 0 (n - 1))
  empty-IsValid = record {
    present = refl;
    bytes = λ i. get_or-replicate_lt (storage_size n) i 0 (omega arith);
    room = room 0;
    bounded = (
      λ i p f. (omega arith, omega arith),
      inr (pos, omega arith, bit-empty 0 (n - 1) 0 pos, bit-empty 0 (n - 1) (n - 1) (omega arith)),
    );
  }

-- `init` gives a valid bitmap whose bits all read as `default_set`, for a bit count that is
-- positive and whose storage size does not wrap.
pub init-IsValid :
    (n : ℕ) (default_set : Bool)
    → 0 < n
    → n + 7 < 2 ^ 64
    → IsValid (init true n default_set)
      × ((i : ℕ) → i < n → get (init true n default_set) i ≡ default_set)
init-IsValid n true pos small = rw (init_full n pos small) (
  full-IsValid n pos small,
  λ i h. get-bit _ (full-IsValid n pos small) i h ∙ bit-full n pos small n n i h,
)
init-IsValid n false pos small = rw (init_empty n pos small) (
  empty-IsValid n pos small,
  λ i h. get-bit _ (empty-IsValid n pos small) i h ∙ bit-empty n pos small 0 (n - 1) i h,
)
