-- ===== src/Bitmap/Write.antt =====
-- What a store to one byte of the bitmap's storage does to the bits.
use hojicha.Bitmap.{Bitmap, test_bit, byte_at}
use hojicha.Bitmap.Byte.{test_bit-set, test_bit-clear, set_lt, clear_lt}
use hojicha.Bitmap.Scan.{bit, IsBytes}
use hojicha.Common.{
  ℕ, ◌-◌, ◌/◌, ◌%◌, ◌^◌, ◌<◌, ◌≡◌, not, ◌&&◌, ◌||◌, bit_and, bit_or, ◌==◌, arith, length, set,
  get_or-set_self, get_or-set_ne, ℕ_discrete,
}

abbrev pub store : Bitmap → ℕ → ℕ → Bitmap
store bm b v = record bm { storage = set bm.storage b v }

module _ (bm : Bitmap) (idx : ℕ) (bytes : IsBytes bm) (room : idx / 8 < length bm.storage) where
  same_byte : (v j : ℕ) → j / 8 ≡ idx / 8 → bit (store bm (idx / 8) v) j ≡ test_bit v (j % 8)
  same_byte v j e = rw (e, get_or-set_self bm.storage (idx / 8) v 0 room)

  other_byte : (v j : ℕ) → ¬ (j / 8 ≡ idx / 8) → bit (store bm (idx / 8) v) j ≡ bit bm j
  other_byte v j ne = rw (get_or-set_ne bm.storage (idx / 8) (j / 8) v 0 (λ e. ne (omega arith)))

  store-IsBytes : (v : ℕ) → v < 256 → IsBytes (store bm (idx / 8) v)
  store-IsBytes v h i = elim (ℕ_discrete i (idx / 8)) [
    | yes e ↦ rw (e, get_or-set_self bm.storage (idx / 8) v 0 room) h
    | no ne ↦ rw (get_or-set_ne bm.storage (idx / 8) i v 0 (λ e. ne (omega arith))) (bytes i)
  ]

  abbrev pub set_byte : ℕ
  set_byte = bit_or (byte_at bm (idx / 8)) (2 ^ (idx % 8))

  abbrev pub clear_byte : ℕ
  clear_byte = bit_and (byte_at bm (idx / 8)) (0xFF - 2 ^ (idx % 8))

  pub bit-set_byte : (j : ℕ) → bit (store bm (idx / 8) set_byte) j ≡ (idx == j || bit bm j)
  bit-set_byte j = elim (ℕ_discrete (j / 8) (idx / 8)) [
    | yes e ↦ rw (same_byte set_byte j e) (
        rw
          (
            e,
            test_bit-set (byte_at bm (idx / 8)) (idx % 8) (j % 8) (bytes (idx / 8)) (omega arith)
                (omega arith),
          )
          (ground arith))
    | no ne ↦ rw (other_byte set_byte j ne) (ground arith)
  ]

  pub bit-clear_byte :
      (j : ℕ) → bit (store bm (idx / 8) clear_byte) j ≡ (not (idx == j) && bit bm j)
  bit-clear_byte j = elim (ℕ_discrete (j / 8) (idx / 8)) [
    | yes e ↦ rw (same_byte clear_byte j e) (
        rw
          (
            e,
            test_bit-clear (byte_at bm (idx / 8)) (idx % 8) (j % 8) (bytes (idx / 8)) (omega arith)
                (omega arith),
          )
          (ground arith))
    | no ne ↦ rw (other_byte clear_byte j ne) (ground arith)
  ]

  pub set_byte-IsBytes : IsBytes (store bm (idx / 8) set_byte)
  set_byte-IsBytes =
      store-IsBytes set_byte
        (set_lt (byte_at bm (idx / 8)) (idx % 8) (bytes (idx / 8)) (omega arith))

  pub clear_byte-IsBytes : IsBytes (store bm (idx / 8) clear_byte)
  clear_byte-IsBytes =
      store-IsBytes clear_byte
        (clear_lt (byte_at bm (idx / 8)) (idx % 8) (bytes (idx / 8)) (omega arith))
