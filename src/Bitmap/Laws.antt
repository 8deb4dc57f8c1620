-- ===== src/Bitmap/Laws.antt =====
-- The operations of kernel/utils/bitmap.c on a valid bitmap.
use hojicha.Bitmap.{Bitmap, get, set_bit, refresh_bounds_after_set}
use hojicha.Bitmap.Bounds.{IsBounded, IsTight, Ready, refresh-IsBounded, refresh_keeps}
use hojicha.Bitmap.Scan.{bit, IsBytes}
use hojicha.Bitmap.Write.{store, set_byte, bit-set_byte, set_byte-IsBytes}
use hojicha.Common.{
  ℕ, ◌*◌, ◌/◌, ◌≤◌, ◌<◌, ◌≡◌, refl, inl, inr, true, false, not, ◌&&◌, ◌||◌, ltb, leb, ◌==◌, arith,
  Bool-cases, length, length-set, dec_lt, ◌∙◌,
}

pub record IsValid (bm : Bitmap) : Type 0 where
  pub present : bm.present ≡ true
  pub bytes : IsBytes bm
  pub room : bm.bit_count ≤ length bm.storage * 8
  pub bounded : IsBounded bm

module _ (bm : Bitmap) (v : IsValid bm) where
  pub get-bit : (i : ℕ) → i < bm.bit_count → get bm i ≡ bit bm i
  unfolding get
  get-bit i h = ground (arith, v.present)

  pub get_beyond : (i : ℕ) → bm.bit_count ≤ i → get bm i ≡ false
  unfolding get
  get_beyond i h = ground (arith, v.present)

  pub room_at : (i : ℕ) → i < bm.bit_count → i / 8 < length bm.storage
  room_at i h = omega (arith, v.room)

  -- While a clear bit is left the bounds are such bits.
  pub bounds_live :
      (i : ℕ)
      → i < bm.bit_count
      → bit bm i ≡ false
      → (bm.lowest_clear_idx < bm.bit_count)
        × (bm.highest_clear_idx < bm.bit_count)
        × (bit bm bm.lowest_clear_idx ≡ false)
        × (bit bm bm.highest_clear_idx ≡ false)
  bounds_live i h f = go v.bounded.1
    where
      go :
          IsTight bm
          → (bm.lowest_clear_idx < bm.bit_count)
            × (bm.highest_clear_idx < bm.bit_count)
            × (bit bm bm.lowest_clear_idx ≡ false)
            × (bit bm bm.highest_clear_idx ≡ false)
      go (inl e) = absurd (omega (arith, v.bounded.0 i h f))
      go (inr t) = t

  -- `set_bit` on a clear bit: the store, then the refresh.
  module _ (idx : ℕ) (h : idx < bm.bit_count) (clear : bit bm idx ≡ false) where
    abbrev stored : Bitmap
    stored = store bm (idx / 8) (set_byte bm idx v.bytes (room_at idx h))

    bit-stored : (j : ℕ) → bit stored j ≡ (idx == j || bit bm j)
    bit-stored j = bit-set_byte bm idx v.bytes (room_at idx h) j

    stored-Ready : Ready stored idx
    stored-Ready =
        let (a, b, c, d) = bounds_live idx h clear in
        record {
          bytes = set_byte-IsBytes bm idx v.bytes (room_at idx h);
          encloses = λ i p f. v.bounded.0 i p (ground (arith, bit-stored i));
          low_lt = a;
          high_lt = b;
          low_clear = λ ne. ground (arith, bit-stored bm.lowest_clear_idx);
          high_clear = λ ne. ground (arith, bit-stored bm.highest_clear_idx);
          idx_set = ground (arith, bit-stored idx);
        }

    set_bit_clear : set_bit bm idx ≡ (refresh_bounds_after_set stored idx, true)
    unfolding set_bit
    set_bit_clear =
        let inside : (not bm.present || leb bm.bit_count idx) ≡ false = ground (arith, v.present) in
        let unset : get bm idx ≡ false = get-bit idx h ∙ clear in rw (inside, unset)

    refreshed-IsValid : IsValid (refresh_bounds_after_set stored idx)
    refreshed-IsValid =
        let (s, n, p) = refresh_keeps stored idx in
        record {
          present = p ∙ v.present;
          bytes = λ i. rw s ((stored-Ready).bytes i);
          room =
              rw (n, s, length-set bm.storage (idx / 8) (set_byte bm idx v.bytes (room_at idx h)))
                v.room;
          bounded = refresh-IsBounded stored idx stored-Ready;
        }

    bit-refresh : (j : ℕ) → bit (refresh_bounds_after_set stored idx) j ≡ (idx == j || bit bm j)
    bit-refresh j = let (s, n, p) = refresh_keeps stored idx in rw s (bit-stored j)

  set_bit_set : (idx : ℕ) → idx < bm.bit_count → bit bm idx ≡ true → set_bit bm idx ≡ (bm, true)
  unfolding set_bit
  set_bit_set idx h t =
      let inside : (not bm.present || leb bm.bit_count idx) ≡ false = ground (arith, v.present) in
      let old : get bm idx ≡ true = get-bit idx h ∙ t in rw (inside, old)

  set_bit_beyond : (idx : ℕ) → bm.bit_count ≤ idx → set_bit bm idx ≡ (bm, false)
  unfolding set_bit
  set_bit_beyond idx h =
      let out : (not bm.present || leb bm.bit_count idx) ≡ true = ground (arith, v.present) in
      rw out

-- Setting a bit keeps a bitmap valid.
pub set_bit-IsValid : (bm : Bitmap) (idx : ℕ) → IsValid bm → IsValid (set_bit bm idx).0
set_bit-IsValid bm idx v = elim (dec_lt idx bm.bit_count) [
  | no out ↦ rw (set_bit_beyond bm v idx (omega arith)) v
  | yes h ↦ elim (Bool-cases (bit bm idx)) [
    | inl t ↦ rw (set_bit_set bm v idx h t) v
    | inr f ↦ rw (set_bit_clear bm v idx h f) (refreshed-IsValid bm v idx h f)
  ]
]

-- After `set_bit` the bit reads as set and every other bit reads as before, with the same length;
-- the call reports whether the index was in range.
pub get-set_bit :
    (bm : Bitmap) (idx : ℕ)
    → IsValid bm
    → ((set_bit bm idx).1 ≡ ltb idx bm.bit_count)
      × ((set_bit bm idx).0.bit_count ≡ bm.bit_count)
      × ((j : ℕ) → get (set_bit bm idx).0 j ≡ ((idx == j && ltb j bm.bit_count) || get bm j))
get-set_bit bm idx v = elim (dec_lt idx bm.bit_count) [
  | no out ↦
      rw (set_bit_beyond bm v idx (omega arith))
        (ground arith, refl, λ j. ground (arith, get_beyond bm v j))
  | yes h ↦ elim (Bool-cases (bit bm idx)) [
    | inl t ↦
        rw (set_bit_set bm v idx h t)
          (ground arith, refl, λ j. ground (arith, get-bit bm v idx h, t))
    | inr f ↦
        let (s, n, p) = refresh_keeps (stored bm v idx h f) idx in
        let v' = refreshed-IsValid bm v idx h f in
        rw (set_bit_clear bm v idx h f) (
          ground arith,
          n,
          λ j. elim (dec_lt j bm.bit_count) [
            | yes q ↦
                rw (get-bit _ v' j (rw n q), get-bit bm v j q)
                  (ground (arith, bit-refresh bm v idx h f j))
            | no q ↦
                rw (get_beyond _ v' j (rw n (omega arith)), get_beyond bm v j (omega arith))
                  (ground arith)
          ],
        )
  ]
]

-- Setting a bit keeps a bitmap valid; after it the bit reads as set and every other bit reads as
-- before, with the same length, and the call reports whether the index was in range.
pub set_bit_lem :
    (bm : Bitmap) (idx : ℕ)
    → IsValid bm
    → IsValid (set_bit bm idx).0
      × ((set_bit bm idx).1 ≡ ltb idx bm.bit_count)
      × ((set_bit bm idx).0.bit_count ≡ bm.bit_count)
      × ((j : ℕ) → get (set_bit bm idx).0 j ≡ ((idx == j && ltb j bm.bit_count) || get bm j))
set_bit_lem bm idx v =
    let (ok, len, bits) = get-set_bit bm idx v in (set_bit-IsValid bm idx v, ok, len, bits)
