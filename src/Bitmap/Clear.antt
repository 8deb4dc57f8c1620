-- ===== src/Bitmap/Clear.antt =====
-- Clearing a bit, finding a clear one and the initial bitmap of kernel/utils/bitmap.c.
use hojicha.Bitmap.{Bitmap, no_bounds, find_clear_forward, get, clear_bit, find_clear}
use hojicha.Bitmap.Bounds.{Encloses, IsTight}
use hojicha.Bitmap.Laws.{IsValid, get-bit, get_beyond, room_at, bounds_live}
use hojicha.Bitmap.Scan.{bit, Ascending, find_clear_forward-Ascending}
use hojicha.Bitmap.Write.{store, clear_byte, bit-clear_byte, clear_byte-IsBytes}
use hojicha.Common.{
  ℕ, ◌/◌, ◌≤◌, ◌<◌, ◌≡◌, refl, inl, inr, true, false, not, ◌&&◌, ◌||◌, Option, none, some, ltb, leb,
  ◌==◌, if◌then◌else◌, arith, Bool-cases, length-set, dec_lt, ◌∙◌,
}

module _ (bm : Bitmap) (v : IsValid bm) (idx : ℕ) (h : idx < bm.bit_count) where
  abbrev cleared : Bitmap
  cleared = store bm (idx / 8) (clear_byte bm idx v.bytes (room_at bm v idx h))

  bit-cleared : (j : ℕ) → bit cleared j ≡ (not (idx == j) && bit bm j)
  bit-cleared j = bit-clear_byte bm idx v.bytes (room_at bm v idx h) j

  -- The bounds that `bitmap_clear` stores.
  abbrev low : ℕ
  low =
      if no_bounds bm then idx else if ltb idx bm.lowest_clear_idx then idx else bm.lowest_clear_idx

  abbrev high : ℕ
  high =
      if no_bounds bm
      then idx
      else if ltb bm.highest_clear_idx idx
      then idx
      else bm.highest_clear_idx

  abbrev widened : Bitmap
  widened = record cleared { lowest_clear_idx = low; highest_clear_idx = high }

  clear_bit_set : bit bm idx ≡ true → clear_bit bm idx ≡ (widened, true)
  unfolding clear_bit
  clear_bit_set t =
      let inside : (not bm.present || leb bm.bit_count idx) ≡ false = ground (arith, v.present) in
      let old : get bm idx ≡ true = get-bit bm v idx h ∙ t in
      rw (inside, old) (elim (Bool-cases (no_bounds bm)) [ inl e ↦ rw e | inr e ↦ rw e ])

  clear_bit_clear : bit bm idx ≡ false → clear_bit bm idx ≡ (bm, true)
  unfolding clear_bit
  clear_bit_clear f =
      let inside : (not bm.present || leb bm.bit_count idx) ≡ false = ground (arith, v.present) in
      let old : get bm idx ≡ false = get-bit bm v idx h ∙ f in rw (inside, old)

  widened-Encloses : Encloses widened
  widened-Encloses i p f = elim (Bool-cases (bit bm i)) [
    | inl t ↦ ground (arith, bit-cleared i)
    | inr g ↦ ground (arith, v.bounded.0 i p g, bounds_live bm v i p g)
  ]

  widened-IsTight : IsTight widened
  widened-IsTight = go v.bounded.1
    where
      go : IsTight bm → IsTight widened
      go (inl (a, b)) =
          let e : no_bounds bm ≡ true = ground arith in
          rw e (inr (h, h, ground (arith, bit-cleared idx), ground (arith, bit-cleared idx)))
      go (inr (a, b, c, d)) =
          let e : no_bounds bm ≡ false = ground arith in
          rw e (
            inr (
              ground arith,
              ground arith,
              ground (arith, bit-cleared idx, bit-cleared bm.lowest_clear_idx),
              ground (arith, bit-cleared idx, bit-cleared bm.highest_clear_idx),
            ))

  widened-IsValid : IsValid widened
  widened-IsValid = record {
    present = v.present;
    bytes = clear_byte-IsBytes bm idx v.bytes (room_at bm v idx h);
    room =
        rw (length-set bm.storage (idx / 8) (clear_byte bm idx v.bytes (room_at bm v idx h)))
          v.room;
    bounded = (widened-Encloses, widened-IsTight);
  }

clear_bit_beyond :
    (bm : Bitmap) → IsValid bm → (idx : ℕ) → bm.bit_count ≤ idx → clear_bit bm idx ≡ (bm, false)
unfolding clear_bit
clear_bit_beyond bm v idx h =
    let out : (not bm.present || leb bm.bit_count idx) ≡ true = ground (arith, v.present) in rw out

-- Clearing a bit keeps a bitmap valid.
pub clear_bit-IsValid : (bm : Bitmap) (idx : ℕ) → IsValid bm → IsValid (clear_bit bm idx).0
clear_bit-IsValid bm idx v = elim (dec_lt idx bm.bit_count) [
  | no out ↦ rw (clear_bit_beyond bm v idx (omega arith)) v
  | yes h ↦ elim (Bool-cases (bit bm idx)) [
    | inl t ↦ rw (clear_bit_set bm v idx h t) (widened-IsValid bm v idx h)
    | inr f ↦ rw (clear_bit_clear bm v idx h f) v
  ]
]

-- After `clear_bit` the bit reads as clear and every other bit reads as before, with the same
-- length; the call reports whether the index was in range.
pub get-clear_bit :
    (bm : Bitmap) (idx : ℕ)
    → IsValid bm
    → ((clear_bit bm idx).1 ≡ ltb idx bm.bit_count)
      × ((clear_bit bm idx).0.bit_count ≡ bm.bit_count)
      × ((j : ℕ) → get (clear_bit bm idx).0 j ≡ (not (idx == j) && get bm j))
get-clear_bit bm idx v = elim (dec_lt idx bm.bit_count) [
  | no out ↦
      rw (clear_bit_beyond bm v idx (omega arith))
        (ground arith, refl, λ j. ground (arith, get_beyond bm v j))
  | yes h ↦ elim (Bool-cases (bit bm idx)) [
    | inr f ↦
        rw (clear_bit_clear bm v idx h f)
          (ground arith, refl, λ j. ground (arith, get-bit bm v idx h))
    | inl t ↦
        let v' = widened-IsValid bm v idx h in
        rw (clear_bit_set bm v idx h t) (
          ground arith,
          refl,
          λ j. elim (dec_lt j bm.bit_count) [
            | yes q ↦ rw (get-bit _ v' j q, get-bit bm v j q) (bit-cleared bm v idx h j)
            | no q ↦
                rw (get_beyond _ v' j (omega arith), get_beyond bm v j (omega arith)) (ground arith)
          ],
        )
  ]
]

-- Clearing a bit keeps a bitmap valid; after it the bit reads as clear and every other bit reads as
-- before, with the same length, and the call reports whether the index was in range.
pub clear_bit_lem :
    (bm : Bitmap) (idx : ℕ)
    → IsValid bm
    → IsValid (clear_bit bm idx).0
      × ((clear_bit bm idx).1 ≡ ltb idx bm.bit_count)
      × ((clear_bit bm idx).0.bit_count ≡ bm.bit_count)
      × ((j : ℕ) → get (clear_bit bm idx).0 j ≡ (not (idx == j) && get bm j))
clear_bit_lem bm idx v =
    let (ok, len, bits) = get-clear_bit bm idx v in (clear_bit-IsValid bm idx v, ok, len, bits)

-- What `find_clear` answers, in terms of `get`.
abbrev pub FindsLeast : Bitmap → Option ℕ → Type 0
FindsLeast bm none = (y : ℕ) → y < bm.bit_count → get bm y ≡ true
FindsLeast bm (some x) =
    (x < bm.bit_count) × (get bm x ≡ false) × ((y : ℕ) → y < x → get bm y ≡ true)

-- `find_clear` returns the least clear bit of a valid bitmap, and fails only when all are set.
pub find_clear-FindsLeast : (bm : Bitmap) → IsValid bm → FindsLeast bm (find_clear bm)
unfolding find_clear
find_clear-FindsLeast bm v = go v.bounded.1
  where
    all_set :
        (bm.lowest_clear_idx ≡ bm.bit_count) × (bm.highest_clear_idx ≡ bm.bit_count)
        → (y : ℕ) → y < bm.bit_count
        → get bm y ≡ true
    all_set e y p = elim (Bool-cases (bit bm y)) [
      | inl t ↦ get-bit bm v y p ∙ t
      | inr f ↦ absurd (omega (arith, v.bounded.0 y p f))
    ]

    found :
        (o : Option ℕ)
        → bm.highest_clear_idx < bm.bit_count
        → bit bm bm.highest_clear_idx ≡ false
        → bm.lowest_clear_idx ≤ bm.highest_clear_idx
        → Ascending bm bm.lowest_clear_idx bm.highest_clear_idx o
        → FindsLeast bm o
    found none b c q s = absurd (ground (arith, s bm.highest_clear_idx))
    found (some x) b c q (s₀, s₁, s₂, s₃) =
        let lt : x < bm.bit_count = omega arith in
        (
          lt,
          get-bit bm v x lt ∙ s₂,
          λ y p.
              let yt : y < bm.bit_count = omega arith in
              elim (Bool-cases (bit bm y)) [
                | inl t ↦ get-bit bm v y yt ∙ t
                | inr f ↦
                    let low : bm.lowest_clear_idx ≤ y = (v.bounded.0 y yt f).0 in
                    get-bit bm v y yt ∙ s₃ y low p
              ],
        )

    go :
        IsTight bm
        → FindsLeast bm (
            if not bm.present || no_bounds bm
            then none
            else find_clear_forward bm bm.lowest_clear_idx bm.highest_clear_idx)
    go (inl e) =
        let t : (not bm.present || no_bounds bm) ≡ true = ground (arith, v.present) in
        rw t (all_set e)
    go (inr (a, b, c, d)) =
        let t : (not bm.present || no_bounds bm) ≡ false = ground (arith, v.present) in
        let le : bm.lowest_clear_idx ≤ bm.highest_clear_idx =
          (v.bounded.0 bm.lowest_clear_idx a c).1 in
        rw t (
          found _ b d le
            (find_clear_forward-Ascending bm bm.lowest_clear_idx bm.highest_clear_idx v.bytes le b))
