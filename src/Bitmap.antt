-- ===== src/Bitmap.antt =====
-- kernel/utils/bitmap.c: a bit set over a byte array, with bounds on where the clear bits lie.
mod Byte
mod Bounds
mod Scan
mod Examples
pub mod Clear
pub mod Init
pub mod Laws
mod Write
use hojicha.Common.{
  ℕ, zero, suc, ◌+◌, ◌-◌, ◌*◌, ◌/◌, ◌%◌, ◌^◌, Bool, true, false, not, ◌||◌, Option, none, some,
  List, [], bit_and, bit_or, ltb, leb, ◌==◌, if◌then◌else◌, get_or, set, replicate,
}

-- `bitmap_t`. `present` is `storage != NULL`; `storage` is then the bytes that it points to.
-- The functions below take the structure itself, so `bitmap == NULL` does not arise.
pub record Bitmap : Type 0 where
  pub present : Bool
  pub storage : List ℕ
  pub bit_count : ℕ
  pub byte_count : ℕ
  pub lowest_clear_idx : ℕ
  pub highest_clear_idx : ℕ

-- (bit_count + 7) >> 3, in 64 bits.
unfoldable pub storage_size : ℕ → ℕ
storage_size bit_count = (bit_count + 7) % 2 ^ 64 / 8

-- `memset` fills the `storage_size` bytes that the caller hands over.
unfoldable pub init : (present : Bool) → ℕ → Bool → Bitmap
unfolding storage_size
init present bit_count default_set =
    let bare : Bitmap = record {
      present = present;
      storage = [];
      bit_count = bit_count;
      byte_count = storage_size bit_count;
      lowest_clear_idx = bit_count;
      highest_clear_idx = bit_count;
    } in
    if not present || bit_count == 0
    then bare
    else if default_set
    then record bare { storage = replicate (storage_size bit_count) 0xFF }
    else record bare {
      storage = replicate (storage_size bit_count) 0;
      lowest_clear_idx = 0;
      highest_clear_idx = bit_count - 1;
    }

-- `b & (1 << k)` is not zero.
abbrev pub test_bit : ℕ → ℕ → Bool
test_bit b k = not (bit_and b (2 ^ k) == 0)

-- The byte at an index; the callers keep the index inside the storage.
abbrev pub byte_at : Bitmap → ℕ → ℕ
byte_at bm i = get_or bm.storage i 0

unfoldable pub get : Bitmap → ℕ → Bool
get bm idx =
    if not bm.present || leb bm.bit_count idx
    then false
    else test_bit (byte_at bm (idx / 8)) (idx % 8)

-- `for (idx = i; idx < 8; ++idx) if (~(num >> idx) & 1) return idx; return 7;` on the rounds left.
pub lowest_zero_from : ℕ → ℕ → ℕ → ℕ
lowest_zero_from zero idx num = 7
lowest_zero_from (suc n) idx num =
    let rest = lowest_zero_from n (idx + 1) num in if num / 2 ^ idx % 2 == 0 then idx else rest

unfoldable pub lowest_zero_bit : ℕ → ℕ
unfolding lowest_zero_from
lowest_zero_bit num = lowest_zero_from 8 0 num

-- `for (idx = n - 1; idx >= 0; --idx) …; return 0;`
pub highest_zero_below : ℕ → ℕ → ℕ
highest_zero_below zero num = 0
highest_zero_below (suc idx) num =
    let rest = highest_zero_below idx num in if num / 2 ^ idx % 2 == 0 then idx else rest

unfoldable pub highest_zero_bit : ℕ → ℕ
unfolding highest_zero_below
highest_zero_bit num = highest_zero_below 8 num

-- The byte of a forward search with the bits outside [lo, hi] read as set.
-- `byte |= (1 << first_bit) - 1` and, below bit 7, `byte |= 0xFF << (last_bit + 1)`; the store to
-- `uint8_t` drops what the shift pushes past bit 7.
pub mask_low : ℕ → ℕ → ℕ
mask_low byte first_bit = bit_or byte (2 ^ first_bit - 1)

pub mask_high : ℕ → ℕ → ℕ
mask_high byte last_bit =
    if ltb last_bit 7 then bit_or byte (0xFF * 2 ^ (last_bit + 1)) % 2 ^ 8 else byte

pub masked : Bitmap → (lo hi byte_idx : ℕ) → ℕ
unfolding mask_low mask_high
masked bm lo hi byte_idx =
    let low =
      if byte_idx == lo / 8 then mask_low (byte_at bm byte_idx) (lo % 8) else byte_at bm byte_idx in
    if byte_idx == hi / 8 then mask_high low (hi % 8) else low

-- The loop of the forward search: `fuel` bytes are left, from `byte_idx` on.
pub forward_loop : ℕ → Bitmap → (start end byte_idx : ℕ) → Option ℕ
forward_loop zero bm start end byte_idx = none
forward_loop (suc fuel) bm start end byte_idx =
    let rest = forward_loop fuel bm start end (byte_idx + 1) in
    let byte = masked bm start end byte_idx in
    if byte == 0xFF then rest else some (byte_idx * 8 + lowest_zero_bit byte)

-- `end_byte - start_byte + 1` rounds.
unfoldable pub find_clear_forward : Bitmap → (start end : ℕ) → Option ℕ
unfolding forward_loop masked lowest_zero_bit
find_clear_forward bm start end =
    if ltb end start || leb bm.bit_count start
    then none
    else let end' = if leb bm.bit_count end then bm.bit_count - 1 else end in
      forward_loop (end' / 8 - start / 8 + 1) bm start end' (start / 8)

-- The byte of a backward search, whose `start` is the upper end: the high bits are masked first.
pub masked_back : Bitmap → (start end byte_idx : ℕ) → ℕ
unfolding mask_low mask_high
masked_back bm start end byte_idx =
    let high =
      if byte_idx == start / 8
      then mask_high (byte_at bm byte_idx) (start % 8)
      else byte_at bm byte_idx in
    if byte_idx == end / 8 then mask_low high (end % 8) else high

-- The backward loop, on the bytes left.
pub backward_loop : ℕ → Bitmap → (start end byte_idx : ℕ) → Option ℕ
backward_loop zero bm start end byte_idx = none
backward_loop (suc fuel) bm start end byte_idx =
    let rest = backward_loop fuel bm start end (byte_idx - 1) in
    let byte = masked_back bm start end byte_idx in
    if byte == 0xFF then rest else some (byte_idx * 8 + highest_zero_bit byte)

unfoldable pub find_clear_backward : Bitmap → (start end : ℕ) → Option ℕ
unfolding backward_loop masked_back highest_zero_bit
find_clear_backward bm start end =
    if ltb start end || leb bm.bit_count end
    then none
    else let start' = if leb bm.bit_count start then bm.bit_count - 1 else start in
      backward_loop (start' / 8 - end / 8 + 1) bm start' end (start' / 8)

-- No clear bit is left: both bounds stand at `bit_count`.
abbrev exhausted : Bitmap → Bitmap
exhausted bm = record bm { lowest_clear_idx = bm.bit_count; highest_clear_idx = bm.bit_count }

abbrev no_bounds : Bitmap → Bool
no_bounds bm = leb bm.bit_count bm.lowest_clear_idx || leb bm.bit_count bm.highest_clear_idx

-- What a search for the next bound found becomes that bound; without one both are given up.
unfoldable pub lower_high : Bitmap → Option ℕ → Bitmap
lower_high bm none = exhausted bm
lower_high bm (some prev) = record bm { highest_clear_idx = prev }

-- The second half of `bitmap_refresh_bounds_after_set`, about the highest clear bit.
pub refresh_high : Bitmap → ℕ → Bitmap
unfolding lower_high
refresh_high bm idx =
    if idx == bm.highest_clear_idx
    then if ltb 0 idx
      then lower_high bm (find_clear_backward bm (idx - 1) bm.lowest_clear_idx)
      else exhausted bm
    else bm

unfoldable pub raise_low : Bitmap → ℕ → Option ℕ → Bitmap
unfolding refresh_high
raise_low bm idx none = exhausted bm
raise_low bm idx (some next) = refresh_high (record bm { lowest_clear_idx = next }) idx

unfoldable pub refresh_bounds_after_set : Bitmap → ℕ → Bitmap
unfolding raise_low refresh_high
refresh_bounds_after_set bm idx =
    if no_bounds bm
    then bm
    else if idx == bm.lowest_clear_idx
    then raise_low bm idx (find_clear_forward bm (idx + 1) bm.highest_clear_idx)
    else refresh_high bm idx

-- Named `set_bit` and `clear_bit`, beside `Common.set`; each returns the new bitmap first.
unfoldable pub set_bit : Bitmap → ℕ → Bitmap × Bool
set_bit bm idx =
    if not bm.present || leb bm.bit_count idx
    then (bm, false)
    else if get bm idx
    then (bm, true)
    else let byte = bit_or (byte_at bm (idx / 8)) (2 ^ (idx % 8)) in
      (refresh_bounds_after_set (record bm { storage = set bm.storage (idx / 8) byte }) idx, true)

-- `byte &= ~(1 << k)` keeps the other seven bits.
unfoldable pub clear_bit : Bitmap → ℕ → Bitmap × Bool
clear_bit bm idx =
    if not bm.present || leb bm.bit_count idx
    then (bm, false)
    else if not (get bm idx)
    then (bm, true)
    else let byte = bit_and (byte_at bm (idx / 8)) (0xFF - 2 ^ (idx % 8)) in
      let bm' : Bitmap = record bm { storage = set bm.storage (idx / 8) byte } in
      if no_bounds bm
      then (record bm' { lowest_clear_idx = idx; highest_clear_idx = idx }, true)
      else let lowest = if ltb idx bm.lowest_clear_idx then idx else bm.lowest_clear_idx in
        let highest = if ltb bm.highest_clear_idx idx then idx else bm.highest_clear_idx in
        (record bm' { lowest_clear_idx = lowest; highest_clear_idx = highest }, true)

unfoldable pub find_clear : Bitmap → Option ℕ
find_clear bm =
    if not bm.present || no_bounds bm
    then none
    else find_clear_forward bm bm.lowest_clear_idx bm.highest_clear_idx
