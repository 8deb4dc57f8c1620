-- ===== src/CString/Move.antt =====
-- The memory functions of libc/string.
use hojicha.CString.{Memory, write, copy_up, copy_down, memmove, memset}
use hojicha.Common.{ℕ, zero, suc, ◌+◌, ◌-◌, ◌%◌, ◌≤◌, ◌≡◌, ◌&&◌, ltb, leb, if◌then◌else◌, arith}

pub copy_up_lem :
    (size : ℕ) (memory : Memory) (dest src p : ℕ)
    → dest ≤ src
    → copy_up size memory dest src p
      ≡ (if leb dest p && ltb p (dest + size) then memory (src + (p - dest)) else memory p)
unfolding copy_up
copy_up_lem zero memory dest src p h = ground arith
copy_up_lem (suc size) memory dest src p h =
    ground (arith, copy_up_lem size (write memory dest (memory src)) (dest + 1) (src + 1) p)

-- The same when the source ends before the destination.
pub copy_up-before :
    (size : ℕ) (memory : Memory) (dest src p : ℕ)
    → src + size ≤ dest
    → copy_up size memory dest src p
      ≡ (if leb dest p && ltb p (dest + size) then memory (src + (p - dest)) else memory p)
unfolding copy_up
copy_up-before zero memory dest src p h = ground arith
copy_up-before (suc size) memory dest src p h =
    ground (arith, copy_up-before size (write memory dest (memory src)) (dest + 1) (src + 1) p)

copy_down_lem :
    (size : ℕ) (memory : Memory) (dest src p : ℕ)
    → src ≤ dest
    → copy_down size memory dest src p
      ≡ (if leb dest p && ltb p (dest + size) then memory (src + (p - dest)) else memory p)
unfolding copy_down
copy_down_lem zero memory dest src p h = ground arith
copy_down_lem (suc size) memory dest src p h =
    ground (arith, copy_down_lem size (write memory (dest + size) (memory (src + size))) dest src p)

-- `memmove` leaves in the destination the bytes that the source held before the call, however the
-- two overlap, and changes no other byte.
pub memmove_lem :
    (memory : Memory) (dest src size p : ℕ)
    → memmove memory dest src size p
      ≡ (if leb dest p && ltb p (dest + size) then memory (src + (p - dest)) else memory p)
unfolding memmove
memmove_lem memory dest src size p =
    ground (arith, copy_up_lem size memory dest src p, copy_down_lem size memory dest src p)

-- `memset` leaves the byte of the value all over the area and changes no other byte.
pub memset_lem :
    (size : ℕ) (memory : Memory) (buf value p : ℕ)
    → memset size memory buf value p
      ≡ (if leb buf p && ltb p (buf + size) then value % 256 else memory p)
unfolding memset
memset_lem zero memory buf value p = ground arith
memset_lem (suc size) memory buf value p =
    ground (arith, memset_lem size (write memory buf (value % 256)) (buf + 1) value p)
