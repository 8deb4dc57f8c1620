-- ===== src/Ringbuffer.antt =====
-- kernel/utils/ringbuffer.c: a ring of pointers over `size + 1` slots, of which slot 0 stays unused.
mod Examples
pub mod Fifo
use hojicha.Common.{
  ℕ, suc, ◌+◌, Bool, true, false, ◌&&◌, Option, none, some, List, ltb, ◌==◌, if◌then◌else◌, get_or,
  set, replicate,
}

-- The caller's lock: its state, and the callbacks that the ring may have been given.
pub record Lock (L : Type 0) : Type 0 where
  pub state : L
  pub read_lock_fn : Option (L → L)
  pub read_unlock_fn : Option (L → L)
  pub write_lock_fn : Option (L → L)
  pub write_unlock_fn : Option (L → L)

-- `struct ringbuffer`; `lock` is `none` for a NULL lock pointer.
pub record Ringbuffer (L : Type 0) : Type 0 where
  pub buf : List ℕ
  pub read_pos : ℕ
  pub write_pos : ℕ
  pub size : ℕ
  pub lock : Option (Lock L)

-- A position past the last slot goes back to slot 1.
abbrev pub wrap : ℕ → ℕ → ℕ
wrap size pos = if ltb size pos then 1 else pos

abbrev pub first : ℕ → ℕ
first pos = if pos == 0 then 1 else pos

module _ {L : Type 0} where
  -- Each macro calls one callback of a pair, when the lock and both callbacks of the pair are there.
  pub guarded : Option (L → L) → Option (L → L) → (L → L → L) → L → L
  guarded none unlock call l = l
  guarded (some lock_fn) none call l = l
  guarded (some lock_fn) (some unlock_fn) call l = call (lock_fn l) (unlock_fn l)

  pub over : (Lock L → L) → Option (Lock L) → Option (Lock L)
  over step none = none
  over step (some k) = some (record k { state = step k })

  pub read_lock : Option (Lock L) → Option (Lock L)
  unfolding over guarded
  read_lock = over (λ k. guarded k.read_lock_fn k.read_unlock_fn (λ a b. a) k.state)

  pub read_unlock : Option (Lock L) → Option (Lock L)
  unfolding over guarded
  read_unlock = over (λ k. guarded k.read_lock_fn k.read_unlock_fn (λ a b. b) k.state)

  pub write_lock : Option (Lock L) → Option (Lock L)
  unfolding over guarded
  write_lock = over (λ k. guarded k.write_lock_fn k.write_unlock_fn (λ a b. a) k.state)

  pub write_unlock : Option (Lock L) → Option (Lock L)
  unfolding over guarded
  write_unlock = over (λ k. guarded k.write_lock_fn k.write_unlock_fn (λ a b. b) k.state)

  -- `slab_calloc` answers for the structure and for the slots; both must succeed.
  unfoldable pub new :
      (ret_allocated buffer_allocated : Bool) → ℕ → Option (Lock L) → Option (Ringbuffer L)
  new ret_allocated buffer_allocated size lock =
      if ret_allocated && buffer_allocated
      then some (record {
        buf = replicate (suc size) 0;
        read_pos = 0;
        write_pos = 0;
        size = size;
        lock = lock;
      })
      else none

  unfoldable pub write : Ringbuffer L → ℕ → Ringbuffer L
  unfolding write_lock write_unlock
  write r value =
      let pos = first r.write_pos in
      record r {
        buf = set r.buf pos value;
        write_pos = wrap r.size (pos + 1);
        lock = write_unlock (write_lock r.lock);
      }

  -- The value that goes out, or none when the positions meet.
  unfoldable pub read : Ringbuffer L → Ringbuffer L × Option ℕ
  unfolding read_lock read_unlock
  read r =
      let lock' = read_unlock (read_lock r.lock) in
      if r.read_pos == r.write_pos
      then (record r { lock = lock' }, none)
      else let pos = first r.read_pos in
        (record r { read_pos = wrap r.size (pos + 1); lock = lock' }, some (get_or r.buf pos 0))
