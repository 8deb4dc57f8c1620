-- ===== src/Ringbuffer/Examples.antt =====
-- kernel/utils/ringbuffer.c at a ring of three slots, with a lock that counts.
use hojicha.Ringbuffer.{Lock, Ringbuffer, new, write, read}
use hojicha.Ringbuffer.Fifo.{IsValid, contents, read_lem, write_lem}
use hojicha.Common.{◌++◌, ℕ, ◌+◌, ◌≡◌, refl, ◌⊎◌, none, some, [], ◌∷◌, arith, true}

-- The state counts the calls: 1 for a lock, 10 for an unlock.
abbrev counting : Lock ℕ
counting = record {
  state = 0;
  read_lock_fn = some (λ n. n + 1);
  read_unlock_fn = some (λ n. n + 10);
  write_lock_fn = some (λ n. n + 1);
  write_unlock_fn = some (λ n. n + 10);
}

abbrev empty : Ringbuffer ℕ
empty = record {
  buf = 0 ∷ 0 ∷ 0 ∷ 0 ∷ [];
  read_pos = 0;
  write_pos = 0;
  size = 3;
  lock = some counting;
}

-- 7 and 8 wait, after one read.
abbrev busy : Ringbuffer ℕ
busy = record { buf = 0 ∷ 6 ∷ 7 ∷ 8 ∷ []; read_pos = 2; write_pos = 1; size = 3; lock = none }

busy-IsValid : IsValid busy
busy-IsValid = omega arith

runs :
    (contents busy ≡ 7 ∷ 8 ∷ [])
    × ((read busy).1 ≡ some 7)
    × (contents (write (write (write empty 1) 2) 3) ≡ 1 ∷ 2 ∷ 3 ∷ [])
    × ((read (write (write (write empty 1) 2) 3)).1 ≡ some 1)
    × ((write empty 1).lock ≡ some (record counting { state = 11 }))
    × (new {L = ℕ} true true 3 (some counting) ≡ some empty)
unfolding read write new
runs = (refl, refl, refl, refl, refl, refl)

read_lem_example :
    IsValid (read busy).0
    × (((contents busy ≡ []) × ((read busy).1 ≡ none) × (contents (read busy).0 ≡ []))
        ⊎ ((x : ℕ) × ((read busy).1 ≡ some x) × (contents busy ≡ x ∷ contents (read busy).0)))
read_lem_example = read_lem busy busy-IsValid

-- One value waits, in the last slot, and the next goes to the first.
abbrev round : Ringbuffer ℕ
round = record empty { read_pos = 3; write_pos = 1 }

round-IsValid : IsValid round
round-IsValid = omega arith

write_lem_example : IsValid (write round 9) × (contents (write round 9) ≡ contents round ++ 9 ∷ [])
write_lem_example = write_lem round 9 round-IsValid (omega arith)
