-- ===== src/Ringbuffer/Fifo.antt =====
-- kernel/utils/ringbuffer.c against a bounded first-in first-out queue.
use mathlib.Core.Path.{ap₂}
use hojicha.Ringbuffer.{Ringbuffer, wrap, first, write, read}
use hojicha.Common.{
  ℕ, zero, suc, ◌+◌, ◌-◌, ◌≤◌, ◌<◌, ◌≡◌, ◌≢◌, refl, ap, ◌⊎◌, none, some, List, [], ◌∷◌, ◌++◌, leb,
  ◌==◌, if◌then◌else◌, get_or, set, length, length-set, get_or-set_self, get_or-set_ne, arith, ◌∙◌,
  sym, Bool-cases, inl, inr,
}

-- The slot `k` steps after slot `h`, going round from `size` to 1.
abbrev slot : ℕ → ℕ → ℕ → ℕ
slot size h k = if leb (h + k) size then h + k else h + k - size

module _ (buf : List ℕ) (size : ℕ) where
  abbrev pub window : ℕ → ℕ → List ℕ
  window h zero = []
  window h (suc n) = get_or buf h 0 ∷ window (wrap size (h + 1)) n

  window_of_pos :
      (h n : ℕ) → 0 < n → window h n ≡ get_or buf h 0 ∷ window (wrap size (h + 1)) (n - 1)
  window_of_pos h zero p = absurd (omega arith)
  window_of_pos h (suc n) p = ap (λ k. window h (suc k)) (omega arith)

-- A write just past a window extends it.
window-set :
    (buf : List ℕ) (size x n h i : ℕ)
    → size < length buf
    → 0 < h
    → h ≤ size
    → n < size
    → i ≡ slot size h n
    → window (set buf i x) size h (suc n) ≡ window buf size h n ++ x ∷ []
window-set buf size x zero h i l p q r e =
    let e' : i ≡ h = ground arith in rw (e', get_or-set_self buf h x 0 (omega arith))
window-set buf size x (suc n) h i l p q r e =
    let ne : i ≢ h = ground arith in
    rw (
      get_or-set_ne buf i h x 0 ne,
      window-set buf size x n (wrap size (h + 1)) i l (ground arith) (ground arith) (omega arith)
          (ground arith),
    )

module _ {L : Type 0} where
  -- How many values wait: before the first read the writer may go once round.
  abbrev pub waiting : Ringbuffer L → ℕ
  waiting r =
      if r.write_pos == 0
      then 0
      else if r.read_pos == 0
      then (if r.write_pos == 1 then r.size else r.write_pos - 1)
      else if leb r.read_pos r.write_pos
      then r.write_pos - r.read_pos
      else r.size + r.write_pos - r.read_pos

  abbrev pub contents : Ringbuffer L → List ℕ
  contents r = window r.buf r.size (first r.read_pos) (waiting r)

  -- Once a value has been read one slot stays free.
  abbrev pub capacity : Ringbuffer L → ℕ
  capacity r = if r.read_pos == 0 then r.size else r.size - 1

  pub record IsValid (r : Ringbuffer L) : Type 0 where
    pub room : length r.buf ≡ suc r.size
    pub pos : 0 < r.size
    pub read_in : r.read_pos ≤ r.size
    pub write_in : r.write_pos ≤ r.size
    pub written : r.write_pos ≡ 0 → r.read_pos ≡ 0

  waiting-write :
      (r : Ringbuffer L) (x : ℕ)
      → IsValid r
      → waiting r < capacity r
      → (waiting (write r x) ≡ suc (waiting r))
        × (first r.write_pos ≡ slot r.size (first r.read_pos) (waiting r))
  unfolding write
  waiting-write r x v h = (
    ground (arith, v.pos, v.read_in, v.write_in, v.written),
    ground (arith, v.pos, v.read_in, v.write_in, v.written),
  )

  write-IsValid : (r : Ringbuffer L) (x : ℕ) → IsValid r → IsValid (write r x)
  unfolding write
  write-IsValid r x v = record {
    room = length-set r.buf (first r.write_pos) x ∙ v.room;
    pos = v.pos;
    read_in = v.read_in;
    write_in = ground (arith, v.write_in, v.pos);
    written = λ e. ground arith;
  }

  -- `write` keeps the ring valid, and while fewer values wait than the ring takes it adds its value
  -- behind them.
  pub write_lem :
      (r : Ringbuffer L) (x : ℕ)
      → IsValid r
      → waiting r < capacity r
      → IsValid (write r x) × (contents (write r x) ≡ contents r ++ x ∷ [])
  unfolding write
  write_lem r x v h =
      let (count, at) = waiting-write r x v h in
      (
        write-IsValid r x v,
        ap (window (set r.buf (first r.write_pos) x) r.size (first r.read_pos)) count
            ∙ window-set r.buf r.size x (waiting r) (first r.read_pos) (first r.write_pos)
                (omega (arith, v.room)) (ground arith) (ground (arith, v.read_in, v.pos))
                (ground (arith, h, v.pos)) at,
      )

  abbrev waiting_from : Ringbuffer L → ℕ → ℕ
  waiting_from r pos = waiting (record r { read_pos = pos })

  -- `read` keeps the ring valid, hands out the oldest of the waiting values and keeps the others;
  -- it hands out nothing exactly when none waits.
  pub read_lem :
      (r : Ringbuffer L)
      → IsValid r
      → IsValid (read r).0
        × (((contents r ≡ []) × ((read r).1 ≡ none) × (contents (read r).0 ≡ []))
            ⊎ ((x : ℕ) × ((read r).1 ≡ some x) × (contents r ≡ x ∷ contents (read r).0)))
  unfolding read
  read_lem r v = elim (Bool-cases (r.read_pos == r.write_pos)) [
    | inl meet ↦
        let z : waiting r ≡ 0 = ground (arith, meet) in
        rw meet (
          record {
            room = v.room;
            pos = v.pos;
            read_in = v.read_in;
            write_in = v.write_in;
            written = v.written;
          },
          inl (rw z, refl, rw z),
        )
    | inr apart ↦
        let more : 0 < waiting r = ground (arith, apart, v.pos, v.read_in, v.write_in, v.written) in
        let less : waiting_from r (wrap r.size (first r.read_pos + 1)) ≡ waiting r - 1 =
          ground (arith, apart, v.pos, v.read_in, v.write_in, v.written) in
        let same : first (wrap r.size (first r.read_pos + 1)) ≡ wrap r.size (first r.read_pos + 1) =
          ground arith in
        rw apart (
          record {
            room = v.room;
            pos = v.pos;
            read_in = ground (arith, v.read_in, v.pos);
            write_in = v.write_in;
            written = ground (arith, v.written, apart);
          },
          inr (
            get_or r.buf (first r.read_pos) 0,
            refl,
            window_of_pos r.buf r.size (first r.read_pos) (waiting r) more
                ∙ ap₂ (λ p n. get_or r.buf (first r.read_pos) 0 ∷ window r.buf r.size p n)
                    (sym same) (sym less),
          ),
        )
  ]

  -- A write to a full ring that has been read before makes every waiting value unreadable: the next
  -- read hands out nothing.
  pub overrun_empties :
      (r : Ringbuffer L) (x : ℕ)
      → IsValid r
      → 0 < r.read_pos
      → waiting r ≡ capacity r
      → (read (write r x)).1 ≡ none
  unfolding write read
  overrun_empties r x v p f = ground (arith, v.pos, v.read_in, v.write_in)
