-- ===== src/Keyboard.antt =====
-- kernel/drivers/keyboard.c: scan codes, the characters they stand for and the queue of key events, a
-- client of Ringbuffer.
--
-- The ring holds pointers into the pool of events, here the index of the event. The clock is an
-- argument; the locks, the wake-up of readers and the ports are left out.
mod Examples
pub mod Events
use hojicha.Ringbuffer
use hojicha.Ringbuffer.{Ringbuffer}
use hojicha.Common.{
  ℕ, zero, suc, ◌+◌, ◌-◌, ◌%◌, ◌^◌, Bool, true, false, Option, none, some, List, [], ◌∷◌, ltb, ◌==◌,
  if◌then◌else◌, get_elem?,
}

abbrev pub keyboard_event_buffer_size : ℕ
keyboard_event_buffer_size = 256

pub record Event : Type 0 where
  pub scancode : ℕ
  pub is_down : Bool
  pub timestamp : ℕ
  pub sequence : ℕ

-- `keyboard_events`, `keyboard_event_pool` and `keyboard_event_sequence`; the ring has no locks.
-- `is_created` is false while `keyboard_events` is NULL.
pub record Keyboard : Type 0 where
  pub is_created : Bool
  pub ring : Ringbuffer Unit
  pub pool : ℕ → Event
  pub sequence : ℕ

abbrev pub put : (ℕ → Event) → ℕ → Event → ℕ → Event
put pool i e = λ q. if q == i then e else pool q

unfoldable pub keyboard_scancode_direction : ℕ → Bool
keyboard_scancode_direction scancode = ltb (scancode % 256) 128

abbrev pub event_of : Keyboard → (scancode now : ℕ) → Event
event_of kb scancode now = record {
  scancode = scancode;
  is_down = keyboard_scancode_direction scancode;
  timestamp = now;
  sequence = kb.sequence;
}

unfoldable pub keyboard_write_event : Keyboard → (scancode now : ℕ) → Keyboard
unfolding Ringbuffer.write keyboard_scancode_direction
keyboard_write_event kb scancode now =
    let idx = kb.sequence % keyboard_event_buffer_size in
    if kb.is_created
    then record kb {
      ring = Ringbuffer.write kb.ring idx;
      pool = put kb.pool idx (event_of kb scancode now);
      sequence = (kb.sequence + 1) % 2 ^ 64;
    }
    else kb

unfoldable pub keyboard_read_event : Keyboard → Keyboard × Option Event
unfolding Ringbuffer.read
keyboard_read_event kb =
    let (ring, value) = Ringbuffer.read kb.ring in
    if kb.is_created
    then (record kb { ring = ring }, elim value [ none ↦ none | some i ↦ some (kb.pool i) ])
    else (kb, none)

abbrev pub keyboard_characters : List ℕ
keyboard_characters =
    49 ∷ 50 ∷ 51 ∷ 52 ∷ 53 ∷ 54 ∷ 55 ∷ 56 ∷ 57 ∷ 48 ∷ 45 ∷ 94 ∷ 8 ∷ 9 ∷ 113 ∷ 119 ∷ 101 ∷ 114 ∷ 116
    ∷ 121 ∷ 117 ∷ 105 ∷ 111 ∷ 112 ∷ 64 ∷ 91 ∷ 10 ∷ 97 ∷ 115 ∷ 100 ∷ 102 ∷ 103 ∷ 104 ∷ 106 ∷ 107
    ∷ 108 ∷ 59 ∷ 58 ∷ 93 ∷ 122 ∷ 120 ∷ 99 ∷ 118 ∷ 98 ∷ 110 ∷ 109 ∷ 44 ∷ 46 ∷ 47 ∷ 32 ∷ []

abbrev pub shifted_keyboard_characters : List ℕ
shifted_keyboard_characters =
    33 ∷ 34 ∷ 35 ∷ 36 ∷ 37 ∷ 38 ∷ 39 ∷ 40 ∷ 41 ∷ 0 ∷ 61 ∷ 126 ∷ 8 ∷ 9 ∷ 81 ∷ 87 ∷ 69 ∷ 82 ∷ 84 ∷ 89
    ∷ 85 ∷ 73 ∷ 79 ∷ 80 ∷ 96 ∷ 123 ∷ 10 ∷ 65 ∷ 83 ∷ 68 ∷ 70 ∷ 71 ∷ 72 ∷ 74 ∷ 75 ∷ 76 ∷ 43 ∷ 42 ∷ 125
    ∷ 90 ∷ 88 ∷ 67 ∷ 86 ∷ 66 ∷ 78 ∷ 77 ∷ 60 ∷ 62 ∷ 63 ∷ 32 ∷ []

-- `table[scancode - offset]`; `none` is a read outside of the table.
abbrev pub entry : List ℕ → (scancode offset : ℕ) → Option ℕ
entry table scancode offset =
    if ltb scancode offset then none else get_elem? table (scancode - offset)

-- Both lookups, by their table and their character for the scan code 0xF3.
unfoldable pub lookup : List ℕ → ℕ → (scancode : ℕ) → Option ℕ
lookup table last scancode =
    if ltb scancode 30
    then entry table scancode 2
    else if ltb scancode 43
    then entry table scancode 3
    else if ltb scancode 56
    then entry table scancode 5
    else if scancode == 57
    then entry table scancode 8
    else if scancode == 243
    then some last
    else some 0

unfoldable pub lookup_scancode : (shift_held : Bool) → (scancode : ℕ) → Option ℕ
unfolding lookup
lookup_scancode shift_held scancode =
    if shift_held
    then lookup shifted_keyboard_characters 95 scancode
    else lookup keyboard_characters 92 scancode

-- Whether shift is held now, and the character that the terminal receives, if any.
unfoldable pub handle_scancode : (shift_held : Bool) → (scancode : ℕ) → Option (Bool × Option ℕ)
unfolding lookup_scancode
handle_scancode shift_held scancode =
    if scancode == 42
    then some (true, none)
    else if scancode == 170
    then some (false, none)
    else elim (lookup_scancode shift_held scancode) [
      | none ↦ none
      | some c ↦ some (shift_held, if c == 0 then none else some c)
    ]
