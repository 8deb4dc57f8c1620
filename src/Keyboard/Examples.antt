-- ===== src/Keyboard/Examples.antt =====
-- Keys on kernel/drivers/keyboard.c.
use hojicha.Ringbuffer.Fifo.{IsValid}
use hojicha.Keyboard.{
  Keyboard, event_of, keyboard_write_event, keyboard_read_event, handle_scancode,
}
use hojicha.Keyboard.Events.{Waits, places, pending, keyboard_write_event-Waits}
use hojicha.Common.{◌≡◌, refl, [], ◌∷◌, ◌++◌, none, some, true, false, replicate, arith}

abbrev idle : Keyboard
idle = record {
  is_created = true;
  ring = record { buf = replicate 257 0; read_pos = 0; write_pos = 0; size = 256; lock = none };
  pool = λ i. record { scancode = 0; is_down = false; timestamp = 0; sequence = 0 };
  sequence = 0;
}

-- A, with and without shift, and the keys that are not looked up as they are marked: Control gives the
-- letter of the key behind it, the right shift key a space, and Escape reads before the table.
keys :
    (handle_scancode false 30 ≡ some (false, some 97))
    × (handle_scancode true 30 ≡ some (true, some 65))
    × (handle_scancode false 42 ≡ some (true, none))
    × (handle_scancode true 170 ≡ some (false, none))
    × (handle_scancode false 29 ≡ some (false, some 97))
    × (handle_scancode false 54 ≡ some (false, some 32))
    × (handle_scancode false 1 ≡ none)
    × (handle_scancode false 55 ≡ none)
unfolding handle_scancode
keys = (refl, refl, refl, refl, refl, refl, refl, refl)

idle-IsValid : IsValid idle.ring
idle-IsValid = record {
  room = refl;
  pos = omega arith;
  read_in = omega arith;
  write_in = omega arith;
  written = λ e. refl;
}

idle-Waits : Waits idle 0 0
unfolding Waits places
idle-Waits = (idle-IsValid, refl, refl, refl)

first_event : (keyboard_read_event (keyboard_write_event idle 30 5)).1 ≡ some (event_of idle 30 5)
unfolding keyboard_write_event keyboard_read_event
first_event = refl

keyboard_write_event-Waits_example :
    Waits (keyboard_write_event idle 30 5) 0 1
    × (pending (keyboard_write_event idle 30 5) ≡ pending idle ++ (event_of idle 30 5 ∷ []))
keyboard_write_event-Waits_example =
    keyboard_write_event-Waits idle 0 0 30 5 idle-Waits (omega arith) (omega arith) (omega arith)
