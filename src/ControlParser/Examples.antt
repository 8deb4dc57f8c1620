-- ===== src/ControlParser/Examples.antt =====
-- kernel/drivers/tty_control.c on small inputs.
use hojicha.ControlParser.{
  text, Call, putchar, set_cursor_pos, clear_display, initial, reset, csi_begin, param_push,
  param_or_default, handle_h, handle_j, dispatch, step, write,
}
use hojicha.ControlParser.Bounds.{IsValid, OnScreen, write-OnScreen}
use hojicha.ControlParser.Stream.{digits, write_cursor_move, encode_all, CanSend, write-encode_all}
use hojicha.Common.{ℕ, ◌≡◌, refl, List, [], ◌∷◌, min, ◌-◌, arith, All}

initial-IsValid : IsValid initial
initial-IsValid = record { room = refl; count = omega arith }

-- ESC [ 3 ; 7 H, a letter, and ESC [ 2 J on a screen of 25 lines of 80.
abbrev input : List ℕ
input = 27 ∷ 91 ∷ 51 ∷ 59 ∷ 55 ∷ 72 ∷ 65 ∷ 27 ∷ 91 ∷ 50 ∷ 74 ∷ []

calls : (write 25 80 initial input).1 ≡ set_cursor_pos 2 6 ∷ putchar 65 ∷ clear_display 2 ∷ []
unfolding write step reset csi_begin param_push dispatch handle_h handle_j param_or_default
calls = refl

write-OnScreen_example :
    IsValid (write 25 80 initial input).0 × All (OnScreen 25 80) (write 25 80 initial input).1
write-OnScreen_example = write-OnScreen 25 80 input initial initial-IsValid

write_cursor_move_example :
    (let (parser', calls) =
        write 25 80 initial (27 ∷ 91 ∷ digits 20 12 (59 ∷ digits 20 100 (72 ∷ []))) in
      (parser'.state ≡ text) × (calls ≡ set_cursor_pos (min 12 25 - 1) (min 100 80 - 1) ∷ []))
write_cursor_move_example =
    write_cursor_move 25 80 initial 12 100 initial-IsValid refl
      (omega arith, omega arith, omega arith, omega arith) (omega arith, omega arith)
      (omega arith, omega arith)

-- A clearing, a move to the fifth column of the third line, and a letter.
abbrev sent : List Call
sent = clear_display 2 ∷ set_cursor_pos 2 4 ∷ putchar 65 ∷ []

write-encode_all_example : (write 25 80 initial (encode_all sent)).1 ≡ sent
unfolding CanSend
write-encode_all_example =
    write-encode_all 25 80 sent initial initial-IsValid refl
      (omega arith, omega arith, omega arith, omega arith)
      (omega arith, ((omega arith, omega arith), (omega arith, tt)))
