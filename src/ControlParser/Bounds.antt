-- ===== src/ControlParser/Bounds.antt =====
-- What kernel/drivers/tty_control.c can do to the terminal and to its own array, whatever it reads.
use hojicha.ControlParser.{
  State, text, escape, csi, Sequence, Parser, Call, putchar, set_cursor_pos, clear_display,
  max_params, clamp, is_digit, is_alpha, reset, csi_begin, param_push, param_or_default, handle_h,
  handle_j, dispatch, step, write,
}
use hojicha.Common.{
  ℕ, ◌≤◌, ◌<◌, ◌≡◌, false, ◌||◌, List, [], ◌∷◌, ◌==◌, arith, All, All-append, length, length-set,
  ◌∙◌, if◌then◌else◌, ltb, if_ind,
}

-- The array has its room and the count stays inside.
pub record IsValid (parser : Parser) : Type 0 where
  pub room : length parser.sequence.params ≡ max_params
  pub count : parser.sequence.param_count ≤ max_params

-- A call stays on the screen, and a clearing has one of the three modes.
abbrev pub OnScreen : (height width : ℕ) → Call → Type 0
OnScreen height width (putchar c) = Unit
OnScreen height width (set_cursor_pos row col) = (row < height) × (col < width)
OnScreen height width (clear_display mode) = mode ≤ 2

param_push-IsValid : (parser : Parser) → IsValid parser → IsValid (param_push parser)
unfolding param_push
param_push-IsValid parser v = record {
  room =
      if_ind (λ (q : Sequence). length q.params ≡ max_params)
        (ltb parser.sequence.param_count max_params) _ parser.sequence
        (λ t. length-set parser.sequence.params parser.sequence.param_count _ ∙ v.room)
        (λ f. v.room);
  count = ground (arith, v.count);
}

module _ (height width : ℕ) where
  abbrev Calls : List Call → Type 0
  Calls = All (OnScreen height width)

  clamp-bound : (value bound : ℕ) → (bound == 0) ≡ false → clamp value bound < bound
  clamp-bound value bound h = ground (arith, h)

  dispatch-OnScreen : (s : Sequence) → Calls (dispatch height width s)
  unfolding dispatch handle_h handle_j
  dispatch-OnScreen s =
      if_ind Calls (s.command == 72 || s.command == 102) _ _
        (λ move.
          if_ind Calls (height == 0 || width == 0) [] _ (λ t. tt)
            (λ f. (
              (
                clamp-bound (param_or_default s 0 1) height (ground (arith, f)),
                clamp-bound (param_or_default s 1 1) width (ground (arith, f)),
              ),
              tt,
            )))
        (λ other.
          if_ind Calls (s.command == 74) _ []
            (λ t.
              if_ind Calls _ (clear_display (param_or_default s 0 0) ∷ []) []
                (λ m. (ground (arith, m), tt)) (λ f. tt))
            (λ f. tt))

  abbrev Good : Parser × List Call → Type 0
  Good r = IsValid r.0 × Calls r.1

  step-IsValid :
      (state : State) (parser : Parser) (c : ℕ)
      → IsValid parser
      → Good (step height width state parser c)
  unfolding step reset csi_begin
  step-IsValid text parser c v =
      if_ind Good (c == 27) _ _ (λ t. (record { room = v.room; count = v.count }, tt))
        (λ f. (v, (tt, tt)))
  step-IsValid escape parser c v =
      if_ind Good (c == 91) _ _ (λ t. (record { room = v.room; count = omega arith }, tt))
        (λ f.
          if_ind Good (c == 27) _ _ (λ t. (v, tt))
            (λ f. (record { room = v.room; count = omega arith }, tt)))
  step-IsValid csi parser c v =
      let pushed = param_push-IsValid parser v in
      if_ind Good (is_digit c) _ _ (λ t. (record { room = v.room; count = v.count }, tt))
        (λ f.
          if_ind Good (c == 59) _ _ (λ t. (record { room = pushed.room; count = pushed.count }, tt))
            (λ f.
              if_ind Good (is_alpha c) _ _
                (λ t. (
                  record {
                    room =
                        if_ind (λ (p : Parser). length p.sequence.params ≡ max_params)
                          (parser.has_current_param || parser.last_was_separator) _ _
                          (λ t. pushed.room) (λ f. v.room);
                    count = omega arith;
                  },
                  dispatch-OnScreen
                      (record ((if parser.has_current_param || parser.last_was_separator
                        then param_push parser
                        else parser).sequence) { command = c }),
                ))
                (λ f. (v, tt))))

-- Whatever is written, the parser never counts more parameters than its array holds, every cursor
-- position lies on the screen, and every clearing has one of the three modes.
pub write-OnScreen :
    (height width : ℕ) (data' : List ℕ) (parser : Parser)
    → IsValid parser
    → IsValid (write height width parser data').0
      × All (OnScreen height width) (write height width parser data').1
unfolding write
write-OnScreen height width [] parser v = (v, tt)
write-OnScreen height width (c ∷ rest) parser v =
    let (v', a) = step-IsValid height width parser.state parser c v in
    let (v'', b) =
      write-OnScreen height width rest (step height width parser.state parser c).0 v' in
    (v'', All-append (OnScreen height width) _ _ a b)
