-- ===== src/ControlParser/Stream.antt =====
-- kernel/drivers/tty_control.c on whole inputs: parts, plain text, and a cursor move.
use mathlib.Core.List.{append_assoc}
use hojicha.ControlParser.Bounds.{IsValid, write-OnScreen}
use hojicha.ControlParser.{
  is_digit, text, escape, csi, Parser, Call, putchar, set_cursor_pos, clear_display, clamp, restart,
  param_none, csi_begin, param_push, param_or_default, handle_h, handle_j, dispatch, step, write,
  reset,
}
use hojicha.Common.{
  ℕ, zero, suc, ◌+◌, ◌-◌, ◌*◌, ◌/◌, ◌%◌, ◌^◌, ◌<◌, ◌≤◌, min, ◌≡◌, ◌≢◌, refl, true, false, List, [],
  ◌∷◌, ◌++◌, ◌==◌, arith, All, map, dec_lt, set, get_or, get_or-set_self, get_or-set_ne, length-set,
  ◌||◌, if◌then◌else◌, sym, ◌∙◌, ap,
}

-- Writing in parts is writing at once: the parser carries all that the next part needs.
write-append :
    (height width : ℕ) (parser : Parser) (xs ys : List ℕ)
    → write height width parser (xs ++ ys) ≡ (
      (write height width (write height width parser xs).0 ys).0,
      (write height width parser xs).1
          ++ (write height width (write height width parser xs).0 ys).1,
    )
unfolding write
write-append height width parser [] ys = refl
write-append height width parser (c ∷ xs) ys =
    let r = step height width parser.state parser c in
    rw (write-append height width r.0 xs ys) (
      ap (λ l. ((write height width (write height width r.0 xs).0 ys).0, l))
        (sym (
          append_assoc r.1 (write height width r.0 xs).1
            (write height width (write height width r.0 xs).0 ys).1)))

step_plain :
    (height width : ℕ) (parser : Parser) (c : ℕ)
    → parser.state ≡ text
    → c ≢ 27
    → step height width parser.state parser c ≡ (parser, putchar c ∷ [])
unfolding step
step_plain height width parser c t ne =
    let other : (c == 27) ≡ false = ground (arith, ne) in
    ap (λ st. step height width st parser c) t
    ∙ ap (λ b. if b then (record parser { state = escape }, []) else (parser, putchar c ∷ [])) other

-- Text without an escape character is put out as it is and leaves the parser in the text state.
pub write_plain :
    (height width : ℕ) (parser : Parser) (xs : List ℕ)
    → parser.state ≡ text
    → All (λ c. c ≢ 27) xs
    → write height width parser xs ≡ (parser, map putchar xs)
unfolding write
write_plain height width parser [] t h = refl
write_plain height width parser (c ∷ xs) t (ne, h) =
    ap (λ r. ((write height width r.0 xs).0, r.1 ++ (write height width r.0 xs).1))
      (step_plain height width parser c t ne)
    ∙ ap (λ r. (r.0, putchar c ∷ r.1)) (write_plain height width parser xs t h)

-- The decimal digits of `n`, the highest first, in `fuel` places at most, before `rest`.
abbrev pub digits : ℕ → ℕ → List ℕ → List ℕ
digits zero n rest = rest
digits (suc fuel) n rest =
    let more = digits fuel (n / 10) ((48 + n % 10) ∷ rest) in if n == 0 then rest else more

-- The parser in a control sequence after the digits of `n`, which follow the digits of `m`.
abbrev counted : Parser → ℕ → Parser
counted parser n = record parser {
  state = csi;
  current_param = n;
  has_current_param = true;
  last_was_separator = false;
}

write-digit :
    (height width : ℕ) (parser : Parser) (m d : ℕ) (rest : List ℕ)
    → parser.state ≡ csi
    → parser.current_param ≡ m
    → d < 10
    → m * 10 + d < 2 ^ 64
    → write height width parser ((48 + d) ∷ rest)
      ≡ write height width (counted parser (m * 10 + d)) rest
unfolding write step
write-digit height width parser m d rest s e h small =
    let yes : is_digit (48 + d) ≡ true = ground arith in
    let value : (m * 10 + (48 + d - 48)) % 2 ^ 64 ≡ m * 10 + d = omega arith in
    rw (s, e, yes, value) refl

digits-zero : (fuel : ℕ) (rest : List ℕ) → digits fuel 0 rest ≡ rest
digits-zero zero rest = refl
digits-zero (suc fuel) rest = refl

write-digits :
    (height width fuel : ℕ) (parser : Parser) (n : ℕ) (rest : List ℕ)
    → parser.state ≡ csi
    → parser.current_param ≡ 0
    → 0 < n
    → n < 10 ^ fuel
    → n < 2 ^ 64
    → write height width parser (digits fuel n rest) ≡ write height width (counted parser n) rest
write-digits height width zero parser n rest s e pos h small = absurd (omega arith)
write-digits height width (suc fuel) parser n rest s e pos h small =
    let some_digit : (n == 0) ≡ false = ground arith in
    let whole : n / 10 * 10 + n % 10 ≡ n = omega arith in
    let step = λ (p : Parser) (t : p.state ≡ csi) (c : p.current_param ≡ n / 10).
      write-digit height width p (n / 10) (n % 10) rest t c (omega arith) (omega arith) in
    let same = ap (λ k. write height width (counted parser k) rest) whole in
    rw some_digit (elim (dec_lt 0 (n / 10)) [
      | yes more ↦
          write-digits height width fuel parser (n / 10) ((48 + n % 10) ∷ rest) s e more
            (omega arith) (omega arith)
          ∙ step (counted parser (n / 10)) refl refl
          ∙ same
      | no single ↦
          let z : n / 10 ≡ 0 = omega arith in
          ap (λ k. write height width parser (digits fuel k ((48 + n % 10) ∷ rest))) z
          ∙ ap (write height width parser) (digits-zero fuel ((48 + n % 10) ∷ rest))
          ∙ step parser s (e ∙ sym z)
          ∙ same
    ])

-- The parser after the first parameter and its separator.
abbrev separated : Parser → ℕ → Parser
separated parser row = record parser {
  state = csi;
  sequence = record { command = 0; params = set parser.sequence.params 0 row; param_count = 1 };
  current_param = 0;
  has_current_param = false;
  last_was_separator = true;
}

write_introducer :
    (height width : ℕ) (parser : Parser) (rest : List ℕ)
    → parser.state ≡ text
    → write height width parser (27 ∷ 91 ∷ rest) ≡ write height width (restart csi parser) rest
unfolding write step csi_begin
write_introducer height width parser rest t = rw t refl

write_separator :
    (height width : ℕ) (parser : Parser) (row : ℕ) (rest : List ℕ)
    → write height width (counted (restart csi parser) row) (59 ∷ rest)
      ≡ write height width (separated parser row) rest
unfolding write step param_push
write_separator height width parser row rest = refl

-- The parser after a command.
abbrev back_to_text : Parser → List ℕ → Parser
back_to_text parser params = record parser {
  state = text;
  sequence = record { command = 0; params = params; param_count = 0 };
  current_param = 0;
  has_current_param = false;
  last_was_separator = false;
}

-- `clamp` without its tests and its cast: at most the last line, counted from 0.
clamp-min :
    (value bound : ℕ)
    → 0 < value
    → 0 < bound
    → bound ≤ 2 ^ 16
    → clamp value bound ≡ min value bound - 1
clamp-min value bound pos some_line small = ground arith

write_move :
    (height width : ℕ) (parser : Parser) (row col : ℕ)
    → IsValid parser
    → (height == 0 || width == 0) ≡ false
    → row < 2 ^ 64 - 1
    → col < 2 ^ 64 - 1
    → write height width (counted (separated parser row) col) (72 ∷ []) ≡ (
      back_to_text parser (set (set parser.sequence.params 0 row) 1 col),
      set_cursor_pos (clamp row height) (clamp col width) ∷ [],
    )
unfolding write step param_push dispatch handle_h param_or_default reset
write_move height width parser row col v screen r c =
    let ps = set parser.sequence.params 0 row in
    let first : get_or (set ps 1 col) 0 0 ≡ row =
      get_or-set_ne ps 1 0 col 0 (omega arith)
      ∙ get_or-set_self parser.sequence.params 0 row 0 (omega (arith, v.room)) in
    let second : get_or (set ps 1 col) 1 0 ≡ col =
      get_or-set_self ps 1 col 0 (omega (arith, v.room, length-set parser.sequence.params 0 row)) in
    let row_given : (row == param_none) ≡ false = ground arith in
    let col_given : (col == param_none) ≡ false = ground arith in
    rw (screen, first, second, row_given, col_given) refl

-- A screen that has a character, and whose coordinates fit in 16 bits.
abbrev pub IsScreen : (height width : ℕ) → Type 0
IsScreen height width = (0 < height) × (height ≤ 2 ^ 16) × (0 < width) × (width ≤ 2 ^ 16)

-- The sequence ESC [ row ; col H, with both numbers in decimal, moves the cursor once, to the given
-- row and column, counted from 1 and lowered to the last ones of the screen; the parser reads text
-- again. The screen is not empty and has at most 2 ^ 16 rows and columns, and the numbers are
-- positive and below 2 ^ 64 - 1.
pub write_cursor_move :
    (height width : ℕ) (parser : Parser) (row col : ℕ)
    → IsValid parser
    → parser.state ≡ text
    → IsScreen height width
    → (0 < row) × (row < 2 ^ 64 - 1)
    → (0 < col) × (col < 2 ^ 64 - 1)
    → (let (parser', calls) =
          write height width parser (27 ∷ 91 ∷ digits 20 row (59 ∷ digits 20 col (72 ∷ []))) in
        (parser'.state ≡ text)
        × (calls ≡ set_cursor_pos (min row height - 1) (min col width - 1) ∷ []))
write_cursor_move height width parser row col v t (h₀, h, w₀, w) (r₀, r) (c₀, c) =
    let e =
      write_introducer height width parser (digits 20 row (59 ∷ digits 20 col (72 ∷ []))) t
      ∙ write-digits height width 20 (restart csi parser) row (59 ∷ digits 20 col (72 ∷ [])) refl
          refl r₀ (omega arith) (omega arith)
      ∙ write_separator height width parser row (digits 20 col (72 ∷ []))
      ∙ write-digits height width 20 (separated parser row) col (72 ∷ []) refl refl c₀ (omega arith)
          (omega arith)
      ∙ write_move height width parser row col v (ground (arith, h₀, w₀)) r c in
    (
      ap (λ (q : Parser × List Call). q.0.state) e,
      ap (λ (q : Parser × List Call). q.1) e
          ∙ ap (λ x. set_cursor_pos x (clamp col width) ∷ []) (clamp-min row height r₀ h₀ h)
          ∙ ap (λ x. set_cursor_pos (min row height - 1) x ∷ []) (clamp-min col width c₀ w₀ w),
    )

-- ESC [ mode J.
write_clear :
    (height width : ℕ) (parser : Parser) (mode : ℕ)
    → IsValid parser
    → parser.state ≡ text
    → mode ≤ 2
    → write height width parser (27 ∷ 91 ∷ (48 + mode) ∷ 74 ∷ [])
      ≡ (back_to_text parser (set parser.sequence.params 0 mode), clear_display mode ∷ [])
unfolding write step param_push dispatch handle_j param_or_default reset
write_clear height width parser mode v t le =
    let first : get_or (set parser.sequence.params 0 mode) 0 0 ≡ mode =
      get_or-set_self parser.sequence.params 0 mode 0 (omega (arith, v.room)) in
    let given : (mode == param_none) ≡ false = ground (arith, le) in
    let known : (mode == 0 || mode == 1 || mode == 2) ≡ true = ground (arith, le) in
    let same : 0 * 10 + mode ≡ mode = omega arith in
    write_introducer height width parser ((48 + mode) ∷ 74 ∷ []) t
    ∙ write-digit height width (restart csi parser) 0 mode (74 ∷ []) refl refl (omega (arith, le))
        (omega (arith, le))
    ∙ ap (λ k. write height width (counted (restart csi parser) k) (74 ∷ [])) same
    ∙ rw (first, given, known) refl

-- What a program sends for a call: the character, ESC [ row ; col H or ESC [ mode J.
unfoldable pub encode : Call → List ℕ
encode (putchar c) = c ∷ []
encode (set_cursor_pos row col) = 27 ∷ 91 ∷ digits 20 (row + 1) (59 ∷ digits 20 (col + 1) (72 ∷ []))
encode (clear_display mode) = 27 ∷ 91 ∷ (48 + mode) ∷ 74 ∷ []

unfoldable pub encode_all : List Call → List ℕ
unfolding encode
encode_all [] = []
encode_all (call ∷ calls) = encode call ++ encode_all calls

-- What can be sent: any character but ESC, a place on the screen, one of the three modes.
unfoldable pub CanSend : (height width : ℕ) → Call → Type 0
CanSend height width (putchar c) = c ≢ 27
CanSend height width (set_cursor_pos row col) = (row < height) × (col < width)
CanSend height width (clear_display mode) = mode ≤ 2

write-encode :
    (height width : ℕ) (parser : Parser) (call : Call)
    → IsValid parser
    → parser.state ≡ text
    → IsScreen height width
    → CanSend height width call
    → (let (parser', calls) = write height width parser (encode call) in
        (parser'.state ≡ text) × (calls ≡ call ∷ []))
unfolding encode CanSend
write-encode height width parser (putchar c) v t screen ne =
    let e = write_plain height width parser (c ∷ []) t (ne, tt) in
    (ap (λ (q : Parser × List Call). q.0.state) e ∙ t, ap (λ (q : Parser × List Call). q.1) e)
write-encode height width parser (clear_display mode) v t screen le =
    let e = write_clear height width parser mode v t le in
    (ap (λ (q : Parser × List Call). q.0.state) e, ap (λ (q : Parser × List Call). q.1) e)
write-encode height width parser (set_cursor_pos row col) v t screen (r, c) =
    let (_, h, _, w) = screen in
    let (st, e) =
      write_cursor_move height width parser (row + 1) (col + 1) v t screen
        (omega arith, omega (arith, r, h)) (omega arith, omega (arith, c, w)) in
    let same_row : min (row + 1) height - 1 ≡ row = omega (arith, r) in
    let same_col : min (col + 1) width - 1 ≡ col = omega (arith, c) in
    (
      st,
      e
          ∙ ap (λ x. set_cursor_pos x (min (col + 1) width - 1) ∷ []) same_row
          ∙ ap (λ x. set_cursor_pos row x ∷ []) same_col,
    )

-- Any sequence of characters, cursor moves and clearings that a program sends, one after the other,
-- makes the terminal do exactly these calls, in this order. The parser reads text at the start; the
-- characters are not ESC, the places are on the screen, which has at most 2 ^ 16 rows and
-- columns, and the modes are the three that there are.
pub write-encode_all :
    (height width : ℕ) (calls : List Call) (parser : Parser)
    → IsValid parser
    → parser.state ≡ text
    → IsScreen height width
    → All (CanSend height width) calls
    → (write height width parser (encode_all calls)).1 ≡ calls
unfolding encode_all write
write-encode_all height width [] parser v t screen sent = refl
write-encode_all height width (call ∷ calls) parser v t screen (s, sent) =
    let (t', e) = write-encode height width parser call v t screen s in
    let (v', _) = write-OnScreen height width (encode call) parser v in
    let parser' = (write height width parser (encode call)).0 in
    ap (λ (q : Parser × List Call). q.1)
      (write-append height width parser (encode call) (encode_all calls))
    ∙ ap (λ l. l ++ (write height width parser' (encode_all calls)).1) e
    ∙ ap (λ l. call ∷ l) (write-encode_all height width calls parser' v' t' screen sent)
