-- ===== src/ControlParser.antt =====
-- kernel/drivers/tty_control.c: the parser of terminal control sequences.
pub mod Bounds
pub mod Stream
mod Examples
use hojicha.Common.{
  ℕ, zero, suc, ◌+◌, ◌-◌, ◌*◌, ◌%◌, ◌^◌, Bool, true, false, ◌&&◌, ◌||◌, List, [], ◌∷◌, ◌++◌, ltb,
  leb, ◌==◌, if◌then◌else◌, get_or, set, replicate,
}

pub data State : Type 0 where
  text : State
  escape : State
  csi : State

-- `tty_control_sequence_t`.
pub record Sequence : Type 0 where
  pub command : ℕ
  pub params : List ℕ
  pub param_count : ℕ

-- `tty_control_parser_t`.
pub record Parser : Type 0 where
  pub state : State
  pub sequence : Sequence
  pub current_param : ℕ
  pub has_current_param : Bool
  pub last_was_separator : Bool

-- The calls of the terminal that the parser makes.
pub data Call : Type 0 where
  putchar : ℕ → Call
  set_cursor_pos : (row col : ℕ) → Call
  clear_display : ℕ → Call

abbrev pub max_params : ℕ
max_params = 8

abbrev pub param_none : ℕ
param_none = 2 ^ 64 - 1

-- `static` storage, before the first call.
abbrev pub initial : Parser
initial = record {
  state = text;
  sequence = record { command = 0; params = replicate 8 0; param_count = 0 };
  current_param = 0;
  has_current_param = false;
  last_was_separator = false;
}

abbrev pub restart : State → Parser → Parser
restart to parser = record parser {
  state = to;
  sequence = record (parser.sequence) { command = 0; param_count = 0 };
  current_param = 0;
  has_current_param = false;
  last_was_separator = false;
}

unfoldable pub reset : Parser → Parser
reset parser = restart text parser

unfoldable pub csi_begin : Parser → Parser
csi_begin parser = restart csi parser

abbrev pub is_alpha : ℕ → Bool
is_alpha c = (leb 65 c && leb c 90) || (leb 97 c && leb c 122)

abbrev pub is_digit : ℕ → Bool
is_digit c = leb 48 c && leb c 57

unfoldable pub param_push : Parser → Parser
param_push parser =
    let s = parser.sequence in
    let value = if parser.has_current_param then parser.current_param else param_none in
    record parser {
      sequence =
          if ltb s.param_count max_params
          then record s {
            params = set s.params s.param_count value;
            param_count = s.param_count + 1;
          }
          else s;
      current_param = 0;
      has_current_param = false;
    }

unfoldable pub param_or_default : Sequence → (idx default_value : ℕ) → ℕ
param_or_default s idx default_value =
    if leb s.param_count idx || get_or s.params idx 0 == param_none
    then default_value
    else get_or s.params idx 0

-- A coordinate from 1 on, kept within its bound; the terminal takes it as a `uint16_t`.
abbrev pub clamp : (value bound : ℕ) → ℕ
clamp value bound =
    let value' = if value == 0 then 1 else value in
    ((if ltb bound value' then bound else value') - 1) % 2 ^ 16

module _ (height width : ℕ) where
  unfoldable pub handle_h : Sequence → List Call
  unfolding param_or_default
  handle_h s =
      if height == 0 || width == 0
      then []
      else set_cursor_pos (clamp (param_or_default s 0 1) height)
          (clamp (param_or_default s 1 1) width)
        ∷ []

  unfoldable pub handle_j : Sequence → List Call
  unfolding param_or_default
  handle_j s =
      let mode = param_or_default s 0 0 in
      if mode == 0 || mode == 1 || mode == 2 then clear_display mode ∷ [] else []

  unfoldable pub dispatch : Sequence → List Call
  unfolding handle_h handle_j
  dispatch s =
      if s.command == 72 || s.command == 102
      then handle_h s
      else if s.command == 74
      then handle_j s
      else []

  -- One character, by the state.
  unfoldable pub step : State → Parser → ℕ → Parser × List Call
  unfolding reset csi_begin param_push dispatch
  step text parser c =
      if c == 27 then (record parser { state = escape }, []) else (parser, putchar c ∷ [])
  step escape parser c =
      if c == 91
      then (csi_begin parser, [])
      else if c == 27
      then (parser, [])
      else (reset parser, [])
  step csi parser c =
      if is_digit c
      then (
        record parser {
          current_param = (parser.current_param * 10 + (c - 48)) % 2 ^ 64;
          has_current_param = true;
          last_was_separator = false;
        },
        [],
      )
      else if c == 59
      then (record (param_push parser) { last_was_separator = true }, [])
      else if is_alpha c
      then (let pushed =
            if parser.has_current_param || parser.last_was_separator
            then param_push parser
            else parser in
          (reset pushed, dispatch (record (pushed.sequence) { command = c })))
      else (parser, [])

  -- `tty_control_write`: the parser afterwards, and the calls in order.
  unfoldable pub write : Parser → List ℕ → Parser × List Call
  unfolding step
  write parser [] = (parser, [])
  write parser (c ∷ rest) =
      let (parser', calls) = step parser.state parser c in
      let (parser'', calls') = write parser' rest in (parser'', calls ++ calls')
