-- ===== src/Format/Examples.antt =====
-- libc/stdio/__vformat.c on small numbers.
use hojicha.Format.{
  FormatSpec, parse_number, parse_format_spec, digit_loop, format_unsigned, write_all,
  write_repeated, write_formatted_number,
}
use hojicha.Format.Width.{Adds, printed_length, printed_digits, write_formatted_number-Adds}
use hojicha.Format.{and_then}
use hojicha.Format.Vformat.{
  itoa, itoa_loop, take_text, text_at, convert, convert_at, iterate, vformat_loop, vformat,
}
use hojicha.Format.Vformat.Pieces.{IsWriter}
use hojicha.Format.Vformat.Counts.{Returns, vformat-Returns}
use hojicha.Format.Vformat.Verbatim.{vformat-literals}
use hojicha.Common.{
  ℕ, ◌-◌, ◌^◌, ◌≡◌, refl, sym, ap, ◌∙◌, true, false, ◌&&◌, Option, none, some, List, [], ◌∷◌, ◌++◌,
  leb, ◌==◌, if◌then◌else◌, length, length-append, arith,
}

-- "05d", "8.3x" and the end of the string.
abbrev zero_padded : FormatSpec
zero_padded = record {
  width = 5;
  precision = 0;
  precision_set = false;
  zero_pad = true;
  conversion = 100;
}

parsed :
    (parse_format_spec (48 ∷ 53 ∷ 100 ∷ 33 ∷ []) ≡ (zero_padded, 33 ∷ []))
    × (parse_format_spec (56 ∷ 46 ∷ 51 ∷ 120 ∷ []) ≡ (
      record { width = 8; precision = 3; precision_set = true; zero_pad = false; conversion = 120 },
      [],
    ))
unfolding parse_format_spec parse_number
parsed = (refl, refl)

-- A writer that appends.
abbrev append : List ℕ → List ℕ → Option (List ℕ)
append ctx bytes = some (ctx ++ bytes)

-- -42 as "-0042".
printed :
    write_formatted_number append ([], 0) zero_padded true (2 ^ 64 - 42)
    ≡ some (45 ∷ 48 ∷ 48 ∷ 52 ∷ 50 ∷ [], 5)
unfolding write_formatted_number write_repeated write_all format_unsigned digit_loop
printed = refl

write_formatted_number-Adds_example :
    Adds append 0
      (printed_length zero_padded
        (true && leb (2 ^ 63) (2 ^ 64 - 42))
        (length (printed_digits zero_padded true (2 ^ 64 - 42))))
      (write_formatted_number append ([], 0) zero_padded true (2 ^ 64 - 42))
write_formatted_number-Adds_example =
    write_formatted_number-Adds append ([], 0) zero_padded true (2 ^ 64 - 42) (omega arith)

-- A string that pointer 9 points to; the arguments of a call.
abbrev strings : ℕ → List ℕ
strings pointer = if pointer == 9 then b'o' ∷ b'k' ∷ [] else []

abbrev two_words : ℕ → ℕ
two_words n = if n == 0 then 9 else 5

-- "%s=%b" with "ok" and 5.
formatted :
    vformat append strings [] (b'%' ∷ b's' ∷ b'=' ∷ b'%' ∷ b'b' ∷ []) two_words
    ≡ some (some (b'o' ∷ b'k' ∷ b'=' ∷ b'0' ∷ b'b' ∷ b'1' ∷ b'0' ∷ b'1' ∷ [], 8))
unfolding vformat vformat_loop iterate text_at convert_at convert take_text parse_format_spec
    parse_number write_all itoa itoa_loop
formatted = refl

append-IsWriter : IsWriter append length
append-IsWriter = record {
  grows = λ ctx bytes ctx' e.
      ap (λ (o : Option (List ℕ)). elim o [ none ↦ 0 | some l ↦ length l ]) (sym e)
      ∙ length-append ctx bytes;
}

vformat-Returns_example :
    Returns length 0 (vformat append strings [] (b'%' ∷ b's' ∷ b'=' ∷ b'%' ∷ b'b' ∷ []) two_words)
vformat-Returns_example =
    vformat-Returns append length append-IsWriter strings [] (b'%' ∷ b's' ∷ b'=' ∷ b'%' ∷ b'b' ∷ [])
      two_words

-- "9%% off" keeps both signs.
vformat-literals_example :
    (vformat append strings [] (b'9' ∷ []) two_words ≡ some (write_all append ([], 0) (b'9' ∷ [])))
    × (vformat append strings [] (b'%' ∷ b'%' ∷ []) two_words
        ≡ some (write_all append ([], 0) (b'%' ∷ [])))
    × (vformat append strings [] (b'9' ∷ b'%' ∷ b'%' ∷ b'o' ∷ []) two_words
        ≡ some (
            and_then append
              (write_all append ([], 0) (b'9' ∷ []))
              (λ out. write_all append out (b'%' ∷ b'%' ∷ b'o' ∷ []))))
vformat-literals_example =
    vformat-literals append strings two_words [] b'9' [] (b'o' ∷ []) (omega arith, tt)
