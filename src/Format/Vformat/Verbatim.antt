-- ===== src/Format/Vformat/Verbatim.antt =====
-- Text and `%%` in a format string of `__hojicha_vformat` of libc/stdio/__vformat.c.
use hojicha.Format.{parse_number, parse_format_spec, write_all, and_then}
use hojicha.Format.Vformat.{
  take_text, starts_text, convert, convert_at, text_at, iterate, vformat_loop, vformat, after,
}
use hojicha.Common.{
  ℕ, zero, suc, ◌≡◌, refl, ap, ◌∙◌, List, [], ◌∷◌, ◌++◌, ◌==◌, true, false, length, Option, none,
  some, arith, All, ◌≢◌,
}

-- No `%` in the text.
abbrev pub IsPlain : List ℕ → Type 0
IsPlain = All (λ c. c ≢ b'%')

take_text-append :
    (text format : List ℕ)
    → IsPlain text
    → take_text (text ++ b'%' ∷ format) ≡ (text, b'%' ∷ format)
unfolding take_text
take_text-append [] format p = refl
take_text-append (c ∷ text) format (no_percent, p) =
    let plain : (c == b'%') ≡ false = ground arith in
    rw plain (ap (λ (q : List ℕ × List ℕ). (c ∷ q.0, q.1)) (take_text-append text format p))

take_text-plain : (text : List ℕ) → IsPlain text → take_text text ≡ (text, [])
unfolding take_text
take_text-plain [] p = refl
take_text-plain (c ∷ text) (no_percent, p) =
    let plain : (c == b'%') ≡ false = ground arith in
    rw plain (ap (λ (q : List ℕ × List ℕ). (c ∷ q.0, q.1)) (take_text-plain text p))

starts_plain : (c : ℕ) (l : List ℕ) → (c == b'%') ≡ false → starts_text (c ∷ l) ≡ true
starts_plain c [] h = rw h refl
starts_plain c (d ∷ l) h = rw h refl

module _ {S : Type 0} (write : S → List ℕ → Option S) (string_at : ℕ → List ℕ)
    (parameters : ℕ → ℕ) where
  -- The loop after an iteration, and an iteration after its text.
  abbrev resume : ℕ → Option ((S × ℕ) × List ℕ × ℕ) → Option (Option (S × ℕ))
  resume fuel none = some none
  resume fuel (some (out, rest, next)) = vformat_loop write string_at fuel out rest parameters next

  abbrev convert_from : ℕ → Option ((S × ℕ) × List ℕ × ℕ) → Option ((S × ℕ) × List ℕ × ℕ)
  convert_from next none = none
  convert_from next (some (out, rest, _)) = convert_at write string_at out rest parameters next

  loop_step :
      (fuel : ℕ) (out : S × ℕ) (c : ℕ) (format : List ℕ) (next : ℕ)
      → vformat_loop write string_at (suc fuel) out (c ∷ format) parameters next
        ≡ resume fuel (convert_from next (text_at write out (c ∷ format) next))
  unfolding vformat_loop iterate
  loop_step fuel out c format next = refl

  loop_end :
      (fuel : ℕ) (o : Option (S × ℕ)) (next : ℕ) → resume fuel (after write [] next o) ≡ some o
  unfolding vformat_loop
  loop_end fuel none next = refl
  loop_end zero (some out) next = refl
  loop_end (suc fuel) (some out) next = refl

  text_at-text :
      (out : S × ℕ) (c : ℕ) (format text tail : List ℕ) (next : ℕ)
      → c ≢ b'%'
      → take_text format ≡ (text, tail)
      → text_at write out (c ∷ format) next ≡ after write tail next (write_all write out (c ∷ text))
  unfolding text_at
  text_at-text out c format text tail next no_percent e =
      let plain : (c == b'%') ≡ false = ground arith in
      rw (starts_plain c format plain, plain)
        (ap (λ (q : List ℕ × List ℕ). after write q.1 next (write_all write out (c ∷ q.0))) e)

  text_at-percents :
      (out : S × ℕ) (text : List ℕ) (next : ℕ)
      → IsPlain text
      → text_at write out (b'%' ∷ b'%' ∷ text) next
        ≡ after write [] next (write_all write out (b'%' ∷ text))
  unfolding text_at
  text_at-percents out text next p =
      ap (λ (q : List ℕ × List ℕ). after write q.1 next (write_all write out (b'%' ∷ q.0)))
        (take_text-plain text p)

  plain_end :
      (fuel next : ℕ) (o : Option (S × ℕ))
      → resume fuel (convert_from next (after write [] next o)) ≡ some o
  unfolding convert_at
  plain_end fuel next none = refl
  plain_end fuel next (some out) = loop_end fuel (some out) next

  percents_end :
      (fuel next : ℕ) (rest : List ℕ) (o : Option (S × ℕ))
      → resume fuel (convert_from next (after write (b'%' ∷ b'%' ∷ rest) next o))
        ≡ some (and_then write o (λ out. write_all write out (b'%' ∷ b'%' ∷ rest)))
  unfolding convert_at parse_format_spec parse_number convert
  percents_end fuel next rest none = refl
  percents_end fuel next rest (some out) =
      loop_end fuel (write_all write out (b'%' ∷ b'%' ∷ rest)) next

-- A format without a `%` is written as it stands, in one call of the writer. A format that starts
-- with `%%` and has no other `%` is written with one `%`. But `%%` after some text is not one `%`:
-- what is written is the text, and then both `%` and all that follows them as it stands.
pub vformat-literals :
    {S : Type 0} (write : S → List ℕ → Option S) (string_at : ℕ → List ℕ) (parameters : ℕ → ℕ)
    (ctx : S) (c : ℕ) (text rest : List ℕ)
    → IsPlain (c ∷ text)
    → (vformat write string_at ctx (c ∷ text) parameters
        ≡ some (write_all write (ctx, 0) (c ∷ text)))
      × (vformat write string_at ctx (b'%' ∷ b'%' ∷ text) parameters
          ≡ some (write_all write (ctx, 0) (b'%' ∷ text)))
      × (vformat write string_at ctx (c ∷ text ++ b'%' ∷ b'%' ∷ rest) parameters
          ≡ some (
              and_then write
                (write_all write (ctx, 0) (c ∷ text))
                (λ out. write_all write out (b'%' ∷ b'%' ∷ rest))))
unfolding vformat
vformat-literals write string_at parameters ctx c text rest (no_percent, p) =
    let run = resume write string_at parameters in
    let from = convert_from write string_at parameters 0 in
    let step = loop_step write string_at parameters in
    let text_at_c = text_at-text write string_at parameters (ctx, 0) c in
    (
      step (length text) (ctx, 0) c text 0
          ∙ ap (λ o. run (length text) (from o))
              (text_at_c text text [] 0 no_percent (take_text-plain text p))
          ∙ plain_end write string_at parameters (length text) 0
              (write_all write (ctx, 0) (c ∷ text)),
      step (suc (length text)) (ctx, 0) b'%' (b'%' ∷ text) 0
          ∙ ap (λ o. run (suc (length text)) (from o))
              (text_at-percents write string_at parameters (ctx, 0) text 0 p)
          ∙ plain_end write string_at parameters (suc (length text)) 0
              (write_all write (ctx, 0) (b'%' ∷ text)),
      step (length (text ++ b'%' ∷ b'%' ∷ rest)) (ctx, 0) c (text ++ b'%' ∷ b'%' ∷ rest) 0
          ∙ ap (λ o. run (length (text ++ b'%' ∷ b'%' ∷ rest)) (from o))
              (text_at_c (text ++ b'%' ∷ b'%' ∷ rest) text (b'%' ∷ b'%' ∷ rest) 0 no_percent
                (take_text-append text (b'%' ∷ rest) p))
          ∙ percents_end write string_at parameters (length (text ++ b'%' ∷ b'%' ∷ rest)) 0 rest
              (write_all write (ctx, 0) (c ∷ text)),
    )
