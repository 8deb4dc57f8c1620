-- ===== src/Format/Vformat/Counts.antt =====
-- What `__hojicha_vformat` of libc/stdio/__vformat.c returns: the count of what it wrote.
use hojicha.Format.Vformat.Pieces.{
  IsWriter, Counted, CountedIf, write_all-Counted, write_formatted_number-Counted,
}
use hojicha.Format.{FormatSpec, write_all}
use hojicha.Format.Vformat.{
  take_chunk, starts_text, skip_percent, convert, convert_at, text_at, iterate, vformat_loop,
  vformat, after, print_with,
}
use hojicha.Format.Vformat.Shrinks.{
  parse_format_spec-shrinks, take_chunk-shrinks, skip_percent-shrinks,
}
use hojicha.Format.{parse_format_spec}
use hojicha.Common.{
  ℕ, zero, suc, ◌%◌, ◌≤◌, List, [], ◌∷◌, ◌==◌, ◌||◌, arith, true, false, length, Option, none, some,
  if_ind,
}

-- A position in the format that is at most `len` characters from its end.
abbrev Within : {S : Type 0} → (S → ℕ) → ℕ → ℕ → Option ((S × ℕ) × List ℕ × ℕ) → Type 0
Within size before len none = Unit
Within size before len (some (out, rest, next)) = Counted size before out × (length rest ≤ len)

abbrev rest_of : List ℕ → List ℕ
rest_of [] = []
rest_of (c ∷ format) = format

rest_of-shrinks : {n : ℕ} (l : List ℕ) → length l ≤ suc n → length (rest_of l) ≤ n
rest_of-shrinks [] h = omega arith
rest_of-shrinks (c ∷ l) h = omega arith

-- The outcome of a run: it ended, with -1 or with the count.
abbrev pub Returns : {S : Type 0} → (S → ℕ) → ℕ → Option (Option (S × ℕ)) → Type 0
Returns size before none = ⊥
Returns size before (some none) = Unit
Returns size before (some (some out)) = Counted size before out

module _ {S : Type 0} (write : S → List ℕ → Option S) (size : S → ℕ) (w : IsWriter write size)
    (before : ℕ) where
  abbrev Prints : Option (S × ℕ → Option (S × ℕ)) → Type 0
  Prints none = Unit
  Prints (some print) = (out : S × ℕ) → Counted size before out → CountedIf size before (print out)

  module _ (string_at : ℕ → List ℕ) where
    convert-Counted : (spec : FormatSpec) (word : ℕ) → Prints (convert write string_at spec word)
    unfolding convert
    convert-Counted spec word =
        let c = spec.conversion in
        if_ind Prints (c == b'c') _ _ (λ t. write_all-Counted write size w before (word % 256 ∷ []))
          (λ f.
            if_ind Prints (c == b's') _ _ (λ t out h. write_all-Counted write size w before _ out h)
              (λ f.
                if_ind Prints (c == b'd' || c == b'i') _ _
                  (λ t. write_formatted_number-Counted write size w before spec true word)
                  (λ f.
                    if_ind Prints (c == b'x' || c == b'u') _ _
                      (λ t. write_formatted_number-Counted write size w before spec false word)
                      (λ f.
                        if_ind Prints (c == b'b') _ none
                          (λ t out h. write_all-Counted write size w before _ out h) (λ f. tt)))))

    after-Within :
        (rest : List ℕ) (next len : ℕ) (o : Option (S × ℕ))
        → length rest ≤ len
        → CountedIf size before o
        → Within size before len (after write rest next o)
    unfolding CountedIf
    after-Within rest next len none le a = tt
    after-Within rest next len (some out) le a = (a, le)

    print_with-Within :
        (print : Option (S × ℕ → Option (S × ℕ))) (out : S × ℕ) (c : ℕ) (format rest : List ℕ)
        (next : ℕ)
        → Prints print
        → length rest ≤ length format
        → Counted size before out
        → Within size before (length format) (print_with write print out (c ∷ format) rest next)
    unfolding print_with
    print_with-Within none out c format rest next p le h =
        after-Within [] next (length format) (write_all write out (c ∷ format)) (omega arith)
          (write_all-Counted write size w before (c ∷ format) out h)
    print_with-Within (some print) out c format rest next p le h =
        after-Within rest (suc next) (length format) (print out) le (p out h)

    convert_at-Within :
        (out : S × ℕ) (format : List ℕ) (parameters : ℕ → ℕ) (next : ℕ)
        → Counted size before out
        → Within size before
            (length (rest_of format))
            (convert_at write string_at out format parameters next)
    unfolding convert_at
    convert_at-Within out [] parameters next h = (h, omega arith)
    convert_at-Within out (c ∷ format) parameters next h =
        let (spec, rest) = parse_format_spec format in
        print_with-Within (convert write string_at spec (parameters next)) out c format rest next
          (convert-Counted spec (parameters next)) (parse_format_spec-shrinks format) h

    text_at-Within :
        (out : S × ℕ) (format : List ℕ) (next : ℕ)
        → Counted size before out
        → Within size before (length format) (text_at write out format next)
    unfolding text_at
    text_at-Within out format next h =
        let (text, rest) = take_chunk (skip_percent format) in
        let shorter = skip_percent-shrinks format in
        let chunk = take_chunk-shrinks (skip_percent format) in
        if_ind (Within size before (length format)) (starts_text format) _ _
          (λ t.
            after-Within rest next (length format) (write_all write out text)
              (omega (arith, shorter, chunk)) (write_all-Counted write size w before text out h))
          (λ f. (h, omega arith))

    iterate-Within :
        (out : S × ℕ) (c : ℕ) (format : List ℕ) (parameters : ℕ → ℕ) (next : ℕ)
        → Counted size before out
        → Within size before
            (length format)
            (iterate write string_at out (c ∷ format) parameters next)
    unfolding iterate
    iterate-Within out c format parameters next h =
        go (text_at write out (c ∷ format) next) (text_at-Within out (c ∷ format) next h)
      where
        shorter :
            (len : ℕ) (o : Option ((S × ℕ) × List ℕ × ℕ))
            → len ≤ length format
            → Within size before len o
            → Within size before (length format) o
        shorter len none le a = tt
        shorter len (some (out', rest, n)) le (a, b) = (a, omega arith)

        go :
            (o : Option ((S × ℕ) × List ℕ × ℕ))
            → Within size before (suc (length format)) o
            → Within size before (length format) (elim o [
              | none ↦ none
              | some (out', rest, _) ↦ convert_at write string_at out' rest parameters next
            ])
        go none a = tt
        go (some (out', rest, n)) (a, b) =
            shorter (length (rest_of rest)) (convert_at write string_at out' rest parameters next)
              (rest_of-shrinks rest b) (convert_at-Within out' rest parameters next a)

    vformat_loop-Returns :
        (fuel : ℕ) (out : S × ℕ) (format : List ℕ) (parameters : ℕ → ℕ) (next : ℕ)
        → length format ≤ fuel
        → Counted size before out
        → Returns size before (vformat_loop write string_at fuel out format parameters next)
    unfolding vformat_loop
    vformat_loop-Returns fuel out [] parameters next le h = h
    vformat_loop-Returns zero out (c ∷ format) parameters next le h = absurd (omega arith)
    vformat_loop-Returns (suc fuel) out (c ∷ format) parameters next le h =
        go (iterate write string_at out (c ∷ format) parameters next)
          (iterate-Within out c format parameters next h)
          (λ out' rest n le' a. vformat_loop-Returns fuel out' rest parameters n le' a)
      where
        go :
            (o : Option ((S × ℕ) × List ℕ × ℕ))
            → Within size before (length format) o
            → ((out' : S × ℕ) (rest : List ℕ) (n : ℕ)
                → length rest ≤ fuel
                → Counted size before out'
                → Returns size before (vformat_loop write string_at fuel out' rest parameters n))
            → Returns size before (elim o [
              | none ↦ some none
              | some (out', rest, next') ↦
                  vformat_loop write string_at fuel out' rest parameters next'
            ])
        go none a ih = tt
        go (some (out', rest, n)) (a, b) ih = ih out' rest n (omega arith) a

-- For every format string, argument words and writer whose context grows by what is written, the
-- loop ends within as many iterations as the format has characters; it returns -1 or the number of
-- bytes by which the context grew, which is an `int`.
pub vformat-Returns :
    {S : Type 0} (write : S → List ℕ → Option S) (size : S → ℕ)
    → IsWriter write size
    → (string_at : ℕ → List ℕ) (ctx : S) (format : List ℕ) (parameters : ℕ → ℕ)
    → Returns size (size ctx) (vformat write string_at ctx format parameters)
unfolding vformat
vformat-Returns write size w string_at ctx format parameters =
    vformat_loop-Returns write size w (size ctx) string_at (length format) (ctx, 0) format
      parameters 0 (omega arith) (omega arith, omega arith)
