-- ===== src/Elf/Words.antt =====
-- Words and strings in memory, as kernel/kernel/elf.c writes them on the stack of a program.
use hojicha.CString.{Memory, write}
use hojicha.Elf.{Bytes, read_le, write_le, write_string, store_words}
use hojicha.Common.{
  ℕ, zero, suc, ◌+◌, ◌*◌, ◌/◌, ◌%◌, ◌^◌, ◌<◌, ◌≤◌, ◌≡◌, ◌⊎◌, inl, inr, refl, List, [], ◌∷◌, length,
  ◌==◌, arith, sym, ◌∙◌, if_yes, if_no, ==_refl,
}

-- The number has at most `n` bytes.
unfoldable pub Fits : ℕ → ℕ → Type 0
Fits zero w = w ≡ 0
Fits (suc n) w = Fits n (w / 256)

pub write_other : (m : Memory) (p v q : ℕ) → (q < p) ⊎ (p < q) → write m p v q ≡ m q
write_other m p v q (inl lt) = if_no {b = q == p} v (m q) (ground (arith, lt))
write_other m p v q (inr lt) = if_no {b = q == p} v (m q) (ground (arith, lt))

-- What is outside of the written bytes stays.
pub write_le_outside :
    (n : ℕ) (m : Memory) (a w q : ℕ) → (q < a) ⊎ (a + n ≤ q) → write_le n m a w q ≡ m q
unfolding write_le
write_le_outside zero m a w q o = refl
write_le_outside (suc n) m a w q (inl lt) =
    write_le_outside n (write m a (w % 256)) (a + 1) (w / 256) q (inl (omega (arith, lt)))
    ∙ write_other m a (w % 256) q (inl lt)
write_le_outside (suc n) m a w q (inr le) =
    write_le_outside n (write m a (w % 256)) (a + 1) (w / 256) q (inr (omega (arith, le)))
    ∙ write_other m a (w % 256) q (inr (omega (arith, le)))

pub read_le_frame :
    (n : ℕ) (m m' : Memory) (a : ℕ)
    → ((q : ℕ) → a ≤ q → q < a + n → m' q ≡ m q)
    → read_le n m' a ≡ read_le n m a
unfolding read_le
read_le_frame zero m m' a same = refl
read_le_frame (suc n) m m' a same =
    let here = same a (omega arith) (omega arith) in
    let rest =
      read_le_frame n m m' (a + 1) (λ q h h'. same q (omega (arith, h)) (omega (arith, h'))) in
    omega (arith, here, rest)

pub read_le-write_le :
    (n : ℕ) (m : Memory) (a w : ℕ) → Fits n w → read_le n (write_le n m a w) a ≡ w
unfolding Fits read_le write_le
read_le-write_le zero m a w e = sym e
read_le-write_le (suc n) m a w fits =
    let m' = write m a (w % 256) in
    let first =
      write_le_outside n m' (a + 1) (w / 256) a (inl (omega arith))
      ∙ if_yes {b = a == a} (w % 256) (m a) (==_refl a) in
    let rest = read_le-write_le n m' (a + 1) (w / 256) fits in omega (arith, first, rest)

pub Fits-word : (w : ℕ) → w < 2 ^ 64 → Fits 8 w
unfolding Fits
Fits-word w h = omega (arith, h)

-- From `a` on there are these words.
unfoldable pub Holds : Memory → ℕ → List ℕ → Type 0
Holds m a [] = Unit
Holds m a (w ∷ ws) = (read_le 8 m a ≡ w) × Holds m (a + 8) ws

unfoldable pub AllFit : List ℕ → Type 0
AllFit [] = Unit
AllFit (w ∷ ws) = (w < 2 ^ 64) × AllFit ws

pub store_words_outside :
    (m : Memory) (a : ℕ) (ws : List ℕ) (q : ℕ)
    → (q < a) ⊎ (a + 8 * length ws ≤ q)
    → store_words m a ws q ≡ m q
unfolding store_words
store_words_outside m a [] q o = refl
store_words_outside m a (w ∷ ws) q (inl lt) =
    store_words_outside (write_le 8 m a w) (a + 8) ws q (inl (omega (arith, lt)))
    ∙ write_le_outside 8 m a w q (inl lt)
store_words_outside m a (w ∷ ws) q (inr le) =
    store_words_outside (write_le 8 m a w) (a + 8) ws q (inr (omega (arith, le)))
    ∙ write_le_outside 8 m a w q (inr (omega (arith, le)))

pub store_words-Holds :
    (m : Memory) (a : ℕ) (ws : List ℕ) → AllFit ws → Holds (store_words m a ws) a ws
unfolding store_words Holds AllFit
store_words-Holds m a [] fit = tt
store_words-Holds m a (w ∷ ws) (h, fit) =
    let m' = write_le 8 m a w in
    (
      read_le_frame 8 m' (store_words m' (a + 8) ws) a
            (λ q h h'. store_words_outside m' (a + 8) ws q (inl (omega (arith, h'))))
          ∙ read_le-write_le 8 m a w (Fits-word w h),
      store_words-Holds m' (a + 8) ws fit,
    )

-- At `a` there is the string, with a 0 behind it.
unfoldable pub Spelled : Memory → ℕ → Bytes → Type 0
Spelled m a [] = m a ≡ 0
Spelled m a (c ∷ cs) = (m a ≡ c) × Spelled m (a + 1) cs

pub Spelled-frame :
    (m m' : Memory) (a : ℕ) (s : Bytes)
    → ((q : ℕ) → a ≤ q → m' q ≡ m q)
    → Spelled m a s
    → Spelled m' a s
unfolding Spelled
Spelled-frame m m' a [] same e = same a (omega arith) ∙ e
Spelled-frame m m' a (c ∷ cs) same (e, l) =
    (same a (omega arith) ∙ e, Spelled-frame m m' (a + 1) cs (λ q h. same q (omega (arith, h))) l)

pub write_string_outside :
    (m : Memory) (a : ℕ) (s : Bytes) (q : ℕ)
    → (q < a) ⊎ (a + length s < q)
    → write_string m a s q ≡ m q
unfolding write_string
write_string_outside m a [] q (inl lt) = write_other m a 0 q (inl lt)
write_string_outside m a [] q (inr lt) = write_other m a 0 q (inr (omega (arith, lt)))
write_string_outside m a (c ∷ cs) q (inl lt) =
    write_string_outside (write m a c) (a + 1) cs q (inl (omega (arith, lt)))
    ∙ write_other m a c q (inl lt)
write_string_outside m a (c ∷ cs) q (inr lt) =
    write_string_outside (write m a c) (a + 1) cs q (inr (omega (arith, lt)))
    ∙ write_other m a c q (inr (omega (arith, lt)))

pub write_string-Spelled : (m : Memory) (a : ℕ) (s : Bytes) → Spelled (write_string m a s) a s
unfolding write_string Spelled
write_string-Spelled m a [] = if_yes {b = a == a} 0 (m a) (==_refl a)
write_string-Spelled m a (c ∷ cs) = (
  write_string_outside (write m a c) (a + 1) cs a (inl (omega arith))
      ∙ if_yes {b = a == a} c (m a) (==_refl a),
  write_string-Spelled (write m a c) (a + 1) cs,
)
