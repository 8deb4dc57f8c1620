-- ===== src/Elf/Stack.antt =====
-- `prepare_user_stack` of kernel/kernel/elf.c.
use hojicha.CString.{Memory}
use hojicha.Elf.{
  Bytes, write_string, store_words, push_strings, frame_words, push_frame, prepare_user_stack,
  ◌then_push◌,
}
use hojicha.Elf.Words.{
  Holds, AllFit, Spelled, Spelled-frame, write_string_outside, write_string-Spelled,
  store_words_outside, store_words-Holds,
}
use hojicha.Common.{
  ℕ, suc, ◌+◌, ◌-◌, ◌*◌, ◌/◌, ◌%◌, ◌^◌, ◌<◌, ◌≤◌, ◌≡◌, ◌⊎◌, inl, inr, refl, List, [], ◌∷◌, ◌++◌,
  length, map, Option, none, some, true, ltb, arith, ap, ◌∙◌, if◌then◌else◌, if_no, length-append,
}

-- The bytes that the strings take with their final zeros.
unfoldable pub total : List Bytes → ℕ
total [] = 0
total (s ∷ ss) = length s + 1 + total ss

-- At the addresses there are the strings, between `lo` and `hi`.
unfoldable pub Spells : Memory → (lo hi : ℕ) → List ℕ → List Bytes → Type 0
unfolding Spelled
Spells m lo hi [] [] = Unit
Spells m lo hi [] (s ∷ ss) = ⊥
Spells m lo hi (a ∷ addrs) [] = ⊥
Spells m lo hi (a ∷ addrs) (s ∷ ss) =
    (lo ≤ a) × (a + length s < hi) × Spelled m a s × Spells m lo hi addrs ss

Spells-frame :
    (m m' : Memory) (lo lo' hi hi' : ℕ) (addrs : List ℕ) (ss : List Bytes)
    → lo' ≤ lo
    → hi ≤ hi'
    → ((q : ℕ) → lo ≤ q → m' q ≡ m q)
    → Spells m lo hi addrs ss
    → Spells m' lo' hi' addrs ss
unfolding Spells
Spells-frame m m' lo lo' hi hi' [] [] h h' same l = tt
Spells-frame m m' lo lo' hi hi' [] (s ∷ ss) h h' same l = l
Spells-frame m m' lo lo' hi hi' (a ∷ addrs) [] h h' same l = l
Spells-frame m m' lo lo' hi hi' (a ∷ addrs) (s ∷ ss) h h' same (le, lt, e, l) = (
  omega (arith, h, le),
  omega (arith, lt, h'),
  Spelled-frame m m' a s (λ q q'. same q (omega (arith, le, q'))) e,
  Spells-frame m m' lo lo' hi hi' addrs ss h h' same l,
)

Spells-AllFit :
    (m : Memory) (lo hi : ℕ) (addrs : List ℕ) (ss : List Bytes)
    → hi ≤ 2 ^ 64
    → Spells m lo hi addrs ss
    → AllFit addrs × (length addrs ≡ length ss)
unfolding Spells AllFit
Spells-AllFit m lo hi [] [] h l = (tt, refl)
Spells-AllFit m lo hi [] (s ∷ ss) h l = absurd l
Spells-AllFit m lo hi (a ∷ addrs) [] h l = absurd l
Spells-AllFit m lo hi (a ∷ addrs) (s ∷ ss) h (le, lt, e, l) =
    let (fit, same) = Spells-AllFit m lo hi addrs ss h l in
    ((omega (arith, lt, h), fit), ap suc same)

AllFit-append : (xs ys : List ℕ) → AllFit xs → AllFit ys → AllFit (xs ++ ys)
unfolding AllFit
AllFit-append [] ys f g = g
AllFit-append (x ∷ xs) ys (h, f) g = (h, AllFit-append xs ys f g)

-- The strings are written below `top`, down to `t`.
push_strings-Spells :
    (bottom : ℕ) (m : Memory) (top t : ℕ) (ss : List Bytes)
    → t + total ss ≡ top
    → bottom ≤ t
    → (m' : Memory) × (addrs : List ℕ) × (push_strings bottom m top (map some ss)
        ≡ some (m', (t, addrs)))
      × Spells m' t top addrs ss
      × ((q : ℕ) → (q < t) ⊎ (top ≤ q) → m' q ≡ m q)
unfolding push_strings total Spells
push_strings-Spells bottom m top t [] e h =
    (m, [], ap (λ x. some (m, (x, []))) (omega (arith, e)), tt, λ q o. refl)
push_strings-Spells bottom m top t (s ∷ ss) e h =
    let len = length s + 1 in
    let m₁ = write_string m (top - len) s in
    let (m', addrs, r, l, same) =
      push_strings-Spells bottom m₁ (top - len) t ss (omega (arith, e)) h in
    (
      m',
      (top - len) ∷ addrs,
      if_no {b = ltb (top - bottom) len} _ _ (ground (arith, e, h))
          ∙ ap (λ o. elim o [ none ↦ none | some x ↦ some (x.0, (x.1.0, (top - len) ∷ x.1.1)) ]) r,
      (
        omega (arith, e),
        omega (arith, e),
        Spelled-frame m₁ m' (top - len) s (λ q h. same q (inr h))
            (write_string-Spelled m (top - len) s),
        Spells-frame m' m' t t (top - len) top addrs ss (omega arith) (omega arith) (λ q h. refl) l,
      ),
      λ q o. unchanged m' q same o,
    )
  where
    unchanged :
        (m' : Memory) (q : ℕ)
        → ((q : ℕ)
            → (q < t) ⊎ (top - (length s + 1) ≤ q)
            → m' q ≡ write_string m (top - (length s + 1)) s q)
        → (q < t) ⊎ (top ≤ q)
        → m' q ≡ m q
    unchanged m' q same (inl lt) =
        same q (inl lt)
        ∙ write_string_outside m (top - (length s + 1)) s q (inl (omega (arith, lt, e)))
    unchanged m' q same (inr le) =
        same q (inr (omega (arith, le)))
        ∙ write_string_outside m (top - (length s + 1)) s q (inr (omega (arith, le, e)))

-- The stack of a program: the pointer is aligned and inside, above it are the number of arguments, the
-- addresses of `argv`, 0, those of `envp` and two more zeros, and at the addresses there are the strings, above
-- all of these words. What is below the pointer or not on the stack is as it was.
abbrev pub Ready :
    Memory → (bottom top : ℕ) → (argv envp : List Bytes) → Option (Memory × ℕ) → Type 0
Ready m bottom top argv envp r =
    (m' : Memory) × (sp : ℕ) × (argv_user : List ℕ) × (envp_user : List ℕ) × (r ≡ some (m', sp))
    × (bottom ≤ sp)
    × (sp % 16 ≡ 0)
    × Holds m' sp (frame_words (length argv) argv_user envp_user)
    × Spells m' (sp + 8 * (length argv + length envp + 4)) top argv_user argv
    × Spells m' (sp + 8 * (length argv + length envp + 4)) top envp_user envp
    × ((q : ℕ) → (q < sp) ⊎ (top ≤ q) → m' q ≡ m q)

module _ (m : Memory) (bottom top : ℕ) (argv envp : List Bytes) (high : top < 2 ^ 64)
    (room : bottom + total argv + total envp + 8 * (length argv + length envp + 4) + 15 ≤ top) where
  abbrev argv_bottom : ℕ
  argv_bottom = top - total argv

  abbrev strings_bottom : ℕ
  strings_bottom = top - total argv - total envp

  abbrev frame_size : ℕ
  frame_size = 8 * (length argv + length envp + 4)

  abbrev rsp : ℕ
  rsp = (strings_bottom - frame_size) / 16 * 16

  length-map-some : (ss : List Bytes) → length (map some ss) ≡ length ss
  length-map-some [] = refl
  length-map-some (s ∷ ss) = ap suc (length-map-some ss)

  frame_pushed :
      (m₂ : Memory) (addrs more : List ℕ)
      → length addrs ≡ length argv
      → length more ≡ length envp
      → push_frame bottom (length argv) addrs m₂ strings_bottom more
        ≡ some (store_words m₂ rsp (frame_words (length argv) addrs more), rsp)
  unfolding push_frame
  frame_pushed m₂ addrs more la le =
      let size : (1 + length argv + 1 + length more + 1 + 1) * 8 % 2 ^ 64 ≡ frame_size =
        omega (arith, le, room, high) in
      ap
        (λ f.
          let start = (strings_bottom - f) / 16 * 16 in
          if ltb (strings_bottom - bottom) f
          then none
          else if ltb start bottom
          then none
          else some (store_words m₂ start (frame_words (length argv) addrs more), start))
        size
      ∙ if_no {b = ltb (strings_bottom - bottom) frame_size} _ _ (ground (arith, room))
      ∙ if_no {b = ltb rsp bottom} _ _ (ground (arith, room))

  length-frame_words :
      (addrs more : List ℕ)
      → length addrs ≡ length argv
      → length more ≡ length envp
      → 8 * length (frame_words (length argv) addrs more) ≡ frame_size
  length-frame_words addrs more la le = omega (
    arith,
    la,
    le,
    length-append addrs (0 ∷ (more ++ (0 ∷ 0 ∷ []))),
    length-append more (0 ∷ 0 ∷ []),
  )

  made-Ready :
      Ready m bottom top argv envp (prepare_user_stack m bottom top (map some argv) envp true)
  unfolding prepare_user_stack AllFit
  made-Ready =
      let (m₁, addrs, r₁, l₁, same₁) =
        push_strings-Spells bottom m top argv_bottom argv (omega (arith, room))
          (omega (arith, room)) in
      let (m₂, more, r₂, l₂, same₂) =
        push_strings-Spells bottom m₁ argv_bottom strings_bottom envp (omega (arith, room))
          (omega (arith, room)) in
      let (fit₁, la) = Spells-AllFit m₁ argv_bottom top addrs argv (omega (arith, high)) l₁ in
      let (fit₂, le) =
        Spells-AllFit m₂ strings_bottom argv_bottom more envp (omega (arith, high)) l₂ in
      let words = frame_words (length argv) addrs more in
      let m' = store_words m₂ rsp words in
      let size = length-frame_words addrs more la le in
      let above : (q : ℕ) → rsp + frame_size ≤ q → m' q ≡ m₂ q =
        λ q h. store_words_outside m₂ rsp words q (inr (omega (arith, h, size))) in
      let counted : length argv < 2 ^ 64 = omega (arith, room, high) in
      let fit : AllFit words = (
        counted,
        AllFit-append addrs (0 ∷ (more ++ (0 ∷ 0 ∷ []))) fit₁
            (omega arith, AllFit-append more (0 ∷ 0 ∷ []) fit₂ (omega arith, (omega arith, tt))),
      ) in
      (
        m',
        rsp,
        addrs,
        more,
        ap
              (λ o. o then_push λ m' top' argv_user.
                push_strings bottom m' top' (map some envp)
                then_push push_frame bottom (length (map some argv)) argv_user)
              r₁
            ∙ ap (λ o. o then_push push_frame bottom (length (map some argv)) addrs) r₂
            ∙ ap (λ n. push_frame bottom n addrs m₂ strings_bottom more) (length-map-some argv)
            ∙ frame_pushed m₂ addrs more la le,
        omega (arith, room),
        omega arith,
        store_words-Holds m₂ rsp words fit,
        Spells-frame m₁ m' argv_bottom (rsp + frame_size) top top addrs argv (omega (arith, room))
            (omega arith) (λ q h. above q (omega (arith, h, room)) ∙ same₂ q (inr h)) l₁,
        Spells-frame m₂ m' strings_bottom (rsp + frame_size) argv_bottom top more envp
            (omega (arith, room)) (omega arith) (λ q h. above q (omega (arith, h, room))) l₂,
        λ q o. untouched m₁ m₂ words q size same₁ same₂ o,
      )
    where
      untouched :
          (m₁ m₂ : Memory) (words : List ℕ) (q : ℕ)
          → 8 * length words ≡ frame_size
          → ((q : ℕ) → (q < argv_bottom) ⊎ (top ≤ q) → m₁ q ≡ m q)
          → ((q : ℕ) → (q < strings_bottom) ⊎ (argv_bottom ≤ q) → m₂ q ≡ m₁ q)
          → (q < rsp) ⊎ (top ≤ q)
          → store_words m₂ rsp words q ≡ m q
      untouched m₁ m₂ words q size same₁ same₂ (inl lt) =
          store_words_outside m₂ rsp words q (inl lt)
          ∙ same₂ q (inl (omega (arith, lt)))
          ∙ same₁ q (inl (omega (arith, lt)))
      untouched m₁ m₂ words q size same₁ same₂ (inr le) =
          store_words_outside m₂ rsp words q (inr (omega (arith, le, size, room)))
          ∙ same₂ q (inr (omega (arith, le, room)))
          ∙ same₁ q (inr le)

-- With room on the stack for the strings, the frame and its alignment, `prepare_user_stack` makes it ready.
pub prepare_user_stack-Ready :
    (m : Memory) (bottom top : ℕ) (argv envp : List Bytes)
    → top < 2 ^ 64
    → bottom + total argv + total envp + 8 * (length argv + length envp + 4) + 15 ≤ top
    → Ready m bottom top argv envp (prepare_user_stack m bottom top (map some argv) envp true)
prepare_user_stack-Ready m bottom top argv envp high room =
    made-Ready m bottom top argv envp high room
