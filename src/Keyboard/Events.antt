-- ===== src/Keyboard/Events.antt =====
-- The queue of key events of kernel/drivers/keyboard.c.
use mathlib.Core.Path.{subst}
use hojicha.Ringbuffer.Fifo.{IsValid, contents, capacity, waiting, write_lem}
use hojicha.Keyboard.{Event, Keyboard, put, event_of, keyboard_write_event}
use hojicha.Common.{
  true, ℕ, zero, suc, ◌+◌, ◌%◌, ◌^◌, ◌<◌, ◌≡◌, ◌==◌, refl, List, [], ◌∷◌, ◌++◌, map, arith, sym, ap,
  ◌∙◌, if_yes, if_no, ==_refl,
}

-- The places in the pool of `n` events from the sequence number `s` on.
unfoldable pub places : (s n : ℕ) → List ℕ
places s zero = []
places s (suc n) = s % 256 ∷ places (s + 1) n

abbrev pub pending : Keyboard → List Event
pending kb = map kb.pool (contents kb.ring)

-- The queue was created and the last `n` events wait.
unfoldable pub Waits : Keyboard → (s n : ℕ) → Type 0
Waits kb s n =
    IsValid kb.ring
    × (contents kb.ring ≡ places s n)
    × (s + n ≡ kb.sequence)
    × (kb.is_created ≡ true)

places-snoc : (s n : ℕ) → places s n ++ ((s + n) % 256 ∷ []) ≡ places s (suc n)
unfolding places
places-snoc s zero = ap (λ k. k % 256 ∷ []) (omega arith)
places-snoc s (suc n) =
    ap (λ k. s % 256 ∷ (places (s + 1) n ++ (k % 256 ∷ []))) (omega arith)
    ∙ ap (λ l. s % 256 ∷ l) (places-snoc (s + 1) n)

-- The next place is none of fewer than 256 places before it.
untouched :
    (pool : ℕ → Event) (e : Event) (s n k : ℕ)
    → n + k < 256
    → map (put pool ((s + n + k) % 256) e) (places s n) ≡ map pool (places s n)
unfolding places
untouched pool e s zero k h = refl
untouched pool e s (suc n) k h =
    let p = (s + suc n + k) % 256 in
    let same : (s + 1 + n + k) % 256 ≡ p = ap (λ j. j % 256) (omega arith) in
    ap (λ v. v ∷ map (put pool p e) (places (s + 1) n))
      (if_no {b = (s % 256) == p} e (pool (s % 256)) (ground (arith, h)))
    ∙ ap (λ l. pool (s % 256) ∷ l)
        (subst (λ j. map (put pool j e) (places (s + 1) n) ≡ map pool (places (s + 1) n)) same
          (untouched pool e (s + 1) n k (omega (arith, h))))

map-snoc : (f : ℕ → Event) (xs : List ℕ) (x : ℕ) → map f (xs ++ (x ∷ [])) ≡ map f xs ++ (f x ∷ [])
map-snoc f [] x = refl
map-snoc f (y ∷ xs) x = ap (λ l. f y ∷ l) (map-snoc f xs x)

-- Once the queue was created, while the ring has room and fewer events wait than the pool holds,
-- `keyboard_write_event` adds its event behind those that wait, none of which changes. The sequence
-- number does not wrap.
pub keyboard_write_event-Waits :
    (kb : Keyboard) (s n scancode now : ℕ)
    → Waits kb s n
    → n < 256
    → waiting kb.ring < capacity kb.ring
    → kb.sequence + 1 < 2 ^ 64
    → Waits (keyboard_write_event kb scancode now) s (suc n)
      × (pending (keyboard_write_event kb scancode now)
          ≡ pending kb ++ (event_of kb scancode now ∷ []))
unfolding Waits keyboard_write_event
keyboard_write_event-Waits kb s n scancode now (v, held, seq, created) few room high =
    let idx = kb.sequence % 256 in
    let e = event_of kb scancode now in
    let same : idx ≡ (s + n) % 256 = ap (λ k. k % 256) (sym seq) in
    let (v', added) = write_lem kb.ring idx v room in
    let pool' = put kb.pool idx e in
    let kept : map pool' (contents kb.ring) ≡ map kb.pool (contents kb.ring) =
      ap (map pool') held
      ∙ subst (λ j. map (put kb.pool j e) (places s n) ≡ map kb.pool (places s n))
          (ap (λ k. k % 256) (omega arith) ∙ sym same)
          (untouched kb.pool e s n 0 (omega (arith, few)))
      ∙ ap (map kb.pool) (sym held) in
    rw created (
      (
        v',
        added
            ∙ ap (λ l. l ++ (idx ∷ [])) held
            ∙ ap (λ j. places s n ++ (j ∷ [])) same
            ∙ places-snoc s n,
        omega (arith, seq, high),
        refl,
      ),
      ap (map pool') added
          ∙ map-snoc pool' (contents kb.ring) idx
          ∙ ap (λ l. l ++ (pool' idx ∷ [])) kept
          ∙ ap (λ x. map kb.pool (contents kb.ring) ++ (x ∷ []))
              (if_yes {b = idx == idx} e (kb.pool idx) (==_refl idx)),
    )
