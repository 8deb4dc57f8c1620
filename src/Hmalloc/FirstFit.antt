-- ===== src/Hmalloc/FirstFit.antt =====
-- `find_first_fit_block` of libc/hmalloc/hmalloc.c.
use hojicha.Hmalloc.{Memory, block_overhead, find_first_fit_block}
use hojicha.Hmalloc.Chain.{Linked}
use hojicha.Hmalloc.Tiles.{Block, Tiled, address_after, free_addrs}
use hojicha.Hmalloc.Occupy.{cut_block}
use hojicha.Common.{
  ℕ, zero, suc, ◌+◌, ◌<◌, ◌≤◌, ◌≡◌, ◌⊎◌, inl, inr, refl, List, [], ◌∷◌, ◌++◌, length, Option, none,
  some, Bool, true, false, ◌==◌, leb, ◌&&◌, if◌then◌else◌, arith, ap, ◌∙◌, if_no, if_yes,
  Bool-cases,
}

unfoldable pub keep : Block → Option (ℕ × List Block) → Option (ℕ × List Block)
keep b none = none
keep b (some (a, bs)) = some (a, b ∷ bs)

-- The first free block of at least `size` bytes, from the address `a` on, and the blocks after it is taken.
unfoldable pub place_block : ℕ → List Block → (size : ℕ) → Option (ℕ × List Block)
unfolding keep cut_block
place_block a [] size = none
place_block a ((s, true) ∷ bs) size =
    let rest = place_block (a + block_overhead + s) bs size in
    if leb size s then some (a, cut_block s size ++ bs) else keep (s, true) rest
place_block a ((s, false) ∷ bs) size =
    keep (s, false) (place_block (a + block_overhead + s) bs size)

-- The place that is found, if any.
abbrev pub Found : ℕ → List Block → ℕ → Option ℕ → Type 0
Found a bs size r =
    ((place_block a bs size ≡ none) × (r ≡ some 0))
    ⊎ ((pre : List Block) × (s : ℕ) × (post : List Block) × (bs ≡ pre ++ (s, true) ∷ post)
        × (size ≤ s)
        × (place_block a bs size ≡ some (address_after a pre, pre ++ (cut_block s size ++ post)))
        × (r ≡ some (address_after a pre)))

Found-later :
    (a : ℕ) (s : ℕ) (f : Bool) (bs : List Block) (size : ℕ) (r r' : Option ℕ)
    → place_block a ((s, f) ∷ bs) size ≡ keep (s, f) (place_block (a + block_overhead + s) bs size)
    → r' ≡ r
    → Found (a + block_overhead + s) bs size r
    → Found a ((s, f) ∷ bs) size r'
unfolding keep address_after
Found-later a s f bs size r r' e e' (inl (n, o)) = inl (e ∙ ap (keep (s, f)) n, e' ∙ o)
Found-later a s f bs size r r' e e' (inr (pre, t, post, eq, le, p, o)) =
    inr ((s, f) ∷ pre, t, post, ap (λ l. (s, f) ∷ l) eq, le, e ∙ ap (keep (s, f)) p, e' ∙ o)

pub find_first_fit_block-Found :
    (fuel : ℕ) (m : Memory) (a p : ℕ) (bs : List Block) (end size : ℕ)
    → 0 < a
    → length bs < fuel
    → Tiled m a bs end
    → Linked m.next p (free_addrs a bs)
    → Found a bs size (find_first_fit_block fuel m p size)
unfolding find_first_fit_block place_block Tiled Linked free_addrs address_after
find_first_fit_block-Found zero m a p [] end size h hf t l = absurd (omega (arith, hf))
find_first_fit_block-Found zero m a p (b ∷ bs) end size h hf t l = absurd (omega (arith, hf))
find_first_fit_block-Found (suc fuel) m a p [] end size h hf t l =
    inl (refl, if_yes {b = p == 0} (some 0) _ (ground (arith, l)))
find_first_fit_block-Found (suc fuel) m a p ((s, false) ∷ bs) end size h hf (_, t) l =
    Found-later a s false bs size (find_first_fit_block (suc fuel) m p size) _ refl refl (
      find_first_fit_block-Found (suc fuel) m (a + 33 + s) p bs end size (omega (arith, h))
        (omega (arith, hf)) t l)
find_first_fit_block-Found (suc fuel) m a p ((s, true) ∷ bs) end size h hf (t, t') (e, l) =
    let (e₁, e₂, _, _) = t in
    let rest = find_first_fit_block fuel m (m.next a) size in
    let there : find_first_fit_block (suc fuel) m p size
        ≡ (if leb size (m.size_bytes a) && m.is_free a then some a else rest) =
      ap (λ q. find_first_fit_block (suc fuel) m q size) e
      ∙ if_no {b = a == 0} (some 0) _ (ground (arith, h)) in
    elim (Bool-cases (leb size s)) [
      | inl y ↦ inr (
        [],
        s,
        bs,
        refl,
        ground (arith, y),
        if_yes _ _ y,
        there
            ∙ if_yes {b = leb size (m.size_bytes a) && m.is_free a} (some a) rest
                (ground (arith, y, e₁, e₂)),
      )
      | inr n ↦
          Found-later a s true bs size rest (find_first_fit_block (suc fuel) m p size) (if_no _ _ n)
            (there
              ∙ if_no {b = leb size (m.size_bytes a) && m.is_free a} (some a) rest
                  (ground (arith, n, e₁, e₂)))
            (find_first_fit_block-Found fuel m (a + 33 + s) (m.next a) bs end size
              (omega (arith, h)) (omega (arith, hf)) t' l)
    ]
