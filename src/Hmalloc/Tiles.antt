-- ===== src/Hmalloc/Tiles.antt =====
-- The heap of libc/hmalloc/hmalloc.c as a sequence of blocks that fill it without a gap.
use mathlib.Core.Path.{subst}
use hojicha.Hmalloc.{Memory, Heap, at, sizeof_header, sizeof_footer, block_overhead}
use hojicha.Hmalloc.Chain.{Linked, Ascending}
use hojicha.Common.{
  ℕ, ◌+◌, ◌<◌, ◌≤◌, ◌^◌, ◌≡◌, ◌⊎◌, inl, inr, refl, List, [], ◌∷◌, ◌++◌, length, Bool, true, false,
  ◌==◌, arith, sym, ap, ◌∙◌, if_no, if_yes,
}

-- The size of a block's contents, and whether the block is free.
abbrev pub Block : Type 0
Block = ℕ × Bool

-- At `a` there is the block, with its footer.
abbrev pub Tile : Memory → ℕ → Block → Type 0
Tile m a (s, free) =
    (m.size_bytes a ≡ s)
    × (m.is_free a ≡ free)
    × (m.footer a ≡ a + sizeof_header + s)
    × (m.header (a + sizeof_header + s) ≡ a)

-- The blocks fill the memory from `a` to `end`.
unfoldable pub Tiled : Memory → ℕ → List Block → ℕ → Type 0
Tiled m a [] end = a ≡ end
Tiled m a ((s, free) ∷ bs) end = Tile m a (s, free) × Tiled m (a + block_overhead + s) bs end

unfoldable pub address_after : ℕ → List Block → ℕ
address_after a [] = a
address_after a ((s, free) ∷ bs) = address_after (a + block_overhead + s) bs

-- The addresses of the free blocks.
unfoldable pub free_addrs : ℕ → List Block → List ℕ
free_addrs a [] = []
free_addrs a ((s, true) ∷ bs) = a ∷ free_addrs (a + block_overhead + s) bs
free_addrs a ((s, false) ∷ bs) = free_addrs (a + block_overhead + s) bs

-- The heap consists of the blocks, and its list holds the free ones in the order of their addresses.
unfoldable pub IsHeap : Heap → List Block → Type 0
unfolding Tiled free_addrs
IsHeap h bs =
    (h.heap_initialized ≡ true)
    × (0 < h.first_available_vaddr)
    × (h.last_footer + sizeof_footer < 2 ^ 64)
    × Tiled h.memory h.first_available_vaddr bs (h.last_footer + sizeof_footer)
    × Linked h.memory.next h.free_regions (free_addrs h.first_available_vaddr bs)

-- The two memories agree at `q` on all fields but `next`.
abbrev pub Same : Memory → Memory → ℕ → Type 0
Same m m' q =
    (m'.size_bytes q ≡ m.size_bytes q)
    × (m'.is_free q ≡ m.is_free q)
    × (m'.footer q ≡ m.footer q)
    × (m'.header q ≡ m.header q)

pub tiled_le : (m : Memory) (a : ℕ) (bs : List Block) (end : ℕ) → Tiled m a bs end → a ≤ end
unfolding Tiled
tiled_le m a [] end e = omega (arith, e)
tiled_le m a ((s, free) ∷ bs) end (t, l) = omega (arith, tiled_le m (a + 33 + s) bs end l)

pub tile_frame :
    (m m' : Memory) (a s : ℕ) (free : Bool)
    → Same m m' a
    → Same m m' (a + sizeof_header + s)
    → Tile m a (s, free)
    → Tile m' a (s, free)
tile_frame m m' a s free (e, e', e'', _) (_, _, _, o) (t, t', t'', t''') =
    (e ∙ t, e' ∙ t', e'' ∙ t'', o ∙ t''')

pub tiled_frame :
    (m m' : Memory) (a : ℕ) (bs : List Block) (end : ℕ)
    → ((q : ℕ) → a ≤ q → q < end → Same m m' q)
    → Tiled m a bs end
    → Tiled m' a bs end
unfolding Tiled
tiled_frame m m' a [] end agree e = e
tiled_frame m m' a ((s, free) ∷ bs) end agree (t, l) =
    let h = tiled_le m (a + 33 + s) bs end l in
    (
      tile_frame m m' a s free (agree a (omega arith) (omega (arith, h)))
          (agree (a + 25 + s) (omega arith) (omega (arith, h))) t,
      tiled_frame m m' (a + 33 + s) bs end (λ q lo hi. agree q (omega (arith, lo)) hi) l,
    )

pub tiled_after :
    (m : Memory) (a : ℕ) (bs : List Block) (end : ℕ) → Tiled m a bs end → address_after a bs ≡ end
unfolding Tiled address_after
tiled_after m a [] end e = e
tiled_after m a ((s, free) ∷ bs) end (t, l) = tiled_after m (a + 33 + s) bs end l

pub tiled_split :
    (m : Memory) (a : ℕ) (pre post : List Block) (end : ℕ)
    → Tiled m a (pre ++ post) end
    → Tiled m a pre (address_after a pre) × Tiled m (address_after a pre) post end
unfolding Tiled address_after
tiled_split m a [] post end l = (refl, l)
tiled_split m a ((s, free) ∷ pre) post end (t, l) =
    let (l₁, l₂) = tiled_split m (a + 33 + s) pre post end l in ((t, l₁), l₂)

pub tiled_join :
    (m : Memory) (a : ℕ) (pre post : List Block) (mid end : ℕ)
    → Tiled m a pre mid
    → Tiled m mid post end
    → Tiled m a (pre ++ post) end
unfolding Tiled
tiled_join m a [] post mid end e l = subst (λ q. Tiled m q post end) (sym e) l
tiled_join m a ((s, free) ∷ pre) post mid end (t, l) l' =
    (t, tiled_join m (a + 33 + s) pre post mid end l l')

-- The blocks between `lo` and `hi` become others.
pub tiled_replace :
    (m m' : Memory) (a lo hi end : ℕ) (pre mid post : List Block)
    → Tiled m a pre lo
    → Tiled m hi post end
    → ((q : ℕ) → (q < lo) ⊎ (hi ≤ q) → Same m m' q)
    → Tiled m' lo mid hi
    → Tiled m' a (pre ++ (mid ++ post)) end
tiled_replace m m' a lo hi end pre mid post l l' agree new =
    tiled_join m' a pre (mid ++ post) lo end
      (tiled_frame m m' a pre lo (λ q h h'. agree q (inl h')) l)
      (tiled_join m' lo mid post hi end new
        (tiled_frame m m' hi post end (λ q h h'. agree q (inr h)) l'))

pub free_addrs-append :
    (a : ℕ) (pre post : List Block)
    → free_addrs a (pre ++ post) ≡ free_addrs a pre ++ free_addrs (address_after a pre) post
unfolding free_addrs address_after
free_addrs-append a [] post = refl
free_addrs-append a ((s, true) ∷ pre) post =
    ap (λ xs. a ∷ xs) (free_addrs-append (a + 33 + s) pre post)
free_addrs-append a ((s, false) ∷ pre) post = free_addrs-append (a + 33 + s) pre post

pub free_addrs-Ascending : (lo a : ℕ) (bs : List Block) → lo < a → Ascending lo (free_addrs a bs)
unfolding free_addrs Ascending
free_addrs-Ascending lo a [] h = tt
free_addrs-Ascending lo a ((s, true) ∷ bs) h =
    (h, free_addrs-Ascending a (a + 33 + s) bs (omega arith))
free_addrs-Ascending lo a ((s, false) ∷ bs) h =
    free_addrs-Ascending lo (a + 33 + s) bs (omega (arith, h))

pub le_after : (a : ℕ) (bs : List Block) → a ≤ address_after a bs
unfolding address_after
le_after a [] = omega arith
le_after a ((s, free) ∷ bs) = omega (arith, le_after (a + 33 + s) bs)

-- A block between those of `pre` and those of `post` has its place in the list.
pub between :
    (lo a : ℕ) (pre : List Block) (x a' : ℕ) (post : List Block)
    → lo < a
    → address_after a pre ≤ x
    → x < a'
    → Ascending lo (free_addrs a pre ++ x ∷ free_addrs a' post)
unfolding free_addrs Ascending address_after
between lo a [] x a' post h h' h'' = (omega (arith, h, h'), free_addrs-Ascending x a' post h'')
between lo a ((s, true) ∷ pre) x a' post h h' h'' =
    (h, between a (a + 33 + s) pre x a' post (omega arith) h' h'')
between lo a ((s, false) ∷ pre) x a' post h h' h'' =
    between lo (a + 33 + s) pre x a' post (omega (arith, h)) h' h''

pub length-free_addrs : (a : ℕ) (bs : List Block) → length (free_addrs a bs) ≤ length bs
unfolding free_addrs
length-free_addrs a [] = omega arith
length-free_addrs a ((s, true) ∷ bs) = omega (arith, length-free_addrs (a + 33 + s) bs)
length-free_addrs a ((s, false) ∷ bs) = omega (arith, length-free_addrs (a + 33 + s) bs)

-- The heap around the block after `pre`, and back.
module _ (h : Heap) (pre post : List Block) where
  abbrev first : ℕ
  first = h.first_available_vaddr

  abbrev address : ℕ
  address = address_after first pre

  abbrev end : ℕ
  end = h.last_footer + sizeof_footer

  pub focus :
      IsHeap h (pre ++ post)
      → (0 < first)
        × (first ≤ address)
        × (address ≤ end)
        × (end < 2 ^ 64)
        × Tiled h.memory first pre address
        × Tiled h.memory address post end
        × Linked h.memory.next h.free_regions (free_addrs first pre ++ free_addrs address post)
  unfolding IsHeap
  focus (_, lo, hi, t, l) =
      let (t₁, t₂) = tiled_split h.memory first pre post end t in
      (
        lo,
        le_after first pre,
        tiled_le h.memory address post end t₂,
        hi,
        t₁,
        t₂,
        subst (Linked h.memory.next h.free_regions) (free_addrs-append first pre post) l,
      )

  pub unfocus :
      h.heap_initialized ≡ true
      → 0 < first
      → end < 2 ^ 64
      → Tiled h.memory first (pre ++ post) end
      → Linked h.memory.next h.free_regions (free_addrs first pre ++ free_addrs address post)
      → IsHeap h (pre ++ post)
  unfolding IsHeap
  unfocus i lo hi t l = (
    i,
    lo,
    hi,
    t,
    subst (Linked h.memory.next h.free_regions) (sym (free_addrs-append first pre post)) l,
  )

pub started : (h : Heap) (bs : List Block) → IsHeap h bs → h.heap_initialized ≡ true
unfolding IsHeap
started h bs (i, _, _, _, _) = i

-- A write inside of `lo` and `hi` is not seen outside.
pub at_out {ℓ} :
    {A : Type ℓ} (f : ℕ → A) (lo p hi : ℕ) (v : A) (q : ℕ)
    → lo ≤ p
    → p < hi
    → (q < lo) ⊎ (hi ≤ q)
    → at f p v q ≡ f q
at_out f lo p hi v q h h' (inl lt) = if_no {b = q == p} v (f q) (ground (arith, h, lt))
at_out f lo p hi v q h h' (inr le) = if_no {b = q == p} v (f q) (ground (arith, h', le))

pub at_hit {ℓ} : {A : Type ℓ} (f : ℕ → A) (p : ℕ) (v : A) (q : ℕ) → q ≡ p → at f p v q ≡ v
at_hit f p v q e = if_yes {b = q == p} v (f q) (ground (arith, e))
