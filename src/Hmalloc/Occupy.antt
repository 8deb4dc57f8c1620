-- ===== src/Hmalloc/Occupy.antt =====
-- `occupy_block` of libc/hmalloc/hmalloc.c: a free block is taken, and cut when it is large.
use mathlib.Core.Path.{subst}
use hojicha.Hmalloc.{
  Memory, Heap, at, sizeof_header, sizeof_footer, block_overhead, mark_free, set_next, clear_next,
  ◌>>=◌, split_region, occupy_block,
}
use hojicha.Hmalloc.Chain.{Linked}
use hojicha.Hmalloc.FreeList.{linked, at_same, write_between, write_after}
use hojicha.Hmalloc.FreeOps.{Lists, remove_from_free_list-Lists, replace_free_list_block-Lists}
use hojicha.Hmalloc.Tiles.{
  Block, Tile, Tiled, address_after, free_addrs, IsHeap, Same, tiled_replace, between,
  length-free_addrs, free_addrs-Ascending, tiled_le, focus, unfocus, started, at_out, at_hit,
}
use hojicha.Common.{
  ℕ, ◌+◌, ◌-◌, ◌%◌, ◌<◌, ◌≤◌, ◌^◌, ◌≡◌, ◌⊎◌, refl, List, [], ◌∷◌, ◌++◌, length, some, true, false,
  leb, ◌==◌, if◌then◌else◌, arith, ap, ◌∙◌, if_no, if_yes, if_ind,
}

-- What becomes of a block of `s` bytes when `size` of them are taken.
unfoldable pub cut_block : (s size : ℕ) → List Block
cut_block s size =
    if leb s (size + block_overhead)
    then (s, false) ∷ []
    else (size, false) ∷ (s - size - block_overhead, true) ∷ []

module _ (fuel : ℕ) (h : Heap) (pre : List Block) (s : ℕ) (post : List Block) (size : ℕ) where
  abbrev a : ℕ
  a = address_after h.first_available_vaddr pre

  abbrev used : Heap
  used = mark_free h a false

  abbrev Taken : List Block → Type 0
  Taken mid =
      (h' : Heap) × (occupy_block fuel h a size ≡ some h')
      × (h'.first_available_vaddr ≡ h.first_available_vaddr)
      × IsHeap h' (pre ++ (mid ++ post))

  whole :
      IsHeap h (pre ++ (s, true) ∷ post)
      → length pre ≤ fuel
      → leb (h.memory.size_bytes a) ((size + sizeof_header + sizeof_footer) % 2 ^ 64) ≡ true
      → Taken ((s, false) ∷ [])
  unfolding occupy_block Lists free_addrs Tiled
  whole ok hf e =
      let (lo, le, _, hi, t₁, ((e₁, e₂, e₃, e₄), t₂), l) = focus h pre ((s, true) ∷ post) ok in
      let m = h.memory in
      let first = h.first_available_vaddr in
      let asc = between 0 first pre a (a + 33 + s) post lo (omega arith) (omega arith) in
      let (next', fr, r, l') =
        remove_from_free_list-Lists fuel used a (free_addrs first pre)
          (free_addrs (a + 33 + s) post) (omega (arith, hf, length-free_addrs first pre)) l asc in
      let h' : Heap = set_next (linked used next' fr) a 0 in
      (
        h',
        ap (λ o. o >>= clear_next a) (if_yes _ _ e ∙ r),
        refl,
        unfocus h' pre ((s, false) ∷ post) (started h _ ok) lo hi
            (tiled_replace m h'.memory first a (a + 33 + s) (h.last_footer + 8) pre
              ((s, false) ∷ []) post t₁ t₂
              (λ q o. (
                refl,
                at_out m.is_free a a (a + 33 + s) false q (omega arith) (omega arith) o,
                refl,
                refl,
              ))
              ((e₁, at_same m.is_free a false, e₃, e₄), refl))
            (write_between next' 0 fr (free_addrs first pre) (free_addrs (a + 33 + s) post) a 0 asc
              l'),
      )

  abbrev divided : Memory
  unfolding split_region
  divided =
      let (split, _) = split_region used.memory a size in
      record split { size_bytes = at split.size_bytes a size }

  divided-Same :
      h.memory.footer a ≡ a + sizeof_header + s
      → size + block_overhead < s
      → (q : ℕ) → (q < a) ⊎ (a + block_overhead + s ≤ q)
      → Same h.memory divided q
  unfolding split_region
  divided-Same e fit q o =
      let m = h.memory in
      let b = a + 25 + 8 + size in
      let end = a + 33 + s in
      let size₁ = m.size_bytes a - size - 25 - 8 in
      (
        at_out (at m.size_bytes b size₁) a a end size q (omega arith) (omega arith) o
            ∙ at_out m.size_bytes a b end size₁ q (omega arith) (omega (arith, fit)) o,
        at_out (at m.is_free a false) a b end true q (omega arith) (omega (arith, fit)) o
            ∙ at_out m.is_free a a end false q (omega arith) (omega arith) o,
        at_out (at m.footer b (m.footer a)) a a end (b - 8) q (omega arith) (omega arith) o
            ∙ at_out m.footer a b end (m.footer a) q (omega arith) (omega (arith, fit)) o,
        at_out (at m.header (m.footer a) b) a (b - 8) end a q (omega arith) (omega (arith, fit)) o
            ∙ at_out m.header a (m.footer a) end b q (omega (arith, e)) (omega (arith, e)) o,
      )

  divided-Tiled :
      Tile h.memory a (s, true)
      → size + block_overhead < s
      → Tiled divided a
          ((size, false) ∷ (s - size - block_overhead, true) ∷ [])
          (a + block_overhead + s)
  unfolding split_region Tiled
  divided-Tiled (e₁, e₂, e₃, e₄) fit =
      let m = h.memory in
      let b = a + 25 + 8 + size in
      let b' = a + 33 + size in
      let rest = s - size - 33 in
      let size₁ = m.size_bytes a - size - 25 - 8 in
      let sizes = at m.size_bytes b size₁ in
      let footers = at m.footer b (m.footer a) in
      let headers = at m.header (m.footer a) b in
      let other : (b' == a) ≡ false = ground arith in
      (
        (
          at_same sizes a size,
          if_no {b = a == b} true _ (ground arith) ∙ at_same m.is_free a false,
          at_same footers a (b - 8) ∙ omega arith,
          at_hit headers (b - 8) a (a + 25 + size) (omega arith),
        ),
        (
          (
            if_no size (sizes b') other
                ∙ at_hit m.size_bytes b size₁ b' (omega arith)
                ∙ omega (arith, e₁),
            at_hit (at m.is_free a false) b true b' (omega arith),
            if_no (b - 8) (footers b') other
                ∙ at_hit m.footer b (m.footer a) b' (omega arith)
                ∙ e₃
                ∙ omega (arith, fit),
            if_no {b = (b' + 25 + rest) == (b - 8)} a (headers (b' + 25 + rest)) (ground arith)
                ∙ at_hit m.header (m.footer a) b (b' + 25 + rest) (omega (arith, e₃, fit))
                ∙ omega arith,
          ),
          omega (arith, fit),
        ),
      )

  parted :
      IsHeap h (pre ++ (s, true) ∷ post)
      → length pre ≤ fuel
      → leb (h.memory.size_bytes a) ((size + sizeof_header + sizeof_footer) % 2 ^ 64) ≡ false
      → size + block_overhead < s
      → Taken ((size, false) ∷ (s - size - block_overhead, true) ∷ [])
  unfolding occupy_block Lists free_addrs Tiled split_region
  parted ok hf e fit =
      let (lo, le, _, hi, t₁, ((e₁, e₂, e₃, e₄), t₂), l) = focus h pre ((s, true) ∷ post) ok in
      let m = h.memory in
      let first = h.first_available_vaddr in
      let b = a + 25 + 8 + size in
      let rest = s - size - 33 in
      let end = a + 33 + s in
      let before = free_addrs first pre in
      let h₁ : Heap = record used { memory = divided } in
      let asc = between 0 first pre a end post lo (omega arith) (omega arith) in
      let asc' = free_addrs-Ascending b end post (omega (arith, fit)) in
      let (next', fr, r, l') =
        replace_free_list_block-Lists fuel h₁ a b before (free_addrs end post)
          (omega (arith, hf, length-free_addrs first pre))
          (write_after m.next 0 h.free_regions before a (free_addrs end post) b (m.next a) asc
            (omega arith) asc' l)
          asc (omega arith) asc' in
      let same_block : b ≡ a + 33 + size = omega arith in
      let same_end : end ≡ a + 33 + size + 33 + rest = omega (arith, fit) in
      let l'' =
        subst (λ x. Linked next' fr (before ++ x ∷ free_addrs (a + 33 + size + 33 + rest) post))
          same_block (subst (λ x. Linked next' fr (before ++ b ∷ free_addrs x post)) same_end l') in
      let h' : Heap = set_next (linked h₁ next' fr) a 0 in
      (
        h',
        ap (λ o. o >>= clear_next a) (if_no _ _ e ∙ r),
        refl,
        unfocus h' pre ((size, false) ∷ (rest, true) ∷ post) (started h _ ok) lo hi
            (tiled_replace m h'.memory first a end (h.last_footer + 8) pre
              ((size, false) ∷ (rest, true) ∷ []) post t₁ t₂ (divided-Same e₃ fit)
              (divided-Tiled (e₁, e₂, e₃, e₄) fit))
            (write_between next' 0 fr before (free_addrs (a + 33 + size) ((rest, true) ∷ post)) a 0
              (between 0 first pre a (a + 33 + size) ((rest, true) ∷ post) lo (omega arith)
                (omega arith))
              l''),
      )

-- A free block that is large enough is taken, with what it is cut into in its place.
pub occupy_block-IsHeap :
    (fuel : ℕ) (h : Heap) (pre : List Block) (s : ℕ) (post : List Block) (size : ℕ)
    → IsHeap h (pre ++ (s, true) ∷ post)
    → size ≤ s
    → length pre ≤ fuel
    → (h' : Heap) × (occupy_block fuel h (address_after h.first_available_vaddr pre) size ≡ some h')
      × (h'.first_available_vaddr ≡ h.first_available_vaddr)
      × IsHeap h' (pre ++ (cut_block s size ++ post))
unfolding Tiled cut_block
occupy_block-IsHeap fuel h pre s post size ok fit hf =
    let (_, _, _, hi, _, ((e₁, _, _, _), t₂), _) = focus h pre ((s, true) ∷ post) ok in
    let le = tiled_le h.memory _ post _ t₂ in
    let needed : (size + 25 + 8) % 2 ^ 64 ≡ size + 33 = omega (arith, fit, hi, le) in
    let Result : List Block → Type 0 = Taken fuel h pre s post size in
    if_ind Result (leb s (size + 33)) ((s, false) ∷ []) ((size, false) ∷ (s - size - 33, true) ∷ [])
      (λ t. whole fuel h pre s post size ok hf (ground (arith, t, needed, e₁)))
      (λ f. parted fuel h pre s post size ok hf (ground (arith, f, needed, e₁)) (ground (arith, f)))
