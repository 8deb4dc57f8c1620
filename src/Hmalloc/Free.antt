-- ===== src/Hmalloc/Free.antt =====
-- `hfree` of libc/hmalloc/hmalloc.c as a whole.
use mathlib.Core.Path.{subst}
use hojicha.Hmalloc.{
  Heap, sizeof_header, sizeof_footer, block_overhead, block_of, mark_free, set_next, merge_with,
  insert_last, remove_from_free_list, merge_next, merge_previous, get_previous, is_rejected, hfree,
  ◌>>=◌, is_footer_in_heap,
}
use hojicha.Hmalloc.Chain.{Linked}
use hojicha.Hmalloc.FreeList.{at_same, write_between}
use hojicha.Hmalloc.Tiles.{
  Block, Tile, Tiled, address_after, free_addrs, free_addrs-append, IsHeap, tiled_replace,
  tiled_split, tiled_le, le_after, between, at_out, focus, started,
}
use hojicha.Hmalloc.Merge.{Loose, absorb}
use hojicha.Hmalloc.Neighbours.{get_previous-first, get_previous-block, matched, footer_inside}
use hojicha.Hmalloc.Release.{join_next, release_after, released, paired, join}
use hojicha.Common.{
  ℕ, ◌+◌, ◌≤◌, ◌≡◌, refl, List, [], ◌∷◌, ◌++◌, length, Option, none, some, Bool, true, false, ◌==◌,
  ltb, leb, not, ◌&&◌, ◌||◌, if◌then◌else◌, arith, sym, ap, ◌∙◌, if_no, if_yes, length-append,
}

pub one_more {ℓ} :
    {A : Type ℓ} (xs : List A) (x : A) (ys : List A) → (xs ++ x ∷ []) ++ ys ≡ xs ++ x ∷ ys
one_more [] x ys = refl
one_more (z ∷ xs) x ys = ap (λ l. z ∷ l) (one_more xs x ys)

pub address_after-append :
    (a : ℕ) (pre : List Block) (p : ℕ) (f : Bool)
    → address_after a (pre ++ (p, f) ∷ []) ≡ address_after a pre + block_overhead + p
unfolding address_after
address_after-append a [] p f = refl
address_after-append a ((s, g) ∷ pre) p f = address_after-append (a + 33 + s) pre p f

pub released-used :
    (pre : List Block) (p s : ℕ) (post : List Block)
    → released (pre ++ (p, false) ∷ []) s post ≡ (pre ++ (p, false) ∷ []) ++ join_next s post
unfolding released release_after
released-used [] p s post = refl
released-used (x ∷ []) p s post = refl
released-used (x ∷ y ∷ pre) p s post = ap (λ l. x ∷ l) (released-used (y ∷ pre) p s post)

pub released-free :
    (pre : List Block) (p s : ℕ) (post : List Block)
    → released (pre ++ (p, true) ∷ []) s post ≡ pre ++ join_next (p + s + block_overhead) post
unfolding released release_after
released-free [] p s post = refl
released-free (x ∷ []) p s post = refl
released-free (x ∷ y ∷ pre) p s post = ap (λ l. x ∷ l) (released-free (y ∷ pre) p s post)

-- A list is empty, or has a last element.
pub by_last {ℓ} :
    (P : List Block → Type ℓ)
    → P []
    → ((pre : List Block) (p : ℕ) (f : Bool) → P (pre ++ (p, f) ∷ []))
    → (pre : List Block) → P pre
by_last P nil snoc [] = nil
by_last P nil snoc ((p, f) ∷ pre) =
    by_last (λ l. P ((p, f) ∷ l)) (snoc [] p f) (λ l q g. snoc ((p, f) ∷ l) q g) pre

module _ (fuel : ℕ) (h : Heap) (s : ℕ) (post : List Block) where
  abbrev first : ℕ
  first = h.first_available_vaddr

  abbrev end : ℕ
  end = h.last_footer + sizeof_footer

  abbrev finish : Heap × ℕ → Option Heap
  finish b = merge_next fuel b >>= insert_last fuel

  abbrev Finished : List Block → Type 0
  Finished pre =
      Loose h pre s post
      → length pre ≤ fuel
      → (h' : Heap) × ((merge_previous fuel h (address_after first pre) >>= finish) ≡ some h')
        × IsHeap h' (released pre s post)

  no_previous : Finished []
  unfolding merge_previous Loose Tiled address_after released
  no_previous o hf =
      let (i, lo, hi, t, l) = o in
      let (ta, t₂) = t in
      let e =
        get_previous-first h first s true lo (omega arith) (tiled_le h.memory _ post _ t₂) ta
          refl in
      let (h', r, o') = join fuel h [] s post o hf in
      (
        h',
        ap (λ b. b >>= finish)
              (if_no
                {b = not (get_previous h first == 0) && h.memory.is_free (get_previous h first)} _ _
                (ground (arith, e)))
            ∙ r,
        o',
      )

  module _ (pre : List Block) (p : ℕ) where
    abbrev a : ℕ
    a = address_after first pre

    abbrev b : ℕ
    b = a + block_overhead + p

    pub pieces :
        (f : Bool)
        → Loose h (pre ++ (p, f) ∷ []) s post
        → Tile h.memory a (p, f)
          × Tile h.memory b (s, true)
          × Tiled h.memory (b + block_overhead + s) post end
    unfolding Loose Tiled
    pieces f (i, lo, hi, t, l) =
        let t' =
          subst (λ bs. Tiled h.memory first bs end) (one_more pre (p, f) ((s, true) ∷ post)) t in
        let (_, (ta, (tb, t₂))) =
          tiled_split h.memory first pre ((p, f) ∷ (s, true) ∷ post) end t' in
        (ta, tb, t₂)

    previous : (f : Bool) → Loose h (pre ++ (p, f) ∷ []) s post → get_previous h b ≡ a
    unfolding Loose
    previous f o =
        let (ta, tb, t₂) = pieces f o in
        let (_, lo, _, _, _) = o in
        get_previous-block h a p f s true lo (le_after first pre) (tiled_le h.memory _ post end t₂)
          ta tb

    previous_used : Finished (pre ++ (p, false) ∷ [])
    unfolding merge_previous
    previous_used o hf =
        let (ta, _, _) = pieces false o in
        let (_, used, _, _) = ta in
        let e = ap h.memory.is_free (previous false o) ∙ used in
        let (h', r, o') = join fuel h (pre ++ (p, false) ∷ []) s post o hf in
        (
          h',
          ap (λ x. x >>= finish)
                (subst (λ q. merge_previous fuel h q ≡ some (h, q))
                  (sym (address_after-append first pre p false))
                  (if_no {b = not (get_previous h b == 0) && h.memory.is_free (get_previous h b)} _
                    _ (ground (arith, e))))
              ∙ r,
          subst (IsHeap h') (sym (released-used pre p s post)) o',
        )

    pub on_list :
        Loose h (pre ++ (p, true) ∷ []) s post
        → Linked h.memory.next h.free_regions
            (free_addrs first pre ++ a ∷ free_addrs (b + block_overhead + s) post)
    unfolding Loose free_addrs
    on_list (_, _, _, _, l) =
        let behind = free_addrs (b + 33 + s) post in
        let List_of : List ℕ → Type 0 = Linked h.memory.next h.free_regions in
        let l₁ =
          subst
            (λ q.
              List_of (free_addrs first (pre ++ (p, true) ∷ []) ++ free_addrs (q + 33 + s) post))
            (address_after-append first pre p true) l in
        let l₂ =
          subst (λ xs. List_of (xs ++ behind)) (free_addrs-append first pre ((p, true) ∷ [])) l₁ in
        subst List_of (one_more (free_addrs first pre) a behind) l₂

    previous_free : Finished (pre ++ (p, true) ∷ [])
    unfolding merge_previous Loose
    previous_free o hf =
        let (ta, tb, t₂) = pieces true o in
        let (i, lo, hi, t, _) = o in
        let (_, free, _, _) = ta in
        let t' =
          subst (λ bs. Tiled h.memory first bs end) (one_more pre (p, true) ((s, true) ∷ post)) t in
        let hf' : length pre ≤ fuel = omega (arith, hf, length-append pre ((p, true) ∷ [])) in
        let (h₁, r, e, o') =
          absorb fuel h pre p s true post a i lo hi t' (omega arith) (omega arith) (on_list o)
            hf' in
        let (h', r', o'') = join fuel h₁ pre (p + s + 33) post o' hf' in
        let merged : merge_previous fuel h b ≡ some (h₁, a) =
          ap
            (λ q.
              if not (q == 0) && h.memory.is_free q
              then (remove_from_free_list fuel h q >>= λ h'. some (merge_with q b h', q))
              else some (h, b))
            (previous true o)
          ∙ if_yes {b = not (a == 0) && h.memory.is_free a} _ (some (h, b))
              (ground (arith, free, lo, le_after first pre))
          ∙ paired (remove_from_free_list fuel h a) (merge_with a b) a h₁ r in
        (
          h',
          ap (λ q. merge_previous fuel h q >>= finish) (address_after-append first pre p true)
              ∙ ap (λ x. x >>= finish) merged
              ∙ subst (λ q. finish (h₁, address_after q pre) ≡ some h') e r',
          subst (IsHeap h') (sym (released-free pre p s post)) o'',
        )

  some_previous : (pre : List Block) (p : ℕ) (f : Bool) → Finished (pre ++ (p, f) ∷ [])
  some_previous pre p true = previous_free pre p
  some_previous pre p false = previous_used pre p

  joined : (pre : List Block) → Finished pre
  joined = by_last Finished no_previous some_previous

bind_assoc :
    (o : Option (Heap × ℕ)) (f : Heap × ℕ → Option (Heap × ℕ)) (g : Heap × ℕ → Option Heap)
    → ((o >>= f) >>= g) ≡ (o >>= λ b. f b >>= g)
bind_assoc none f g = refl
bind_assoc (some b) f g = refl

passes_all :
    (a b c d e : Bool)
    → a ≡ false
    → b ≡ false
    → c ≡ true
    → d ≡ false
    → (a || b || (not c || d) || e) ≡ e
passes_all a b c d e p q r s = ground (arith, p, q, r, s)

module _ (h : Heap) (pre : List Block) (s : ℕ) (f : Bool) (post : List Block)
    (ok : IsHeap h (pre ++ (s, f) ∷ post)) where
  abbrev block : ℕ
  block = address_after h.first_available_vaddr pre

  pub block_of-contents : block_of (block + sizeof_header) ≡ block
  unfolding Tiled
  block_of-contents =
      let (_, _, _, hi, _, (_, t₂), _) = focus h pre ((s, f) ∷ post) ok in
      omega (arith, hi, tiled_le h.memory (block + 33 + s) post _ t₂)

  -- Exactly the addresses of free blocks are rejected.
  pub is_rejected-contents : is_rejected h (block + sizeof_header) ≡ f
  unfolding is_rejected Tiled
  is_rejected-contents =
      let (lo, le, _, hi, _, (t, t₂), _) = focus h pre ((s, f) ∷ post) ok in
      let (_, free, _, _) = t in
      let i = started h _ ok in
      let m = h.memory in
      let end = tiled_le m (block + 33 + s) post _ t₂ in
      let inside = footer_inside h block s f lo le end t in
      let same = matched h block s f lo le end t in
      ap
        (λ q.
          (block + 25 == 0 || not h.heap_initialized)
          || (ltb q h.first_available_vaddr || leb h.last_footer q)
          || (not (is_footer_in_heap h (m.footer q)) || not (m.header (m.footer q) == q))
          || m.is_free q)
        block_of-contents
      ∙ passes_all (block + 25 == 0 || not h.heap_initialized)
          (ltb block h.first_available_vaddr || leb h.last_footer block) _ _ _ (ground (arith, i))
          (ground (arith, le, end)) inside same
      ∙ free

-- `hfree` of the contents of a block in use ends, and marks the block free, joined with the block before
-- it and with the block after it when these are free: the list holds exactly the free blocks, in the order
-- of their addresses. `pre` and `post` are the blocks before and after it, and there is as much fuel
-- as there are blocks before it.
pub hfree-IsHeap :
    (fuel : ℕ) (h : Heap) (pre : List Block) (s : ℕ) (post : List Block)
    → IsHeap h (pre ++ (s, false) ∷ post)
    → length pre ≤ fuel
    → (h' : Heap) × (hfree fuel h (address_after h.first_available_vaddr pre + sizeof_header)
        ≡ some h')
      × IsHeap h' (released pre s post)
unfolding hfree Tiled free_addrs Loose
hfree-IsHeap fuel h pre s post ok hf =
    let m = h.memory in
    let first = h.first_available_vaddr in
    let a = address_after first pre in
    let end = a + 33 + s in
    let (lo, le, _, hi, t₁, (ta, t₂), l) = focus h pre ((s, false) ∷ post) ok in
    let (e₁, e₂, e₃, e₄) = ta in
    let i = started h _ ok in
    let h₀ : Heap = set_next (mark_free h a true) a 0 in
    let o : Loose h₀ pre s post = (
      i,
      lo,
      hi,
      tiled_replace m h₀.memory first a end (h.last_footer + 8) pre ((s, true) ∷ []) post t₁ t₂
          (λ q o. (refl, at_out m.is_free a a end true q (omega arith) (omega arith) o, refl, refl))
          ((e₁, at_same m.is_free a true, e₃, e₄), refl),
      write_between m.next 0 h.free_regions (free_addrs first pre) (free_addrs end post) a 0
          (between 0 first pre a end post lo (omega arith) (omega arith)) l,
    ) in
    let (h', r, o') = joined fuel h₀ s post pre o hf in
    (
      h',
      if_no _ _ (is_rejected-contents h pre s false post ok)
          ∙ ap
              (λ q.
                (merge_previous fuel (set_next (mark_free h q true) q 0) q >>= merge_next fuel)
                >>= insert_last fuel)
              (block_of-contents h pre s false post ok)
          ∙ bind_assoc (merge_previous fuel h₀ a) (merge_next fuel) (insert_last fuel)
          ∙ r,
      o',
    )
