-- ===== src/Hmalloc/Neighbours.antt =====
-- `get_next` and `get_previous` of libc/hmalloc/hmalloc.c.
use hojicha.Hmalloc.{
  Heap, sizeof_footer, block_overhead, get_next, get_previous, is_block_header_in_heap,
  is_footer_in_heap,
}
use hojicha.Hmalloc.Tiles.{Tile}
use hojicha.Common.{
  ℕ, ◌+◌, ◌-◌, ◌<◌, ◌≤◌, ◌≡◌, Bool, true, false, ◌==◌, ltb, leb, not, ◌||◌, arith, sym, ap, ◌∙◌,
  if◌then◌else◌, if_no, if_yes,
}

module _ (h : Heap) (a s : ℕ) (f : Bool) (lo : 0 < h.first_available_vaddr)
    (le : h.first_available_vaddr ≤ a) (hi : a + block_overhead + s ≤ h.last_footer + sizeof_footer)
    (t : Tile h.memory a (s, f)) where
  pub header_inside : is_block_header_in_heap h a ≡ true
  unfolding is_block_header_in_heap
  header_inside = ground (arith, lo, le, hi)

  pub footer_inside : is_footer_in_heap h (h.memory.footer a) ≡ true
  unfolding is_footer_in_heap
  footer_inside = let (_, _, e, _) = t in ap (is_footer_in_heap h) e ∙ ground (arith, lo, le, hi)

  pub reached :
      (not (is_block_header_in_heap h a) || not (is_footer_in_heap h (h.memory.footer a))) ≡ false
  reached =
      ap (λ x. not x || not (is_footer_in_heap h (h.memory.footer a))) header_inside
      ∙ ap not footer_inside

  pub matched : not (h.memory.header (h.memory.footer a) == a) ≡ false
  matched =
      let (_, _, e, e') = t in
      let same : h.memory.header (h.memory.footer a) ≡ a = ap h.memory.header e ∙ e' in
      ground (arith, same)

  pub get_next-last : h.last_footer + sizeof_footer ≡ a + block_overhead + s → get_next h a ≡ 0
  unfolding get_next
  get_next-last e =
      let (_, _, e₃, _) = t in
      if_no _ _ reached
      ∙ if_yes {b = leb h.last_footer (h.memory.footer a + 8)} 0 _ (ground (arith, e, e₃))

  pub get_previous-first : a ≡ h.first_available_vaddr → get_previous h a ≡ 0
  unfolding get_previous
  get_previous-first e =
      if_no _ _ (ap not header_inside)
      ∙ if_yes {b = ltb a (h.first_available_vaddr + 25 + 8)} 0 _ (ground (arith, e))

module _ (h : Heap) (a s : ℕ) (f : Bool) (n : ℕ) (g : Bool) (lo : 0 < h.first_available_vaddr)
    (le : h.first_available_vaddr ≤ a)
    (hi : a + block_overhead + s + block_overhead + n ≤ h.last_footer + sizeof_footer)
    (t : Tile h.memory a (s, f)) (t' : Tile h.memory (a + block_overhead + s) (n, g)) where
  abbrev b : ℕ
  b = a + block_overhead + s

  pub get_next-block : get_next h a ≡ b
  unfolding get_next
  get_next-block =
      let m = h.memory in
      let (_, _, e₃, _) = t in
      let next : m.footer a + 8 ≡ b = omega (arith, e₃) in
      if_no _ _ (reached h a s f lo le (omega (arith, hi)) t)
      ∙ if_no {b = leb h.last_footer (m.footer a + 8)} 0 _ (ground (arith, e₃, hi))
      ∙ ap
          (λ q.
            if not (is_block_header_in_heap h q) || not (is_footer_in_heap h (m.footer q))
            then 0
            else if not (m.header (m.footer q) == q)
            then 0
            else q)
          next
      ∙ if_no 0 _ (reached h b n g lo (omega (arith, le)) hi t')
      ∙ if_no 0 b (matched h b n g lo (omega (arith, le)) hi t')

  pub get_previous-block : get_previous h b ≡ a
  unfolding get_previous
  get_previous-block =
      let m = h.memory in
      let (_, _, e₃, e₄) = t in
      let footer : b - 8 ≡ a + 25 + s = omega arith in
      let previous : m.header (b - 8) ≡ a = ap m.header footer ∙ e₄ in
      if_no _ _ (ap not (header_inside h b n g lo (omega (arith, le)) hi t'))
      ∙ if_no {b = ltb b (h.first_available_vaddr + 25 + 8)} 0 _ (ground (arith, le))
      ∙ if_no _ _ (
          ap (λ q. not (is_footer_in_heap h q)) (footer ∙ sym e₃)
          ∙ ap not (footer_inside h a s f lo le (omega (arith, hi)) t))
      ∙ ap
          (λ q.
            if not (is_block_header_in_heap h q)
            then 0
            else if leb b q
            then 0
            else if not (m.footer q == (b - 8))
            then 0
            else q)
          previous
      ∙ if_no 0 _ (ap not (header_inside h a s f lo le (omega (arith, hi)) t))
      ∙ if_no {b = leb b a} 0 _ (ground arith)
      ∙ if_no {b = not (m.footer a == (b - 8))} 0 a (ground (arith, e₃, footer))
