-- ===== src/Slab/Release.antt =====
-- `slab_free` of kernel/memory/slab.c: releasing an object twice.
use mathlib.Core.Path.{subst}
use mathlib.Core.Bool.{true≢false}
use hojicha.Bitmap.{get, clear_bit}
use hojicha.Bitmap.Clear.{get-clear_bit}
use hojicha.Bitmap.Laws.{IsValid}
use hojicha.Slab.{
  Slabs, Slab, Header, slab_magic, slab_big_class, slab_class_count, class_size, header_of, at,
  forget, release, slab_free,
}
use hojicha.Common.{
  ℕ, ◌≡◌, ◌+◌, ◌-◌, ◌/◌, ◌%◌, ◌^◌, refl, Bool, true, false, not, ◌||◌, ltb, leb, ◌==◌,
  if◌then◌else◌, if_ind, sym, ap, ◌∙◌, arith, ==_refl,
}

pub at_same {ℓ} : {A : Type ℓ} (f : ℕ → A) (p : ℕ) (v : A) → at f p v p ≡ v
at_same f p v = ap (λ b. if b then v else f p) (==_refl p)

module _ (st : Slabs) (ptr : ℕ) where
  abbrev header : Header
  header = st.header_at (header_of ptr)

  abbrev slab : Slab
  slab = st.slab_at header.slab

  abbrev object_idx : ℕ
  object_idx = (header_of ptr - slab.page) / class_size header.class_idx

  forgotten_again : slab_free (forget st (header_of ptr)) ptr ≡ forget st (header_of ptr)
  unfolding slab_free
  forgotten_again =
      let st' = forget st (header_of ptr) in
      if_ind (λ r. r ≡ st') (ptr == 0) st' _ (λ t. refl)
        (λ f.
          if_ind (λ r. r ≡ st') (not ((st'.header_at (header_of ptr)).magic == slab_magic)) st' _
            (λ t. refl) (λ f'. absurd (wrong f')))
    where
      wrong :
          not (((forget st (header_of ptr)).header_at (header_of ptr)).magic == slab_magic) ≡ false
          → ⊥
      wrong f' = true≢false (
          subst (λ (h : Header). not (h.magic == slab_magic) ≡ false)
            (at_same st.header_at (header_of ptr) (record header { magic = 0 })) f')

  -- The last test of `slab_free`: the object does not exist or is free.
  abbrev is_free : Slab → Bool
  is_free s =
      let idx = (header_of ptr - s.page) / class_size header.class_idx in
      leb s.object_count idx || not (get s.bitmap idx)

  -- What is no object in use is ignored.
  stays : (header.class_idx == slab_big_class) ≡ false → is_free slab ≡ true → slab_free st ptr ≡ st
  unfolding slab_free
  stays small free =
      let P : Slabs → Type 0 = λ r. r ≡ st in
      if_ind P (ptr == 0) st _ (λ t. refl)
        (λ f.
          if_ind P (not (header.magic == slab_magic)) st _ (λ t. refl)
            (λ f.
              if_ind P (header.class_idx == slab_big_class) _ _
                (λ t. absurd (true≢false (sym t ∙ small)))
                (λ f.
                  if_ind P (leb slab_class_count header.class_idx || header.slab == 0) st _
                    (λ t. refl)
                    (λ f.
                      if_ind P (ltb (header_of ptr) slab.page) st _ (λ t. refl)
                        (λ f.
                          if_ind P
                            (not ((header_of ptr - slab.page) % class_size header.class_idx == 0))
                            st _ (λ t. refl)
                            (λ f.
                              if_ind P (is_free slab) st _ (λ t. refl)
                                (λ f. absurd (true≢false (sym free ∙ f)))))))))

  -- What `slab_free` can make of the memory.
  slab_free-cases :
      (P : Slabs → Type 0)
      → P st
      → P (forget st (header_of ptr))
      → ((header.class_idx == slab_big_class) ≡ false → P (release st header.slab object_idx))
      → P (slab_free st ptr)
  unfolding slab_free
  slab_free-cases P unchanged forgotten released =
      if_ind P (ptr == 0) st _ (λ t. unchanged)
        (λ f.
          if_ind P (not (header.magic == slab_magic)) st _ (λ t. unchanged)
            (λ f.
              if_ind P (header.class_idx == slab_big_class) (forget st (header_of ptr)) _
                (λ t. forgotten)
                (λ small.
                  if_ind P (leb slab_class_count header.class_idx || header.slab == 0) st _
                    (λ t. unchanged)
                    (λ f.
                      if_ind P (ltb (header_of ptr) slab.page) st _ (λ t. unchanged)
                        (λ f.
                          if_ind P
                            (not ((header_of ptr - slab.page) % class_size header.class_idx == 0))
                            st _ (λ t. unchanged)
                            (λ f.
                              if_ind P (is_free slab) st _ (λ t. unchanged)
                                (λ f. released small)))))))

module _ (st : Slabs) (ptr : ℕ) where
  freed : (s : Slab) (i : ℕ) → IsValid s.bitmap → not (get (clear_bit s.bitmap i).0 i) ≡ true
  freed s i v =
      let (_, _, bits) = get-clear_bit s.bitmap i v in
      let same = ==_refl i in let now_clear = bits i in ground (arith, same, now_clear)

  or_true : (a b : Bool) → b ≡ true → (a || b) ≡ true
  or_true a b e = ground (arith, e)

  released_again :
      IsValid (slab st ptr).bitmap
      → ((header st ptr).class_idx == slab_big_class) ≡ false
      → slab_free (release st (header st ptr).slab (object_idx st ptr)) ptr
        ≡ release st (header st ptr).slab (object_idx st ptr)
  released_again v small =
      let i = object_idx st ptr in
      let s = slab st ptr in
      let s' : Slab = record s {
        bitmap = (clear_bit s.bitmap i).0;
        free_count = (s.free_count + 1) % 2 ^ 64;
      } in
      stays (release st (header st ptr).slab i) ptr small (
        subst (λ r. is_free st ptr r ≡ true) (sym (at_same st.slab_at (header st ptr).slab s'))
          (or_true (leb s.object_count i) _ (freed s i v)))

-- A second release of the same address changes nothing: whatever the address is, an object in use, a
-- free one, one that was allocated on its own or no object at all. The bitmap of the slab that the
-- header names is valid.
pub slab_free-slab_free :
    (st : Slabs) (ptr : ℕ)
    → IsValid (st.slab_at (st.header_at (header_of ptr)).slab).bitmap
    → slab_free (slab_free st ptr) ptr ≡ slab_free st ptr
slab_free-slab_free st ptr v =
    slab_free-cases st ptr (λ r. slab_free st ptr ≡ r → slab_free r ptr ≡ r) (λ e. e)
      (λ e. forgotten_again st ptr) (λ small e. released_again st ptr v small) refl
