-- ===== src/Slab/Serve.antt =====
-- `slab_alloc` of kernel/memory/slab.c on a class with a free object.
use mathlib.Core.Path.{subst}
use mathlib.Core.Bool.{true≢false}
use mathlib.Core.Option.{some_inj, none-ne-some}
use hojicha.Bitmap.{get, set_bit, find_clear}
use hojicha.Bitmap.Clear.{FindsLeast, find_clear-FindsLeast}
use hojicha.Bitmap.Laws.{IsValid, set_bit_lem}
use hojicha.Slab.{
  Slabs, Slab, Memory, class_size, header_size, at, slab_class_for_size, first_free, chosen,
  from_slab, from_new, slab_grow, take_object, big_object, slab_alloc,
}
use hojicha.Slab.Release.{at_same}
use hojicha.Common.{
  ℕ, ◌≡◌, ◌≢◌, ◌<◌, ◌+◌, ◌-◌, ◌*◌, ◌%◌, ◌^◌, refl, true, false, ◌&&◌, ◌||◌, ltb, ◌==◌,
  if◌then◌else◌, if_ind, sym, ap, ◌∙◌, arith, Option, none, some, List, [], ◌∷◌,
}

-- Object `idx` of slab `a` was free and is handed out; it is the lowest that was.
pub record Serves (st : Slabs) (class_idx a idx : ℕ) (result : Slabs × Option ℕ) : Type 0 where
  pub before : Slab
  pub old : st.slab_at a ≡ before
  pub pointer : result.1 ≡ some (before.page + idx * class_size class_idx + header_size)
  pub inside : idx < before.bitmap.bit_count
  pub was_free : get before.bitmap idx ≡ false
  pub lowest : (j : ℕ) → j < idx → get before.bitmap j ≡ true
  pub valid : IsValid (result.0.slab_at a).bitmap
  pub bits :
      (j : ℕ)
      → get (result.0.slab_at a).bitmap j
        ≡ ((idx == j && ltb j before.bitmap.bit_count) || get before.bitmap j)
  pub count : (result.0.slab_at a).free_count ≡ (before.free_count + 2 ^ 64 - 1) % 2 ^ 64
  pub others : (b : ℕ) → b ≢ a → result.0.slab_at b ≡ st.slab_at b
  pub headers : result.0.header_at ≡ st.header_at

take_object-Serves :
    (st : Slabs) (class_idx a idx : ℕ)
    → IsValid (st.slab_at a).bitmap
    → FindsLeast (st.slab_at a).bitmap (some idx)
    → Serves st class_idx a idx (take_object st class_idx a idx)
unfolding take_object
take_object-Serves st class_idx a idx v (inside, was_free, lowest) =
    let s = st.slab_at a in
    let (valid, ok, len, bits) = set_bit_lem s.bitmap idx v in
    let s' : Slab = record s {
      bitmap = (set_bit s.bitmap idx).0;
      free_count = (s.free_count + 2 ^ 64 - 1) % 2 ^ 64;
    } in
    let same = at_same st.slab_at a s' in
    record {
      before = s;
      old = refl;
      pointer = refl;
      inside = inside;
      was_free = was_free;
      lowest = lowest;
      valid = subst (λ (r : Slab). IsValid r.bitmap) (sym same) valid;
      bits = λ j. ap (λ (r : Slab). get r.bitmap j) same ∙ bits j;
      count = ap (λ (r : Slab). r.free_count) same;
      others = λ b ne. at_other st.slab_at a b s' ne;
      headers = refl;
    }
  where
    at_other : (f : ℕ → Slab) (p q : ℕ) (v : Slab) → q ≢ p → at f p v q ≡ f q
    at_other f p q v ne =
        let other : (q == p) ≡ false = ground (arith, ne) in ap (λ b. if b then v else f q) other

first_free-some :
    (st : Slabs) (slabs : List ℕ) (a : ℕ)
    → first_free st slabs ≡ some a
    → ((st.slab_at a).free_count == 0) ≡ false
unfolding first_free
first_free-some st [] a e = absurd (none-ne-some a e)
first_free-some st (slab ∷ slabs) a e =
    if_ind (λ o. o ≡ some a → ((st.slab_at a).free_count == 0) ≡ false)
      ((st.slab_at slab).free_count == 0) _ _ (λ t. first_free-some st slabs a)
      (λ f e'. subst (λ x. ((st.slab_at x).free_count == 0) ≡ false) (some_inj.0 e') f) e

-- The run on the lowest free object of the first slab of the class that has one.
alloc_takes :
    (st : Slabs) (size class_idx a idx : ℕ) (big : Option ℕ) (memory again : Memory)
    → slab_class_for_size (if size == 0 then 1 else size) ≡ some class_idx
    → first_free st (st.classes class_idx) ≡ some a
    → find_clear (st.slab_at a).bitmap ≡ some idx
    → slab_alloc st size big memory again ≡ take_object st class_idx a idx
unfolding slab_alloc
alloc_takes st size class_idx a idx big memory again class first clear =
    ap
      (λ (o : Option ℕ). elim o as (λ _. Slabs × Option ℕ) [
        | none ↦ big_object st big
        | some c ↦ from_slab again c st (chosen st c memory (first_free st (st.classes c)))
      ])
      class
    ∙ ap (λ o. from_slab again class_idx st (chosen st class_idx memory o)) first
    ∙ ap (λ b. if b then (st, none) else found (find_clear (st.slab_at a).bitmap))
        (first_free-some st (st.classes class_idx) a first)
    ∙ ap found clear
  where
    found : Option ℕ → Slabs × Option ℕ
    found none = from_new class_idx st (slab_grow st class_idx again)
    found (some i) = take_object st class_idx a i

-- On a request whose class has a slab with objects left, `slab_alloc` hands out the lowest free object
-- of the first such slab: the pointer is the one after its header, the object was free and is now in
-- use, the count of free objects goes down by one, and all other objects, slabs and headers are as
-- before. The bitmap of the slab is valid and has a clear bit.
pub slab_alloc-Serves :
    (st : Slabs) (size class_idx a free : ℕ) (big : Option ℕ) (memory again : Memory)
    → slab_class_for_size (if size == 0 then 1 else size) ≡ some class_idx
    → first_free st (st.classes class_idx) ≡ some a
    → IsValid (st.slab_at a).bitmap
    → free < (st.slab_at a).bitmap.bit_count
    → get (st.slab_at a).bitmap free ≡ false
    → (idx : ℕ) × Serves st class_idx a idx (slab_alloc st size big memory again)
slab_alloc-Serves st size class_idx a free big memory again class first v inside clear =
    go (find_clear (st.slab_at a).bitmap) refl (find_clear-FindsLeast (st.slab_at a).bitmap v)
  where
    go :
        (o : Option ℕ)
        → find_clear (st.slab_at a).bitmap ≡ o
        → FindsLeast (st.slab_at a).bitmap o
        → (idx : ℕ) × Serves st class_idx a idx (slab_alloc st size big memory again)
    go none e all_set = absurd (true≢false (sym (all_set free inside) ∙ clear))
    go (some idx) e least = (
      idx,
      subst (Serves st class_idx a idx)
          (sym (alloc_takes st size class_idx a idx big memory again class first e))
          (take_object-Serves st class_idx a idx v least),
    )
