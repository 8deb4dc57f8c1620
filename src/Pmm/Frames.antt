-- ===== src/Pmm/Frames.antt =====
-- The frames that kernel/memory/pmm.c hands out and takes back.
use hojicha.Pmm.{Pmm, page_size, mark_page, clear_page}
use hojicha.Bitmap
use hojicha.Bitmap.{Bitmap}
use hojicha.Bitmap.Clear.{clear_bit-IsValid, get-clear_bit}
use hojicha.Bitmap.Laws.{get_beyond, set_bit-IsValid, get-set_bit}
use hojicha.Bitmap.Laws
use hojicha.Common.{
  ℕ, zero, suc, ◌+◌, ◌*◌, ◌^◌, ◌≤◌, ◌<◌, ◌≡◌, ◌≢◌, refl, inl, inr, Bool, true, false, not, ◌&&◌,
  ◌||◌, leb, ◌==◌, if◌then◌else◌, arith, Bool-cases, ◌∙◌,
}

-- A page is free if its bit is clear.
abbrev pub allocated : Pmm → ℕ → Bool
allocated pmm page = Bitmap.get pmm.bitmap page

-- How many of the first `n` bits are clear.
pub clear_count : (ℕ → Bool) → ℕ → ℕ
clear_count bits zero = 0
clear_count bits (suc n) = clear_count bits n + (if bits n then 0 else 1)

-- The bitmap is valid and covers all pages, the free pages are counted, and addresses fit 64 bits.
pub record IsValid (pmm : Pmm) : Type 0 where
  pub bitmap : Laws.IsValid pmm.bitmap
  pub covers : pmm.bitmap.bit_count ≡ pmm.total_pages
  pub counted : pmm.free_pages ≡ clear_count (allocated pmm) pmm.total_pages
  pub small : pmm.total_pages * page_size ≤ 2 ^ 64

pub clear_count-ext :
    (f g : ℕ → Bool) (n : ℕ) → ((i : ℕ) → i < n → f i ≡ g i) → clear_count f n ≡ clear_count g n
unfolding clear_count
clear_count-ext f g zero h = refl
clear_count-ext f g (suc n) h =
    ground (arith, h n, clear_count-ext f g n (λ i p. h i (omega arith)))

pub clear_count_full : (f : ℕ → Bool) (n : ℕ) → ((i : ℕ) → i < n → f i ≡ true) → clear_count f n ≡ 0
unfolding clear_count
clear_count_full f zero h = refl
clear_count_full f (suc n) h = ground (arith, h n, clear_count_full f n (λ i p. h i (omega arith)))

-- Flipping one bit changes the count by one.
clear_count_flip :
    (f g : ℕ → Bool) (n k : ℕ)
    → k < n
    → f k ≡ false
    → g k ≡ true
    → ((i : ℕ) → i ≢ k → f i ≡ g i)
    → clear_count f n ≡ clear_count g n + 1
unfolding clear_count
clear_count_flip f g zero k h a b same = elim h [ ]
clear_count_flip f g (suc n) k h a b same = elim (Bool-cases (n == k)) [
  | inl e ↦ ground (arith, a, b, e, clear_count-ext f g n (λ i p. same i (ground (arith, e))))
  | inr ne ↦ ground (arith, same n, clear_count_flip f g n k (ground arith) a b same)
]

clear_count-bound : (f : ℕ → Bool) (n : ℕ) → clear_count f n ≤ n
unfolding clear_count
clear_count-bound f zero = omega arith
clear_count-bound f (suc n) = ground (arith, clear_count-bound f n)

clear_count-clear_bit :
    (bm : Bitmap) (page n : ℕ)
    → Laws.IsValid bm
    → page < n
    → Bitmap.get bm page ≡ true
    → clear_count (Bitmap.get (Bitmap.clear_bit bm page).0) n ≡ clear_count (Bitmap.get bm) n + 1
clear_count-clear_bit bm page n v h t =
    let (_, _, bits) = get-clear_bit bm page v in
    clear_count_flip (Bitmap.get (Bitmap.clear_bit bm page).0) (Bitmap.get bm) n page h
      (ground (arith, bits page)) t (λ i ne. ground (arith, bits i))

clear_count-set_bit :
    (bm : Bitmap) (page n : ℕ)
    → Laws.IsValid bm
    → page < n
    → page < bm.bit_count
    → Bitmap.get bm page ≡ false
    → clear_count (Bitmap.get bm) n ≡ clear_count (Bitmap.get (Bitmap.set_bit bm page).0) n + 1
clear_count-set_bit bm page n v h w f =
    let (_, _, bits) = get-set_bit bm page v in
    clear_count_flip (Bitmap.get bm) (Bitmap.get (Bitmap.set_bit bm page).0) n page h f
      (ground (arith, bits page)) (λ i ne. ground (arith, bits i))

-- `clear_page` keeps a valid allocator valid and makes exactly that page free; on a free page or
-- one out of range it changes no page.
pub clear_page_lem :
    (pmm : Pmm) (page : ℕ)
    → IsValid pmm
    → IsValid (clear_page pmm page)
      × ((p : ℕ) → allocated (clear_page pmm page) p ≡ (not (page == p) && allocated pmm p))
      × ((clear_page pmm page).total_pages ≡ pmm.total_pages)
unfolding clear_page
clear_page_lem pmm page v =
    let (ok, n, bits) = get-clear_bit pmm.bitmap page v.bitmap in
    elim (Bool-cases (leb pmm.total_pages page || not (allocated pmm page))) [
      | inl skip ↦
          rw skip (v, λ p. ground (arith, skip, get_beyond pmm.bitmap v.bitmap p, v.covers), refl)
      | inr go ↦
          let lt : page < pmm.total_pages = ground (arith, go) in
          let count =
            clear_count-clear_bit pmm.bitmap page pmm.total_pages v.bitmap lt
              (ground (arith, go)) in
          let bound =
            clear_count-bound (Bitmap.get (Bitmap.clear_bit pmm.bitmap page).0) pmm.total_pages in
          rw go (
            record {
              bitmap = clear_bit-IsValid pmm.bitmap page v.bitmap;
              covers = n ∙ v.covers;
              counted = omega (arith, count, bound, v.counted, v.small);
              small = v.small;
            },
            bits,
            refl,
          )
    ]

-- `mark_page` of a free page in range.
pub mark_page_lem :
    (pmm : Pmm) (page : ℕ)
    → IsValid pmm
    → page < pmm.total_pages
    → allocated pmm page ≡ false
    → IsValid (mark_page pmm page)
      × ((p : ℕ) → allocated (mark_page pmm page) p ≡ (page == p || allocated pmm p))
      × ((mark_page pmm page).total_pages ≡ pmm.total_pages)
      × (pmm.free_pages ≡ (mark_page pmm page).free_pages + 1)
unfolding mark_page
mark_page_lem pmm page v lt free =
    let (ok, n, bits) = get-set_bit pmm.bitmap page v.bitmap in
    let go : (leb pmm.total_pages page || allocated pmm page) ≡ false = ground (arith, free) in
    let count =
      clear_count-set_bit pmm.bitmap page pmm.total_pages v.bitmap lt (omega (arith, v.covers))
        free in
    rw go (
      record {
        bitmap = set_bit-IsValid pmm.bitmap page v.bitmap;
        covers = n ∙ v.covers;
        counted = ground (arith, count, v.counted);
        small = v.small;
      },
      λ p. ground (arith, bits p, v.covers),
      refl,
      ground (arith, count, v.counted),
    )
