-- ===== src/Bitmap/Examples.antt =====
-- kernel/utils/bitmap.c at small bitmaps.
use hojicha.Bitmap.{
  Bitmap, init, get, set_bit, clear_bit, find_clear, refresh_bounds_after_set, find_clear_forward,
  find_clear_backward,
}
use hojicha.Bitmap.Clear.{clear_bit_lem, FindsLeast, find_clear-FindsLeast}
use hojicha.Bitmap.Init.{init-IsValid}
use hojicha.Bitmap.Laws.{IsValid, set_bit-IsValid, set_bit_lem}
use hojicha.Common.{ℕ, ◌≡◌, refl, true, false, not, ◌&&◌, ◌||◌, some, ltb, ◌==◌, arith}

abbrev twelve : Bitmap
twelve = init true 12 false

twelve-IsValid : IsValid twelve
twelve-IsValid = (init-IsValid 12 false (omega arith) (omega arith)).0

-- Bits 0, 1 and 9 set, then 1 cleared.
abbrev three : Bitmap
three = (set_bit (set_bit (set_bit twelve 9).0 0).0 1).0

three-IsValid : IsValid three
three-IsValid =
    set_bit-IsValid (set_bit (set_bit twelve 9).0 0).0 1
      (set_bit-IsValid (set_bit twelve 9).0 0 (set_bit-IsValid twelve 9 twelve-IsValid))

three_bits :
    (find_clear three ≡ some 2)
    × (get three 9 ≡ true)
    × (get three 8 ≡ false)
    × (find_clear (clear_bit three 1).0 ≡ some 1)
    × (three.highest_clear_idx ≡ 11)
unfolding init set_bit clear_bit get find_clear refresh_bounds_after_set find_clear_forward
    find_clear_backward
three_bits = (refl, refl, refl, refl, refl)

set_bit_lem_example :
    IsValid (set_bit three 11).0
    × ((set_bit three 11).1 ≡ ltb 11 three.bit_count)
    × ((set_bit three 11).0.bit_count ≡ three.bit_count)
    × ((j : ℕ) → get (set_bit three 11).0 j ≡ ((11 == j && ltb j three.bit_count) || get three j))
set_bit_lem_example = set_bit_lem three 11 three-IsValid

clear_bit_lem_example :
    IsValid (clear_bit three 9).0
    × ((clear_bit three 9).1 ≡ ltb 9 three.bit_count)
    × ((clear_bit three 9).0.bit_count ≡ three.bit_count)
    × ((j : ℕ) → get (clear_bit three 9).0 j ≡ (not (9 == j) && get three j))
clear_bit_lem_example = clear_bit_lem three 9 three-IsValid

find_clear-FindsLeast_example : FindsLeast three (find_clear three)
find_clear-FindsLeast_example = find_clear-FindsLeast three three-IsValid
