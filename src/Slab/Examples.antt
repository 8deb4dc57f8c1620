-- ===== src/Slab/Examples.antt =====
-- kernel/memory/slab.c with one slab of objects of 1024 bytes.
use hojicha.Bitmap
use hojicha.Bitmap.{get, set_bit, clear_bit, find_clear}
use hojicha.Bitmap.Init.{init-IsValid}
use hojicha.Bitmap.Laws.{IsValid}
use hojicha.Slab.{
  Slabs, Slab, Memory, slab_magic, slab_class_for_size, slab_pages_for_class, slab_align_up, stamp,
  first_free, slab_grow, take_object, slab_alloc, slab_free,
}
use hojicha.Slab.Release.{slab_free-slab_free}
use hojicha.Slab.Serve.{Serves, slab_alloc-Serves}
use hojicha.Common.{ℕ, ◌≡◌, ◌<◌, refl, true, false, none, some, ◌==◌, if◌then◌else◌, [], ◌∷◌, arith}

-- Four objects, all free.
abbrev fresh : Slab
fresh = record {
  raw_page = 8192;
  page = 8192;
  bitmap = Bitmap.init true 4 false;
  object_count = 4;
  free_count = 4;
}

abbrev one_slab : Slabs
one_slab = record {
  header_at = λ p. record { magic = slab_magic; class_idx = 5; slab = 100 };
  slab_at = λ a. fresh;
  classes = λ c. if c == 5 then 100 ∷ [] else [];
}

abbrev no_memory : Memory
no_memory = record { slab = none; bitmap_storage = false; raw_page = none }

abbrev some_memory : Memory
some_memory = record { slab = some 300; bitmap_storage = true; raw_page = some 12289 }

fresh-IsValid : IsValid fresh.bitmap
fresh-IsValid = (init-IsValid 4 false (omega arith) (omega arith)).0

three_inside : 3 < fresh.bitmap.bit_count
unfolding Bitmap.init
three_inside = omega arith

-- The size that fits, one that needs a new slab, and one that has no class.
pointers :
    ((slab_alloc one_slab 1000 none no_memory no_memory).1 ≡ some 8216)
    × ((slab_alloc one_slab 1001 none no_memory no_memory).1 ≡ none)
    × ((slab_alloc one_slab 1001 none some_memory no_memory).1 ≡ some 12320)
    × ((slab_alloc one_slab 20000 (some 4096) no_memory no_memory).1 ≡ some 4120)
unfolding slab_alloc slab_class_for_size slab_pages_for_class slab_align_up stamp first_free
    slab_grow take_object find_clear set_bit Bitmap.init Bitmap.storage_size
    Bitmap.find_clear_forward Bitmap.refresh_bounds_after_set
pointers = (refl, refl, refl, refl)

slab_alloc-Serves_example :
    (idx : ℕ) × Serves one_slab 5 100 idx (slab_alloc one_slab 1000 none no_memory no_memory)
unfolding slab_class_for_size first_free
slab_alloc-Serves_example =
    slab_alloc-Serves one_slab 1000 5 100 3 none no_memory no_memory refl refl fresh-IsValid
      three_inside ((init-IsValid 4 false (omega arith) (omega arith)).1 3 (omega arith))

slab_free-slab_free_example : slab_free (slab_free one_slab 8216) 8216 ≡ slab_free one_slab 8216
slab_free-slab_free_example = slab_free-slab_free one_slab 8216 fresh-IsValid
