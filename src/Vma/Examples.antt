-- ===== src/Vma/Examples.antt =====
-- kernel/memory/vma.c on a list of two areas.
use hojicha.Vma.{
  page_aligned, Vma, Vmas, range_valid, range_fits, insert, insert_walk, remove, remove_walk, cut,
  copy_from, copy_list, find_free_forward, forward_walk, first_candidate, find_free_backward,
  backward_walk, up_to, last_candidate, find_free_fixed, fixed_walk,
}
use hojicha.Vma.Areas.{WellFormed, meets}
use hojicha.Vma.Fixed.{find_free_fixed-exact}
use hojicha.Vma.Backward.{HighestFree, find_free_backward-HighestFree}
use hojicha.Vma.Insert.{InsertedIf, insert-InsertedIf}
use hojicha.Vma.Remove.{RemovedIf, remove-RemovedIf}
use hojicha.Vma.Search.{LowestFree, find_free_forward-LowestFree}
use hojicha.Common.{
  ◌&&◌, ◌+◌, ◌-◌, leb, not, if◌then◌else◌, ◌≡◌, refl, true, false, none, some, [], ◌∷◌, arith,
}

abbrev code : Vma
code = record { start = 0x1000; end = 0x3FFF; access = 5; flags = 0; offset = 0 }

abbrev stack : Vma
stack = record { start = 0x8000; end = 0x8FFF; access = 3; flags = 1; offset = 0 }

abbrev two : Vmas
two = code ∷ stack ∷ []

two-WellFormed : WellFormed two
two-WellFormed = omega arith

-- A hole in the middle of the first area, searches round it, and a refused overlap.
runs :
    (remove true two 0x2000 0x2FFF
      ≡ (record code { end = 0x1FFF } ∷ record code { start = 0x3000 } ∷ stack ∷ [], true))
    × (remove false two 0x2000 0x2FFF ≡ (two, false))
    × (find_free_forward two 0 0x1000 0xFFFF 0x4000 ≡ some 0x4000)
    × (find_free_forward two 0x4001 0x1000 0xFFFF 0x4000 ≡ some 0x9000)
    × (find_free_backward two 0 0x1000 0x8FFF 0x1000 ≡ some 0x7000)
    × (find_free_fixed two 0x3000 0x1000 0xFFFF 0x1000 ≡ none)
    × (insert true two 0x3000 0x4FFF 1 0 0 ≡ (two, false))
    × (copy_list (λ _. true) [] two ≡ (two, true))
unfolding remove remove_walk cut range_valid find_free_forward forward_walk first_candidate
    range_fits find_free_backward backward_walk up_to last_candidate find_free_fixed fixed_walk
    insert insert_walk copy_list copy_from
runs = (refl, refl, refl, refl, refl, refl, refl, refl)

insert-InsertedIf_example :
    InsertedIf two 0x4000 0x4FFF true
      (range_valid 0x4000 0x4FFF)
      (insert true two 0x4000 0x4FFF 1 0 0)
insert-InsertedIf_example =
    insert-InsertedIf true two 0x4000 0x4FFF 1 0 0 two-WellFormed (omega arith)

remove-RemovedIf_example :
    RemovedIf two 0x2000 0x2FFF (range_valid 0x2000 0x2FFF) (remove true two 0x2000 0x2FFF)
remove-RemovedIf_example = remove-RemovedIf two 0x2000 0x2FFF two-WellFormed (omega arith)

find_free_forward-LowestFree_example :
    LowestFree two 0x4001 0x1000 0xFFFF 0x4000 (find_free_forward two 0x4001 0x1000 0xFFFF 0x4000)
find_free_forward-LowestFree_example =
    find_free_forward-LowestFree two 0x4001 0x1000 0xFFFF 0x4000 two-WellFormed (omega arith)
      (omega arith) (omega arith) (omega arith) (omega arith) (omega arith) (omega arith)

find_free_backward-HighestFree_example :
    HighestFree two 0 0x1000 0x8FFF 0x1000 (find_free_backward two 0 0x1000 0x8FFF 0x1000)
find_free_backward-HighestFree_example =
    find_free_backward-HighestFree two 0 0x1000 0x8FFF 0x1000 two-WellFormed (omega arith)
      (omega arith) (omega arith) (omega arith) (omega arith) (omega arith) (omega arith)

find_free_fixed-exact_example : find_free_fixed two 0x4000 0x1000 0xFFFF 0x1000 ≡ (
    if page_aligned 0x4000
      && (page_aligned 0x1000
          && (leb 0x1000 0x4000
              && (leb (0x4000 + 0x1000 - 1) 0xFFFF
                  && not (meets two 0x4000 (0x4000 + 0x1000 - 1)))))
    then some 0x4000
    else none)
find_free_fixed-exact_example =
    find_free_fixed-exact two 0x4000 0x1000 0xFFFF 0x1000 two-WellFormed (omega arith) (omega arith)
      (omega arith) (omega arith)
