-- ===== src/Vector/Tests.antt =====
-- Runs of the functions of dokan_vector.c on small vectors.
use crv_virtual_disk.Prelude.{
  ℕ, ◌≡◌, refl, Bool, true, false, List, [], ◌∷◌, Option, none, some, arith, get_elem?,
}
use mathlib.Core.Option
use crv_virtual_disk.Vector.{
  Vector, alloc_with_capacity, push_back, push_front, get_item, get_last_item, pop_back, clear,
}
use crv_virtual_disk.Vector.Contents.{Holds}
use crv_virtual_disk.Vector.Push.{Pushed, push_back-Pushed, push_front-Pushed}
use crv_virtual_disk.Vector.Access.{
  alloc_with_capacity-Holds, get_item-get_elem?, pop_back-Holds, clear-Holds,
}

abbrev vector_of : List (Option ℕ) → ℕ → ℕ → Vector ℕ
vector_of cells count max = record {
  items = some cells;
  item_count = count;
  item_size = 8;
  max_items = max;
  is_stack_allocated = false;
}

abbrev granted : ℕ → Bool
granted n = true

abbrev empty_of_two : Vector ℕ
empty_of_two = vector_of (none ∷ none ∷ []) 0 2

abbrev two_items : Vector ℕ
two_items = vector_of (some 1 ∷ some 2 ∷ none ∷ none ∷ []) 2 4

two_items-Holds : Holds two_items (1 ∷ 2 ∷ [])
two_items-Holds = record {
  spare = none ∷ none ∷ [];
  filled = refl;
  room = refl;
  count = refl;
  sized = omega arith;
}

push_back-Pushed_example :
    Pushed granted two_items (1 ∷ 2 ∷ []) (1 ∷ 2 ∷ 3 ∷ []) (push_back granted two_items 3)
push_back-Pushed_example =
    push_back-Pushed granted two_items (1 ∷ 2 ∷ []) 3 two_items-Holds (omega arith)

push_front-Pushed_example :
    Pushed granted two_items (1 ∷ 2 ∷ []) (3 ∷ 1 ∷ 2 ∷ []) (push_front granted two_items 3)
push_front-Pushed_example =
    push_front-Pushed granted two_items (1 ∷ 2 ∷ []) 3 two_items-Holds (omega arith)

alloc_run : alloc_with_capacity granted 8 2 ≡ some empty_of_two
unfolding alloc_with_capacity
alloc_run = refl

alloc_with_capacity-Holds_example : Holds empty_of_two [] × (empty_of_two.max_items ≡ 2)
alloc_with_capacity-Holds_example =
    alloc_with_capacity-Holds granted 8 2 empty_of_two (omega arith) alloc_run

get_item-get_elem?_example : get_item two_items 1 ≡ Option.map some (get_elem? (1 ∷ 2 ∷ []) 1)
get_item-get_elem?_example = get_item-get_elem? two_items (1 ∷ 2 ∷ []) 1 two_items-Holds

pop_back-Holds_example :
    (get_last_item two_items ≡ some (some 2)) × Holds (pop_back two_items) (1 ∷ [])
pop_back-Holds_example = pop_back-Holds two_items (1 ∷ []) 2 two_items-Holds

clear-Holds_example : Holds (clear two_items) []
clear-Holds_example = clear-Holds two_items (1 ∷ 2 ∷ []) two_items-Holds
