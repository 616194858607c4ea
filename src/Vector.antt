-- ===== src/Vector.antt =====
-- dokan-sys/src/dokany/dokan/dokan_vector.h and dokan_vector.c: the growable array of the user-mode
-- library. A block of memory is a list of cells of ItemSize bytes, `none` being a cell that was
-- never written. `malloc` tells whether a request for so many bytes is granted; asserts are those
-- of a release build.
pub mod Contents
pub mod Push
pub mod Access
mod Tests
use crv_virtual_disk.Prelude.{
  ℕ, zero, suc, ◌+◌, ◌-◌, ◌/◌, ◌&&◌, not, Bool, true, false, List, [], ◌∷◌, ◌++◌, Option, none,
  some, ltb, leb, ◌==◌, if◌then◌else◌, length, take, drop, replicate,
}
use crv_virtual_disk.Memory.{
  Outcome, ok, fault, ◌>>=◌, map_outcome, add_size, sub_size, mul_size, overwrite,
}

pub record Vector {ℓ} (A : Type ℓ) : Type ℓ where
  pub items : Option (List (Option A))
  pub item_count : ℕ
  pub item_size : ℕ
  pub max_items : ℕ
  pub is_stack_allocated : Bool

abbrev pub default_item_count : ℕ
default_item_count = 128

-- sizeof(DOKAN_VECTOR)
abbrev pub sizeof_vector : ℕ
sizeof_vector = 40

-- The capacity that `DokanVector_Grow` asks for.
unfoldable pub new_capacity : ℕ → ℕ → ℕ
new_capacity max_items minimum_increase =
    let doubled = mul_size max_items 2 in
    let floored = if ltb doubled default_item_count then default_item_count else doubled in
    if leb floored (add_size max_items minimum_increase)
    then add_size (add_size max_items minimum_increase) minimum_increase
    else floored

module _ {ℓ} {A : Type ℓ} where
  -- A fresh block of so many bytes.
  abbrev pub fresh_block : ℕ → ℕ → List (Option A)
  fresh_block item_size bytes = replicate (bytes / item_size) none

  abbrev pub block_cells : Option (List (Option A)) → List (Option A)
  block_cells none = []
  block_cells (some b) = b

  abbrev pub cells : Vector A → List (Option A)
  cells v = block_cells v.items

  abbrev pub empty_vector : Option (List (Option A)) → ℕ → ℕ → Vector A
  empty_vector items item_size max_items = record {
    items = items;
    item_count = 0;
    item_size = item_size;
    max_items = max_items;
    is_stack_allocated = false;
  }

  unfoldable pub alloc : (ℕ → Bool) → ℕ → Option (Vector A)
  alloc malloc item_size =
      if item_size == 0
      then none
      else if not (malloc sizeof_vector)
      then none
      else if not (malloc (mul_size item_size default_item_count))
      then none
      else some (
          empty_vector (some (fresh_block item_size (mul_size item_size default_item_count)))
            item_size default_item_count)

  unfoldable pub alloc_with_capacity : (ℕ → Bool) → ℕ → ℕ → Option (Vector A)
  alloc_with_capacity malloc item_size max_items =
      if item_size == 0
      then none
      else if not (malloc sizeof_vector)
      then none
      else if ltb 0 max_items
      then (if not (malloc (mul_size item_size max_items))
          then none
          else some (
              empty_vector (some (fresh_block item_size (mul_size item_size max_items))) item_size
                max_items))
      else some (empty_vector none item_size max_items)

  -- realloc keeps what fits in the new block.
  abbrev pub realloc_block : List (Option A) → ℕ → List (Option A)
  realloc_block old n = take n (old ++ replicate n none)

  abbrev pub enlarged : Vector A → ℕ → Vector A
  enlarged v new_size = record v {
    items = some (realloc_block (cells v) (mul_size new_size v.item_size / v.item_size));
    max_items = new_size;
  }

  -- The realloc call and what follows it.
  abbrev pub regrow : (ℕ → Bool) → Vector A → ℕ → Vector A × Bool
  regrow malloc v new_size =
      if malloc (mul_size new_size v.item_size) then (enlarged v new_size, true) else (v, false)

  abbrev pub first_block : (ℕ → Bool) → Vector A → Vector A × Bool
  first_block malloc v =
      if malloc (mul_size v.item_size default_item_count)
      then (
        record v {
          items = some (fresh_block v.item_size (mul_size v.item_size default_item_count));
          max_items = default_item_count;
        },
        true,
      )
      else (record v { items = none }, false)

  unfoldable pub grow : (ℕ → Bool) → Vector A → ℕ → Vector A × Bool
  unfolding new_capacity
  grow malloc v minimum_increase =
      if minimum_increase == 0 && v.max_items == 0
      then first_block malloc v
      else regrow malloc v (new_capacity v.max_items minimum_increase)

  -- The growth at the head of each push.
  unfoldable pub ensure_room : (ℕ → Bool) → Vector A → ℕ → Vector A × Bool
  ensure_room malloc v n =
      if leb v.max_items (add_size v.item_count n) then grow malloc v n else (v, true)

  abbrev pub with_items : Vector A → List (Option A) → ℕ → Vector A
  with_items v cs n = record v { items = some cs; item_count = add_size v.item_count n }

  -- memcpy_s to the cell at ItemCount.
  unfoldable pub copy_to_end : Vector A → List A → Outcome (Vector A × Bool)
  copy_to_end v xs =
      if leb (mul_size v.item_size (length xs))
        (mul_size (sub_size v.max_items v.item_count) v.item_size)
      then map_outcome (λ cs. (with_items v cs (length xs), true))
          (overwrite (cells v) v.item_count xs)
      else fault

  abbrev pub store_at_end : Vector A × Bool → List A → Outcome (Vector A × Bool)
  store_at_end (v, false) xs = ok (v, false)
  store_at_end (v, true) xs = copy_to_end v xs

  unfoldable pub push_back : (ℕ → Bool) → Vector A → A → Outcome (Vector A × Bool)
  unfolding ensure_room grow copy_to_end
  push_back malloc v a = store_at_end (ensure_room malloc v 1) (a ∷ [])

  unfoldable pub push_back_array : (ℕ → Bool) → Vector A → List A → Outcome (Vector A × Bool)
  unfolding ensure_room grow copy_to_end
  push_back_array malloc v xs =
      if length xs == 0 then ok (v, true) else store_at_end (ensure_room malloc v (length xs)) xs

  -- memmove_s of the first n cells by one cell; the first cell keeps its bytes.
  unfoldable pub shift_up : List (Option A) → ℕ → Outcome (List (Option A))
  shift_up cs n =
      if ltb n (length cs) then ok (take 1 cs ++ take n cs ++ drop (n + 1) cs) else fault

  unfoldable pub copy_to_front : Vector A → A → Outcome (Vector A × Bool)
  copy_to_front v a =
      if leb (mul_size v.item_count v.item_size) (mul_size (sub_size v.max_items 1) v.item_size)
        && leb v.item_size (mul_size (sub_size v.max_items v.item_count) v.item_size)
      then map_outcome (λ cs. (with_items v cs 1, true))
          (shift_up (cells v) v.item_count >>= λ moved. overwrite moved 0 (a ∷ []))
      else fault

  abbrev pub store_at_front : Vector A × Bool → A → Outcome (Vector A × Bool)
  store_at_front (v, false) a = ok (v, false)
  store_at_front (v, true) a = copy_to_front v a

  unfoldable pub push_front : (ℕ → Bool) → Vector A → A → Outcome (Vector A × Bool)
  unfolding ensure_room grow copy_to_front shift_up
  push_front malloc v a = store_at_front (ensure_room malloc v 1) a

  unfoldable pub pop_back : Vector A → Vector A
  pop_back v = if ltb 0 v.item_count then record v { item_count = v.item_count - 1 } else v

  unfoldable pub pop_back_array : Vector A → ℕ → Vector A
  pop_back_array v n =
      if ltb v.item_count n
      then record v { item_count = 0 }
      else record v { item_count = v.item_count - n }

  unfoldable pub clear : Vector A → Vector A
  clear v = record v { item_count = 0 }

  -- The contents of a cell; `none` too where the cell lies outside of the block.
  unfoldable pub read_cell : List (Option A) → ℕ → Option A
  read_cell [] i = none
  read_cell (c ∷ cs) zero = c
  read_cell (c ∷ cs) (suc i) = read_cell cs i

  -- `none` is a null pointer, `some c` a pointer to the cell c.
  unfoldable pub get_item : Vector A → ℕ → Option (Option A)
  unfolding read_cell
  get_item v i = if ltb i v.item_count then some (read_cell (cells v) i) else none

  unfoldable pub get_last_item : Vector A → Option (Option A)
  unfolding read_cell
  get_last_item v =
      if ltb 0 v.item_count then some (read_cell (cells v) (v.item_count - 1)) else none

  unfoldable pub get_count : Vector A → ℕ
  get_count v = v.item_count

  unfoldable pub get_capacity : Vector A → ℕ
  get_capacity v = v.max_items

  unfoldable pub get_item_size : Vector A → ℕ
  get_item_size v = v.item_size
