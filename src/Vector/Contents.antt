-- ===== src/Vector/Contents.antt =====
-- dokan-sys/src/dokany/dokan/dokan_vector.c: what a vector holds, as a list, and the growth of its
-- block.
use native.Mathlib.Nat.{mod-eq_of_lt, mul-div_cancel, mul-le-mul_left, mul_comm}
use crv_virtual_disk.Prelude.{
  ℕ, zero, suc, ◌+◌, ◌-◌, ◌*◌, ◌/◌, ◌^◌, ◌≤◌, ◌<◌, ◌≡◌, refl, ap, ◌∙◌, Bool, true, false, List, [],
  ◌∷◌, ◌++◌, map, Option, none, some, arith, leb, length, take, drop, replicate, get_elem?,
  length-append, length-replicate, length-map, inl, inr, append_assoc, Bool-cases,
}
use crv_virtual_disk.Memory.{ok, add_size, mul_size, overwrite}
use crv_virtual_disk.Vector.{
  Vector, cells, new_capacity, grow, regrow, enlarged, ensure_room, read_cell, realloc_block,
}

-- The vector owns `max_items` cells, of which the first ones hold `xs`.
pub record Holds {ℓ} {A : Type ℓ} (v : Vector A) (xs : List A) : Type ℓ where
  pub spare : List (Option A)
  pub filled : cells v ≡ map some xs ++ spare
  pub room : length xs + length spare ≡ v.max_items
  pub count : v.item_count ≡ length xs
  pub sized : 0 < v.item_size

-- No size computed by a push of one item wraps.
abbrev pub Fits {ℓ} : {A : Type ℓ} → Vector A → Type 0
Fits v = v.item_size * (2 * v.max_items + 128) < 2 ^ 64

pub new_capacity_one :
    (m : ℕ) → 2 * m + 128 < 2 ^ 64 → (m + 2 ≤ new_capacity m 1) × (new_capacity m 1 ≤ 2 * m + 128)
unfolding new_capacity
new_capacity_one m h = ground arith

module _ {ℓ} {A : Type ℓ} where
  pub overwrite-append :
      (xs : List A) (spare : List (Option A)) (ys : List A)
      → length ys ≤ length spare
      → overwrite (map some xs ++ spare) (length xs) ys
        ≡ ok (map some (xs ++ ys) ++ drop (length ys) spare)
  unfolding overwrite
  overwrite-append [] [] [] h = refl
  overwrite-append [] (c ∷ spare) [] h = refl
  overwrite-append [] [] (y ∷ ys) h = absurd (omega arith)
  overwrite-append [] (c ∷ spare) (y ∷ ys) h = rw (overwrite-append [] spare ys (omega arith))
  overwrite-append (x ∷ xs) spare ys h = rw (overwrite-append xs spare ys h)

  pub read_cell-append :
      (xs : List A) (spare : List (Option A)) (i : ℕ)
      → i < length xs
      → read_cell (map some xs ++ spare) i ≡ get_elem? xs i
  unfolding read_cell
  read_cell-append [] spare i h = elim h [ ]
  read_cell-append (x ∷ xs) spare zero h = refl
  read_cell-append (x ∷ xs) spare (suc i) h = read_cell-append xs spare i (omega arith)

  pub get_elem?-end : (xs : List A) (i : ℕ) → length xs ≤ i → get_elem? xs i ≡ none
  get_elem?-end [] i h = refl
  get_elem?-end (x ∷ xs) zero h = elim h [ ]
  get_elem?-end (x ∷ xs) (suc i) h = get_elem?-end xs i (omega arith)

  take-replicate : (c : A) (k m : ℕ) → k ≤ m → take k (replicate m c) ≡ replicate k c
  take-replicate c zero m h = refl
  take-replicate c (suc k) zero h = elim h [ ]
  take-replicate c (suc k) (suc m) h = ap (λ r. c ∷ r) (take-replicate c k m (omega arith))

  take-append-replicate :
      (old : List A) (c : A) (n k m : ℕ)
      → n ≡ length old + k
      → k ≤ m
      → take n (old ++ replicate m c) ≡ old ++ replicate k c
  take-append-replicate [] c n k m e h =
      let e' : n ≡ k = omega arith in rw e' (take-replicate c k m h)
  take-append-replicate (x ∷ old) c zero k m e h = absurd (omega arith)
  take-append-replicate (x ∷ old) c (suc n) k m e h =
      ap (λ r. x ∷ r) (take-append-replicate old c n k m (omega arith) h)

pub fits_factor : (s k : ℕ) → 0 < s → s * k < 2 ^ 64 → k < 2 ^ 64
fits_factor s k p h = grind arith

pub fits_le : (s n k : ℕ) → n ≤ k → s * k < 2 ^ 64 → n * s < 2 ^ 64
fits_le s n k p h = omega (arith, mul-le-mul_left s p, mul_comm n s)

-- `n * s` bytes make n cells of s bytes.
pub mul_size-div : (n s : ℕ) → 0 < s → n * s < 2 ^ 64 → mul_size n s / s ≡ n
mul_size-div n s p h = rw (mod-eq_of_lt h) (mul-div_cancel n p)

module _ {ℓ} {A : Type ℓ} where
  pub Holds-count-le : {v : Vector A} {xs : List A} → Holds v xs → v.item_count ≤ v.max_items
  Holds-count-le h = omega (arith, h.room, h.count)

  length-cells : (v : Vector A) (xs : List A) → Holds v xs → length (cells v) ≡ v.max_items
  length-cells v xs h = omega (
    arith,
    h.room,
    ap length h.filled,
    length-append (map some xs) h.spare,
    length-map xs (λ (a : A). some a),
  )

  regrow_filled :
      (v : Vector A) (xs : List A) (n : ℕ) (h : Holds v xs)
      → v.max_items ≤ n
      → n * v.item_size < 2 ^ 64
      → realloc_block (cells v) (mul_size n v.item_size / v.item_size)
        ≡ map some xs ++ (h.spare ++ replicate (n - v.max_items) none)
  regrow_filled v xs n h le small = rw (mul_size-div n v.item_size h.sized small) (
      take-append-replicate (cells v) none n (n - v.max_items) n
        (omega (arith, length-cells v xs h)) (omega arith)
      ∙ ap (λ c. c ++ replicate (n - v.max_items) none) h.filled
      ∙ append_assoc (map some xs) h.spare (replicate (n - v.max_items) none))

  -- A larger block keeps the items.
  enlarged-Holds :
      (v : Vector A) (xs : List A) (n : ℕ)
      → Holds v xs
      → v.max_items ≤ n
      → n * v.item_size < 2 ^ 64
      → Holds (enlarged v n) xs
  enlarged-Holds v xs n h le small = record {
    spare = h.spare ++ replicate (n - v.max_items) none;
    filled = regrow_filled v xs n h le small;
    room = omega (
      arith,
      h.room,
      length-append h.spare (replicate (n - v.max_items) none),
      length-replicate {A = Option A} (n - v.max_items) none,
    );
    count = h.count;
    sized = h.sized;
  }

  -- Before one more item is stored there is room for two, or the allocator has refused.
  pub data Roomy (malloc : ℕ → Bool) (v : Vector A) (xs : List A) : Vector A × Bool → Type ℓ where
    ready :
        {v' : Vector A}
        → Holds v' xs
        → v'.item_size ≡ v.item_size
        → length xs + 2 ≤ v'.max_items
        → v'.max_items ≤ 2 * v.max_items + 128
        → Roomy malloc v xs (v', true)
    refused :
        malloc (mul_size (new_capacity v.max_items 1) v.item_size) ≡ false
        → v.max_items ≤ length xs + 1
        → Roomy malloc v xs (v, false)

  Fits-capacity : (v : Vector A) → 0 < v.item_size → Fits v → 2 * v.max_items + 128 < 2 ^ 64
  Fits-capacity v p f = fits_factor v.item_size (2 * v.max_items + 128) p f

  regrow-Roomy :
      (malloc : ℕ → Bool) (v : Vector A) (xs : List A)
      → Holds v xs
      → Fits v
      → v.max_items ≤ length xs + 1
      → Roomy malloc v xs (regrow malloc v (new_capacity v.max_items 1))
  regrow-Roomy malloc v xs h f full =
      let (lower, upper) = new_capacity_one v.max_items (Fits-capacity v h.sized f) in
      elim (Bool-cases (malloc (mul_size (new_capacity v.max_items 1) v.item_size))) [
        | inl granted ↦
            rw (granted, regrow)
              (ready
                (enlarged-Holds v xs (new_capacity v.max_items 1) h (omega arith)
                  (fits_le v.item_size _ _ upper f))
                refl (omega (arith, h.room)) upper)
        | inr denied ↦ rw (denied, regrow) (refused denied full)
      ]

  pub ensure_room-Roomy :
      (malloc : ℕ → Bool) (v : Vector A) (xs : List A)
      → Holds v xs
      → Fits v
      → Roomy malloc v xs (ensure_room malloc v 1)
  unfolding ensure_room grow
  ensure_room-Roomy malloc v xs h f =
      let small = Fits-capacity v h.sized f in
      elim (Bool-cases (leb v.max_items (add_size v.item_count 1))) [
        | inl full ↦
            rw full (regrow-Roomy malloc v xs h f (ground (arith, h.count, h.room, full, small)))
        | inr roomy ↦
            rw roomy (ready h refl (ground (arith, h.count, h.room, roomy, small)) (omega arith))
      ]
