-- ===== src/Vector/Access.antt =====
-- Creation, reads and removals of dokan_vector.c, seen on the list that the vector holds.
use mathlib.Core.List.{map-append}
use mathlib.Core.Option
use native.Mathlib.Nat.{mul_comm}
use crv_virtual_disk.Prelude.{
  ℕ, zero, suc, ◌+◌, ◌-◌, ◌*◌, ◌/◌, ◌^◌, ◌<◌, ◌≡◌, refl, ap, ◌∙◌, Bool, true, List, [], ◌∷◌, ◌++◌,
  map, Option, none, some, arith, ltb, lt→ltb, length, replicate, get_elem?, length-append,
  length-replicate, inl, inr, append_assoc, Bool-cases, length-map, ltb→lt, ◌==◌, subst, false,
}
use crv_virtual_disk.Memory.{mul_size}
use crv_virtual_disk.Vector.{
  Vector, cells, alloc_with_capacity, read_cell, get_item, get_last_item, pop_back, clear,
  empty_vector, fresh_block, sizeof_vector,
}
use crv_virtual_disk.Vector.Contents.{Holds, read_cell-append, get_elem?-end, mul_size-div}

module _ {ℓ} {A : Type ℓ} where
  fresh-Holds :
      (s n : ℕ)
      → 0 < s
      → n * s < 2 ^ 64
      → Holds {A = A} (empty_vector (some (fresh_block s (mul_size s n))) s n) []
  fresh-Holds s n p f = record {
    spare = replicate n none;
    filled =
        let e : mul_size s n / s ≡ n = rw (mul_comm s n) (mul_size-div n s p f) in
        ap (λ k. replicate k none) e;
    room = omega (arith, length-replicate {A = Option A} n none);
    count = refl;
    sized = p;
  }

  abbrev IsFresh : ℕ → Option (Vector A) → Type ℓ
  IsFresh n none = Unit
  IsFresh n (some v) = Holds v [] × (v.max_items ≡ n)

  null-Holds : (s : ℕ) → 0 < s → Holds {A = A} (empty_vector none s 0) []
  null-Holds s p = record { spare = []; filled = refl; room = omega arith; count = refl; sized = p }

  alloc_with_capacity-IsFresh :
      (malloc : ℕ → Bool) (s n : ℕ) (r : Option (Vector A))
      → alloc_with_capacity malloc s n ≡ r
      → n * s < 2 ^ 64
      → IsFresh n r
  unfolding alloc_with_capacity
  alloc_with_capacity-IsFresh malloc zero n r e f = subst (IsFresh n) e tt
  alloc_with_capacity-IsFresh malloc (suc s) zero r e f =
      let sized : (suc s == 0) ≡ false = ground arith in
      let none_asked : ltb 0 0 ≡ false = ground arith in
      elim (Bool-cases (malloc sizeof_vector)) [
        | inl g ↦
            subst (IsFresh 0) e (rw (sized, none_asked, g) (null-Holds (suc s) (omega arith), refl))
        | inr g ↦ subst (IsFresh 0) e (rw (sized, g) tt)
      ]
  alloc_with_capacity-IsFresh malloc (suc s) (suc n) r e f =
      let sized : (suc s == 0) ≡ false = ground arith in
      let asked : ltb 0 (suc n) ≡ true = ground arith in
      elim (Bool-cases (malloc sizeof_vector)) [
        | inl g ↦ elim (Bool-cases (malloc (mul_size (suc s) (suc n)))) [
          | inl m ↦
              subst (IsFresh (suc n)) e
                (rw (sized, asked, g, m) (fresh-Holds (suc s) (suc n) (omega arith) f, refl))
          | inr m ↦ subst (IsFresh (suc n)) e (rw (sized, asked, g, m) tt)
        ]
        | inr g ↦ subst (IsFresh (suc n)) e (rw (sized, g) tt)
      ]

  -- A vector created with a capacity is empty and owns room for that many items.
  pub alloc_with_capacity-Holds :
      (malloc : ℕ → Bool) (s n : ℕ) (v : Vector A)
      → n * s < 2 ^ 64
      → alloc_with_capacity malloc s n ≡ some v
      → Holds v [] × (v.max_items ≡ n)
  unfolding alloc_with_capacity
  alloc_with_capacity-Holds malloc s n v f e = alloc_with_capacity-IsFresh malloc s n (some v) e f

  get_elem?-some : (xs : List A) (i : ℕ) → i < length xs → (a : A) × (get_elem? xs i ≡ some a)
  get_elem?-some [] i h = elim h [ ]
  get_elem?-some (x ∷ xs) zero h = (x, refl)
  get_elem?-some (x ∷ xs) (suc i) h = get_elem?-some xs i (omega arith)

  get_elem?-append_last :
      (xs : List A) (a : A) (i : ℕ) → i ≡ length xs → get_elem? (xs ++ a ∷ []) i ≡ some a
  get_elem?-append_last [] a zero e = refl
  get_elem?-append_last [] a (suc i) e = absurd (omega arith)
  get_elem?-append_last (x ∷ xs) a zero e = absurd (omega arith)
  get_elem?-append_last (x ∷ xs) a (suc i) e = get_elem?-append_last xs a i (omega arith)

  -- Inside of the count a read gives the item, and past it a null pointer.
  pub get_item-get_elem? :
      (v : Vector A) (xs : List A) (i : ℕ)
      → Holds v xs
      → get_item v i ≡ Option.map some (get_elem? xs i)
  unfolding get_item
  get_item-get_elem? v xs i h = elim (Bool-cases (ltb i (length xs))) [
    | inl inside ↦
        let (a, e) = get_elem?-some xs i (ltb→lt i _ inside) in
        rw (h.count, h.filled, inside, read_cell-append xs h.spare i (ltb→lt i _ inside), e)
    | inr outside ↦ rw (h.count, outside, get_elem?-end xs i (ground (arith, outside)))
  ]

  -- The last item is the one that `pop_back` removes, and removal undoes a push at the end.
  pub pop_back-Holds :
      (v : Vector A) (xs : List A) (a : A)
      → Holds v (xs ++ a ∷ [])
      → (get_last_item v ≡ some (some a)) × Holds (pop_back v) xs
  unfolding get_last_item pop_back
  pop_back-Holds v xs a h =
      let counted : v.item_count ≡ length xs + 1 =
        omega (arith, h.count, length-append xs (a ∷ [])) in
      let some_left : ltb 0 v.item_count ≡ true = lt→ltb _ _ (omega arith) in
      let last : read_cell (cells v) (v.item_count - 1) ≡ some a =
        rw
          (
            h.filled,
            counted,
            read_cell-append (xs ++ a ∷ []) h.spare (length xs + 1 - 1)
                (omega (arith, length-append xs (a ∷ []))),
          )
          (get_elem?-append_last xs a _ (omega arith)) in
      rw some_left (
        ap some last,
        record {
          spare = some a ∷ h.spare;
          filled =
              h.filled
              ∙ ap (λ c. c ++ h.spare) (map-append some xs (a ∷ []))
              ∙ append_assoc (map some xs) (some a ∷ []) h.spare;
          room = omega (arith, h.room, length-append xs (a ∷ []));
          count = omega (arith, counted);
          sized = h.sized;
        },
      )

  -- Clearing keeps the block and the capacity.
  pub clear-Holds : (v : Vector A) (xs : List A) → Holds v xs → Holds (clear v) []
  unfolding clear
  clear-Holds v xs h = record {
    spare = map some xs ++ h.spare;
    filled = h.filled;
    room =
        omega
          (arith, h.room, length-append (map some xs) h.spare, length-map xs (λ (x : A). some x));
    count = refl;
    sized = h.sized;
  }
