-- ===== src/Vector/Push.antt =====
-- What the pushes of dokan_vector.c do to the list that a vector holds.
use native.Mathlib.Nat.{mod-eq_of_lt, mul-le-mul_left, mul_comm}
use crv_virtual_disk.Prelude.{
  ℕ, zero, suc, ◌+◌, ◌-◌, ◌*◌, ◌^◌, ◌≤◌, ◌<◌, ◌≡◌, refl, ap, Bool, true, false, List, [], ◌∷◌, ◌++◌,
  map, Option, some, arith, leb, length, take, drop, length-append, length-drop, length-map, le→leb,
  lt→ltb,
}
use crv_virtual_disk.Memory.{Outcome, ok, ◌>>=◌, sub_size, mul_size, overwrite}
use crv_virtual_disk.Vector.{
  Vector, new_capacity, copy_to_end, store_at_end, push_back, push_front, shift_up, copy_to_front,
  store_at_front, with_items,
}
use crv_virtual_disk.Vector.Contents.{
  Holds, Fits, Roomy, ready, refused, ensure_room-Roomy, overwrite-append, fits_factor,
}

-- The copy's size in bytes is within what memcpy_s is told of the room.
copy_allowed :
    (s n count max : ℕ)
    → 0 < s
    → count + n ≤ max
    → s * max < 2 ^ 64
    → leb (mul_size s n) (mul_size (sub_size max count) s) ≡ true
copy_allowed s n count max p h f =
    let e : sub_size max count ≡ max - count = omega (arith, fits_factor s max p f) in
    rw e (
      le→leb _ _ (
        omega (
          arith,
          mul_comm (max - count) s,
          mul-le-mul_left s (let q : max - count ≤ max = omega arith in q),
          mul-le-mul_left s (let q : n ≤ max - count = omega arith in q),
          mod-eq_of_lt {n = s * n} {m = 2 ^ 64},
          mod-eq_of_lt {n = (max - count) * s} {m = 2 ^ 64},
        )))

one_item : (s m : ℕ) → 0 < s → 0 < m → s * m < 2 ^ 64 → mul_size s 1 ≡ s
one_item s m p q f = let le : s * 1 ≤ s * m = mul-le-mul_left s q in omega arith

module _ {ℓ} {A : Type ℓ} where
  copy_to_end_lem :
      (v : Vector A) (xs ys : List A) (h : Holds v xs)
      → length xs + length ys ≤ v.max_items
      → v.item_size * v.max_items < 2 ^ 64
      → copy_to_end v ys
        ≡ ok (with_items v (map some (xs ++ ys) ++ drop (length ys) h.spare) (length ys), true)
  unfolding copy_to_end
  copy_to_end_lem v xs ys h fits f = rw (
    copy_allowed v.item_size (length ys) v.item_count v.max_items h.sized (omega (arith, h.count))
        f,
    h.filled,
    h.count,
    overwrite-append xs h.spare ys (omega (arith, h.room)),
  )

  with_items-Holds :
      (v : Vector A) (xs ys : List A) (h : Holds v xs)
      → length xs + length ys ≤ v.max_items
      → v.item_size * v.max_items < 2 ^ 64
      → Holds
          (with_items v (map some (xs ++ ys) ++ drop (length ys) h.spare) (length ys))
          (xs ++ ys)
  with_items-Holds v xs ys h fits f = record {
    spare = drop (length ys) h.spare;
    filled = refl;
    room = omega (arith, h.room, length-append xs ys, length-drop (length ys) h.spare);
    count =
        omega (arith, h.count, length-append xs ys, fits_factor v.item_size v.max_items h.sized f);
    sized = h.sized;
  }

  -- The outcome of a push of one item onto a vector that holds `xs`: the vector holds `ys`, or it is
  -- as before, full and denied a larger block.
  pub data Pushed (malloc : ℕ → Bool) (v : Vector A) (xs ys : List A)
      : Outcome (Vector A × Bool) → Type ℓ where
    pushed : {v' : Vector A} → Holds v' ys → Pushed malloc v xs ys (ok (v', true))
    kept :
        malloc (mul_size (new_capacity v.max_items 1) v.item_size) ≡ false
        → v.max_items ≤ length xs + 1
        → Pushed malloc v xs ys (ok (v, false))

  store_at_end-Pushed :
      (malloc : ℕ → Bool) (v : Vector A) (xs : List A) (a : A) {r : Vector A × Bool}
      → Fits v
      → Roomy malloc v xs r
      → Pushed malloc v xs (xs ++ a ∷ []) (store_at_end r (a ∷ []))
  store_at_end-Pushed malloc v xs a f (ready {v'} h same room small) =
      let f' : v'.item_size * v'.max_items < 2 ^ 64 =
        rw same (omega (arith, mul-le-mul_left v.item_size small)) in
      rw (copy_to_end_lem v' xs (a ∷ []) h (omega arith) f')
        (pushed (with_items-Holds v' xs (a ∷ []) h (omega arith) f'))
  store_at_end-Pushed malloc v xs a f (refused denied full) = kept denied full

  -- A push at the end of a vector whose sizes do not wrap writes only inside of the block. The item
  -- goes behind the others, or the vector is unchanged, full, and the allocator refused to grow it.
  pub push_back-Pushed :
      (malloc : ℕ → Bool) (v : Vector A) (xs : List A) (a : A)
      → Holds v xs
      → Fits v
      → Pushed malloc v xs (xs ++ a ∷ []) (push_back malloc v a)
  unfolding push_back
  push_back-Pushed malloc v xs a h f =
      store_at_end-Pushed malloc v xs a f (ensure_room-Roomy malloc v xs h f)

  overwrite-nil : (cs : List (Option A)) → overwrite cs 0 [] ≡ ok cs
  unfolding overwrite
  overwrite-nil [] = refl
  overwrite-nil (c ∷ cs) = refl

  take-map-append :
      (xs : List A) (spare : List (Option A))
      → take (length xs) (map some xs ++ spare) ≡ map some xs
  take-map-append [] spare = refl
  take-map-append (x ∷ xs) spare = ap (λ r. some x ∷ r) (take-map-append xs spare)

  drop-map-append :
      (xs : List A) (spare : List (Option A)) (n : ℕ)
      → n ≡ length xs + 1
      → drop n (map some xs ++ spare) ≡ drop 1 spare
  drop-map-append [] spare n e = let e' : n ≡ 1 = omega arith in rw e'
  drop-map-append (x ∷ xs) spare zero e = absurd (omega arith)
  drop-map-append (x ∷ xs) spare (suc n) e = drop-map-append xs spare n (omega arith)

  -- memmove_s by one cell and the store in the first one, over a block with a cell to spare.
  moved_front :
      (a : A) (cs : List (Option A)) (n : ℕ)
      → n < length cs
      → (shift_up cs n >>= λ m. overwrite m 0 (a ∷ []))
        ≡ ok (some a ∷ (take n cs ++ drop (n + 1) cs))
  unfolding shift_up overwrite
  moved_front a [] n h = elim h [ ]
  moved_front a (c ∷ cs) n h =
      rw (lt→ltb n (suc (length cs)) h, overwrite-nil (take n (c ∷ cs) ++ drop (n + 1) (c ∷ cs)))

  copy_to_front_lem :
      (v : Vector A) (xs : List A) (a : A) (h : Holds v xs)
      → length xs + 1 ≤ v.max_items
      → v.item_size * v.max_items < 2 ^ 64
      → copy_to_front v a ≡ ok (with_items v (map some (a ∷ xs) ++ drop 1 h.spare) 1, true)
  unfolding copy_to_front
  copy_to_front_lem v xs a h fits f =
      let s = v.item_size in
      let m = v.max_items in
      let k = v.item_count in
      let room : length xs < length (map some xs ++ h.spare) =
        omega
          (arith, h.room, length-append (map some xs) h.spare, length-map xs (λ (x : A). some x)) in
      let moves : leb (mul_size k s) (mul_size (sub_size m 1) s) ≡ true =
        rw (mul_comm k s) (copy_allowed s k 1 m h.sized (omega (arith, h.count)) f) in
      let stores : leb s (mul_size (sub_size m k) s) ≡ true =
        rw (one_item s m h.sized (omega arith) f) at
          (copy_allowed s 1 k m h.sized (omega (arith, h.count)) f) in
      rw (
        moves,
        stores,
        h.filled,
        h.count,
        moved_front a (map some xs ++ h.spare) (length xs) room,
        take-map-append xs h.spare,
        drop-map-append xs h.spare (length xs + 1) refl,
      )

  store_at_front-Pushed :
      (malloc : ℕ → Bool) (v : Vector A) (xs : List A) (a : A) {r : Vector A × Bool}
      → Fits v
      → Roomy malloc v xs r
      → Pushed malloc v xs (a ∷ xs) (store_at_front r a)
  store_at_front-Pushed malloc v xs a f (ready {v'} h same room small) =
      let f' : v'.item_size * v'.max_items < 2 ^ 64 =
        rw same (omega (arith, mul-le-mul_left v.item_size small)) in
      rw (copy_to_front_lem v' xs a h (omega arith) f') (
        pushed (record {
          spare = drop 1 h.spare;
          filled = refl;
          room = omega (arith, h.room, length-drop 1 h.spare);
          count = omega (arith, h.count, fits_factor v'.item_size v'.max_items h.sized f');
          sized = h.sized;
        }))
  store_at_front-Pushed malloc v xs a f (refused denied full) = kept denied full

  -- A push at the front, likewise: the item goes before the others.
  pub push_front-Pushed :
      (malloc : ℕ → Bool) (v : Vector A) (xs : List A) (a : A)
      → Holds v xs
      → Fits v
      → Pushed malloc v xs (a ∷ xs) (push_front malloc v a)
  unfolding push_front
  push_front-Pushed malloc v xs a h f =
      store_at_front-Pushed malloc v xs a f (ensure_room-Roomy malloc v xs h f)
