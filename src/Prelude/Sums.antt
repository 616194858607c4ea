-- ===== src/Prelude/Sums.antt =====
-- Sums over lists of numbers; the sum of `same a` is the number of times that `a` is in the list.
use Prim.Native.Nat.{ℕ, ◌+◌, ◌*◌, ◌≤◌}
use mathlib.Core.Path.{◌≡◌, refl}
use mathlib.Core.Logic.{inl, inr}
use mathlib.Core.List.{List, [], ◌∷◌, ◌++◌}
use native.Mathlib.Omega.{arith}
use crv_virtual_disk.Prelude.Tests.{if◌then◌else◌, ◌==◌, Bool-cases}
use crv_virtual_disk.Prelude.Updates.{update, remove}

abbrev pub sum_in : (ℕ → ℕ) → List ℕ → ℕ
sum_in f [] = 0
sum_in f (x ∷ xs) = f x + sum_in f xs

abbrev pub same : ℕ → ℕ → ℕ
same a b = if a == b then 1 else 0

pub sum_in-append : (f : ℕ → ℕ) (xs ys : List ℕ) → sum_in f (xs ++ ys) ≡ sum_in f xs + sum_in f ys
sum_in-append f [] ys = omega arith
sum_in-append f (x ∷ xs) ys = omega (arith, sum_in-append f xs ys)

pub sum_in_mono : (f g : ℕ → ℕ) (xs : List ℕ) → ((x : ℕ) → f x ≤ g x) → sum_in f xs ≤ sum_in g xs
sum_in_mono f g [] h = omega arith
sum_in_mono f g (x ∷ xs) h = omega (arith, h x, sum_in_mono f g xs h)

pub sum_in-remove : (f : ℕ → ℕ) (a : ℕ) (xs : List ℕ) → sum_in f (remove a xs) ≤ sum_in f xs
sum_in-remove f a [] = omega arith
sum_in-remove f a (x ∷ xs) = elim (Bool-cases (a == x)) [
  | inl p ↦ simp p (omega arith)
  | inr p ↦ simp p (omega (arith, sum_in-remove f a xs))
]

-- A value that changes at `e` counts as often as `e` is in the list.
pub sum_in-update {ℓ} :
    {A : Type ℓ} (g : A → ℕ) (f : ℕ → A) (e : ℕ) (v : A) (m : ℕ) (xs : List ℕ)
    → g v ≤ m
    → sum_in (λ x. g (update f e v x)) xs ≤ sum_in (λ x. g (f x)) xs + m * sum_in (same e) xs
sum_in-update g f e v m [] h = omega arith
sum_in-update g f e v m (x ∷ xs) h = elim (Bool-cases (e == x)) [
  | inl p ↦ simp p (grind (arith, sum_in-update g f e v m xs h))
  | inr p ↦ simp p (grind (arith, sum_in-update g f e v m xs h))
]

-- A list without duplicates has no value twice.
pub sum_in-remove_one :
    (e : ℕ) (xs : List ℕ) → sum_in (same e) xs ≤ 1 → sum_in (same e) (remove e xs) ≡ 0
sum_in-remove_one e [] h = refl
sum_in-remove_one e (x ∷ xs) h = elim (Bool-cases (e == x)) [
  | inl p ↦ simp p (omega (arith, simp p at h))
  | inr p ↦ simp p (omega (arith, sum_in-remove_one e xs (omega (arith, simp p at h))))
]
