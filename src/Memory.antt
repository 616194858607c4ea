-- ===== src/Memory.antt =====
-- Memory faults and 64-bit sizes, shared by the models of the C code.
use crv_virtual_disk.Prelude.{ℕ, zero, suc, ◌+◌, ◌-◌, ◌*◌, ◌%◌, ◌^◌, List, [], ◌∷◌, Option, some}

-- `fault` is an access outside of the memory that the code owns.
pub data Outcome {ℓ} (A : Type ℓ) : Type ℓ where
  ok : A → Outcome A
  fault : Outcome A

infixl 5 ◌>>=◌
abbrev pub ◌>>=◌ {ℓ κ} : {A : Type ℓ} {B : Type κ} → Outcome A → (A → Outcome B) → Outcome B
ok a >>= f = f a
fault >>= f = fault

abbrev pub map_outcome {ℓ κ} : {A : Type ℓ} {B : Type κ} → (A → B) → Outcome A → Outcome B
map_outcome f (ok a) = ok (f a)
map_outcome f fault = fault

-- size_t and SIZE_T of a 64-bit build.
abbrev pub size_mod : ℕ
size_mod = 2 ^ 64

abbrev pub add_size : ℕ → ℕ → ℕ
add_size a b = (a + b) % size_mod

abbrev pub sub_size : ℕ → ℕ → ℕ
sub_size a b = (a + size_mod - b) % size_mod

abbrev pub mul_size : ℕ → ℕ → ℕ
mul_size a b = (a * b) % size_mod

module _ {ℓ} {A : Type ℓ} where
  -- Writes values over a block of cells, from a given cell on.
  unfoldable pub overwrite : List (Option A) → ℕ → List A → Outcome (List (Option A))
  overwrite [] zero [] = ok []
  overwrite [] zero (x ∷ xs) = fault
  overwrite [] (suc k) xs = fault
  overwrite (c ∷ cs) zero [] = ok (c ∷ cs)
  overwrite (c ∷ cs) zero (x ∷ xs) = map_outcome (λ r. some x ∷ r) (overwrite cs zero xs)
  overwrite (c ∷ cs) (suc k) xs = map_outcome (λ r. c ∷ r) (overwrite cs k xs)
