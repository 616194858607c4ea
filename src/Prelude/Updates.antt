-- ===== src/Prelude/Updates.antt =====
-- Functions that are changed at one number, and lists of numbers.
use Prim.Native.Nat.{ℕ}
use mathlib.Core.Path.{◌≡◌, refl}
use mathlib.Core.Bool.{false}
use mathlib.Core.Logic.{inl, inr}
use mathlib.Core.List.{List, [], ◌∷◌}
use crv_virtual_disk.Prelude.Tests.{if◌then◌else◌, ◌==◌, ==_iff, Bool-cases}

abbrev pub update {ℓ} : {A : Type ℓ} → (ℕ → A) → ℕ → A → ℕ → A
update f a v b = if a == b then v else f b

-- The list without the first occurrence of a number; RemoveEntryList for lists of addresses.
abbrev pub remove : ℕ → List ℕ → List ℕ
remove a [] = []
remove a (x ∷ xs) = let rest = remove a xs in if a == x then xs else x ∷ rest

pub update_self {ℓ} : {A : Type ℓ} (f : ℕ → A) (a : ℕ) (v : A) → update f a v a ≡ v
update_self f a v = simp ((==_iff a a).1 refl) refl

pub update_cases {ℓ κ} :
    {A : Type ℓ} (P : A → Type κ) (f : ℕ → A) (a : ℕ) (v : A) (b : ℕ)
    → (a ≡ b → P v)
    → (((a == b) ≡ false) → P (f b))
    → P (update f a v b)
update_cases P f a v b h k = elim (Bool-cases (a == b)) [
  | inl p ↦ simp p (h ((==_iff a b).0 p))
  | inr p ↦ simp p (k p)
]
