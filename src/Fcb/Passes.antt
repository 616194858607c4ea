-- ===== src/Fcb/Passes.antt =====
-- dokan-sys/src/dokany/sys/util/fcb.c: a pass over the garbage list.
use crv_virtual_disk.Prelude.{
  update, remove, ℕ, ◌≡◌, refl, ap, ◌∙◌, inl, inr, Bool, true, false, not, ◌||◌, List, [], ◌∷◌,
  ◌++◌, arith, ◌==◌, Bool-cases, if◌then◌else◌, length,
}
use crv_virtual_disk.Fcb.State.{Fcb, Volume}

-- The numbers of a list that pass a test.
abbrev pub select : (ℕ → Bool) → List ℕ → List ℕ
select t [] = []
select t (x ∷ xs) = let rest = select t xs in if t x then x ∷ rest else rest

-- A number that a list does not have, and lists without duplicates.
abbrev pub Misses : ℕ → List ℕ → Type 0
Misses p [] = Unit
Misses p (q ∷ qs) = ((p == q) ≡ false) × Misses p qs

abbrev pub IsDistinct : List ℕ → Type 0
IsDistinct [] = Unit
IsDistinct (p ∷ ps) = Misses p ps × IsDistinct ps

pub select_outside :
    (t : Fcb → Bool) (f : ℕ → Fcb) (p : ℕ) (a : Fcb) (qs : List ℕ)
    → Misses p qs
    → select (λ x. t (update f p a x)) qs ≡ select (λ x. t (f x)) qs
select_outside t f p a [] m = refl
select_outside t f p a (q ∷ qs) m = simp (m.0, select_outside t f p a qs m.1) refl

-- What a pass deletes.
abbrev pub due : Bool → Fcb → Bool
due force f = force || f.garbage_collection_grace_period_passed

abbrev pub aged : Bool → {T : Type 0} → Volume T → List ℕ → List ℕ
aged force v ps = select (λ p. due force (v.fcbs p)) ps

abbrev pub young : Bool → {T : Type 0} → Volume T → List ℕ → List ℕ
young force v ps = select (λ p. not (due force (v.fcbs p))) ps

abbrev pub remove_all : List ℕ → List ℕ → List ℕ
remove_all [] qs = qs
remove_all (p ∷ ps) qs = remove_all ps (remove p qs)

-- FCBs whose grace period has passed.
abbrev pub AllPassed : (ℕ → Fcb) → List ℕ → Type 0
AllPassed f [] = Unit
AllPassed f (p ∷ ps) = ((f p).garbage_collection_grace_period_passed ≡ true) × AllPassed f ps

==_sym : (p q : ℕ) → (p == q) ≡ false → (q == p) ≡ false
==_sym p q h = ground arith

pub select-Misses : (t : ℕ → Bool) (p : ℕ) (qs : List ℕ) → Misses p qs → Misses p (select t qs)
select-Misses t p [] m = tt
select-Misses t p (q ∷ qs) m = elim (Bool-cases (t q)) [
  | inl h ↦ simp h (m.0, select-Misses t p qs m.1)
  | inr h ↦ simp h (select-Misses t p qs m.1)
]

remove_all_behind :
    (p : ℕ) (ps qs : List ℕ) → Misses p ps → remove_all ps (p ∷ qs) ≡ p ∷ remove_all ps qs
remove_all_behind p [] qs m = refl
remove_all_behind p (q ∷ ps) qs m = simp (==_sym p q m.0) (remove_all_behind p ps (remove q qs) m.1)

remove_first : (p : ℕ) (qs : List ℕ) → remove p (p ∷ qs) ≡ qs
remove_first p qs = simp (==_self p) refl
  where
    ==_self : (n : ℕ) → (n == n) ≡ true
    ==_self n = ground arith

-- The removal of what passes a test leaves what does not.
pub remove_all-select :
    (t : ℕ → Bool) (ps : List ℕ)
    → IsDistinct ps
    → remove_all (select t ps) ps ≡ select (λ p. not (t p)) ps
remove_all-select t [] d = refl
remove_all-select t (p ∷ ps) d = elim (Bool-cases (t p)) [
  | inl h ↦
      simp h
        (ap (λ qs. remove_all (select t ps) qs) (remove_first p ps) ∙ remove_all-select t ps d.1)
  | inr h ↦ simp h (
      remove_all_behind p (select t ps) ps (select-Misses t p ps d.0)
      ∙ ap (λ qs. p ∷ qs) (remove_all-select t ps d.1))
]

-- A pass over the entries `ps` has deleted those that are due, counted the others, and let their grace
-- period pass.
pub record Passed {T : Type 0} (force : Bool) (ps : List ℕ) (v : Volume T) (n : ℕ) (w : Volume T)
    : Type 0 where
  pub garbage : w.garbage ≡ remove_all (aged force v ps) v.garbage
  pub freed : w.freed ≡ v.freed ++ aged force v ps
  pub event : w.garbage_not_empty ≡ v.garbage_not_empty
  pub count : n ≡ length (young force v ps)
  pub marked : AllPassed w.fcbs (young force v ps)
  pub outside : (q : ℕ) → Misses q ps → w.fcbs q ≡ v.fcbs q
