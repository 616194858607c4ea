-- ===== src/Fcb/Unused.antt =====
-- dokan-sys/src/dokany/sys/util/fcb.c: the FCBs of the garbage list, and what changes of the list and of
-- FCBs do to them.
use crv_virtual_disk.Prelude.{
  sum_in, same, sum_in-append, sum_in-remove, sum_in-remove_one, update, remove, update_cases, ℕ,
  zero, suc, ◌≤◌, ◌≡◌, ◌⊎◌, refl, sym, ap, ◌∙◌, inl, inr, Bool, true, false, List, [], ◌∷◌, ◌++◌,
  arith, ◌==◌, ==_iff, Bool-cases,
}
use crv_virtual_disk.Fcb.State.{fcb, Fcb, Volume}

-- An FCB that nobody has opened, and that is scheduled for deletion.
pub record Unused (f : Fcb) : Type 0 where
  pub identifier : f.identifier ≡ fcb
  pub open_count : f.open_count ≡ 0
  pub scheduled : f.scheduled ≡ true
  pub not_replaced : f.replaced_by_rename ≡ false

-- What holds of the FCBs, the garbage list and the flag that there is a collector.
pub record SoundOf (f : ℕ → Fcb) (g : List ℕ) (c : Bool) : Type 0 where
  pub unused : (p : ℕ) → 1 ≤ sum_in (same p) g → Unused (f p)
  pub distinct : (p : ℕ) → sum_in (same p) g ≤ 1
  pub off : c ≡ false → g ≡ []

abbrev pub Sound : {T : Type 0} → Volume T → Type 0
Sound v = SoundOf v.fcbs v.garbage v.collector_thread

zero_or : (n : ℕ) → (n ≡ 0) ⊎ (1 ≤ n)
zero_or zero = inl refl
zero_or (suc n) = inr (omega arith)

module _ {f : ℕ → Fcb} {g : List ℕ} {c : Bool} (h : SoundOf f g c) (p : ℕ) where
  pub not_scheduled : (f p).scheduled ≡ false → sum_in (same p) g ≡ 0
  not_scheduled n = elim (zero_or (sum_in (same p) g)) [
    | inl z ↦ z
    | inr l ↦ absurd (distinct_Bool (sym (h.unused p l).scheduled ∙ n))
  ]
    where
      distinct_Bool : true ≡ false → ⊥
      distinct_Bool q = cc

  pub replaced : (f p).replaced_by_rename ≡ true → sum_in (same p) g ≡ 0
  replaced n = elim (zero_or (sum_in (same p) g)) [
    | inl z ↦ z
    | inr l ↦ absurd (distinct_Bool (sym n ∙ (h.unused p l).not_replaced))
  ]
    where
      distinct_Bool : true ≡ false → ⊥
      distinct_Bool q = cc

  pub opened : 1 ≤ (f p).open_count → sum_in (same p) g ≡ 0
  opened n = elim (zero_or (sum_in (same p) g)) [
    | inl z ↦ z
    | inr l ↦ omega (arith, n, (h.unused p l).open_count)
  ]

  pub without_collector : c ≡ false → sum_in (same p) g ≡ 0
  without_collector n = rw (h.off n) refl

  -- An FCB changes.
  pub change-SoundOf : (a : Fcb) → (1 ≤ sum_in (same p) g → Unused a) → SoundOf (update f p a) g c
  change-SoundOf a k = record {
    unused = λ q l.
        update_cases (λ x. Unused x) f p a q
          (λ e. k (omega (arith, l, ap (λ x. sum_in (same x) g) e))) (λ e. h.unused q l);
    distinct = h.distinct;
    off = h.off;
  }

  -- An FCB changes that is not in the list.
  pub absent-SoundOf : (a : Fcb) → sum_in (same p) g ≡ 0 → SoundOf (update f p a) g c
  absent-SoundOf a z = change-SoundOf a (λ l. absurd (none_listed l))
    where
      none_listed : 1 ≤ sum_in (same p) g → ⊥
      none_listed l = omega (arith, l, z)

  -- An FCB leaves the list, and changes.
  pub remove-SoundOf : (a : Fcb) → SoundOf (update f p a) (remove p g) c
  remove-SoundOf a = record {
    unused = λ q l.
        update_cases (λ x. Unused x) f p a q
          (λ e. absurd (none_listed (omega (arith, l, ap (λ x. sum_in (same x) (remove p g)) e))))
          (λ e. h.unused q (omega (arith, l, sum_in-remove (same q) p g)));
    distinct = λ q. omega (arith, h.distinct q, sum_in-remove (same q) p g);
    off = λ e. ap (λ x. remove p x) (h.off e);
  }
    where
      none_listed : 1 ≤ sum_in (same p) (remove p g) → ⊥
      none_listed l = omega (arith, l, sum_in-remove_one p g (h.distinct p))

  -- An FCB is put into the list.
  pub append-SoundOf :
      (a : Fcb)
      → c ≡ true
      → sum_in (same p) g ≡ 0
      → Unused a
      → SoundOf (update f p a) (g ++ p ∷ []) c
  append-SoundOf a t z u = record {
    unused = λ q l.
        update_cases (λ x. Unused x) f p a q (λ e. u)
          (λ e. h.unused q (omega (arith, l, sum_in-append (same q) g (p ∷ []), other q e)));
    distinct = λ q. elim (Bool-cases (p == q)) [
      | inl e ↦ omega (
        arith,
        sum_in-append (same q) g (p ∷ []),
        ap (λ x. sum_in (same x) g) ((==_iff p q).0 e),
        z,
        same_le q p,
      )
      | inr e ↦ omega (arith, sum_in-append (same q) g (p ∷ []), h.distinct q, other q e)
    ];
    off = λ e. absurd (distinct_Bool (sym t ∙ e));
  }
    where
      other : (q : ℕ) → (p == q) ≡ false → same q p ≡ 0
      other q e = ground (arith, e)

      same_le : (x y : ℕ) → same x y ≤ 1
      same_le x y = ground arith

      distinct_Bool : true ≡ false → ⊥
      distinct_Bool q = cc
