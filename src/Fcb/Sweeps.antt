-- ===== src/Fcb/Sweeps.antt =====
-- dokan-sys/src/dokany/sys/util/fcb.c: what DeleteFcbGarbageAndGetRemainingCount deletes and keeps.
use crv_virtual_disk.Prelude.{
  ℕ, ◌+◌, ◌≡◌, refl, sym, ap, ◌∙◌, inl, inr, Bool, true, false, not, List, [], ◌∷◌, ◌++◌,
  append-nil, append_assoc, arith, ◌==◌, Bool-cases, update_self, if◌then◌else◌, length,
}
use crv_virtual_disk.Fcb.State.{TableOps, Volume}
use crv_virtual_disk.Fcb.Garbage.{
  garbage_collect_fcb, set_grace_period_passed, garbage_loop, clear_if_none, delete_fcb,
  delete_fcb_garbage_and_get_remaining_count,
}
use crv_virtual_disk.Fcb.Passes.{
  Misses, IsDistinct, AllPassed, due, aged, young, select_outside, remove_all-select, Passed,
}

module _ {T : Type 0} (ops : TableOps T) where
  Passed-delete :
      (force : Bool) (p : ℕ) (ps : List ℕ) (v : Volume T) (n : ℕ) (w : Volume T)
      → Misses p ps
      → due force (v.fcbs p) ≡ true
      → Passed force ps (garbage_collect_fcb ops p true v) n w
      → Passed force (p ∷ ps) v n w
  unfolding garbage_collect_fcb delete_fcb
  Passed-delete force p ps v n w m d h = record {
    garbage = h.garbage ∙ simp (d, same_aged) refl;
    freed = h.freed ∙ simp (d, same_aged) (append_assoc v.freed (p ∷ []) (aged force v ps));
    event = h.event;
    count = h.count ∙ simp (d, same_young) refl;
    marked = simp (d, sym same_young) h.marked;
    outside = λ q k. h.outside q k.1 ∙ simp (other q k.0) refl;
  }
    where
      same_aged : aged force (garbage_collect_fcb ops p true v) ps ≡ aged force v ps
      same_aged = select_outside (due force) v.fcbs p _ ps m

      same_young : young force (garbage_collect_fcb ops p true v) ps ≡ young force v ps
      same_young = select_outside (λ f. not (due force f)) v.fcbs p _ ps m

      other : (q : ℕ) → (q == p) ≡ false → (p == q) ≡ false
      other q k = ground arith

  Passed-keep :
      (force : Bool) (p : ℕ) (ps : List ℕ) (v : Volume T) (n : ℕ) (w : Volume T)
      → Misses p ps
      → due force (v.fcbs p) ≡ false
      → Passed force ps (set_grace_period_passed ops p v) n w
      → Passed force (p ∷ ps) v (n + 1) w
  Passed-keep force p ps v n w m d h = record {
    garbage = h.garbage ∙ simp (d, same_aged) refl;
    freed = h.freed ∙ simp (d, same_aged) refl;
    event = h.event;
    count = simp (d, sym same_young, sym h.count) (omega arith);
    marked = simp (d, sym same_young) (here, h.marked);
    outside = λ q k. h.outside q k.1 ∙ simp (other q k.0) refl;
  }
    where
      same_aged : aged force (set_grace_period_passed ops p v) ps ≡ aged force v ps
      same_aged = select_outside (due force) v.fcbs p _ ps m

      same_young : young force (set_grace_period_passed ops p v) ps ≡ young force v ps
      same_young = select_outside (λ f. not (due force f)) v.fcbs p _ ps m

      other : (q : ℕ) → (q == p) ≡ false → (p == q) ≡ false
      other q k = ground arith

      here : (w.fcbs p).garbage_collection_grace_period_passed ≡ true
      here =
          ap (λ f. f.garbage_collection_grace_period_passed)
            (h.outside p m ∙ update_self v.fcbs p _)

  garbage_loop-Passed :
      (force : Bool) (ps : List ℕ) (v : Volume T)
      → IsDistinct ps
      → Passed force ps v (garbage_loop ops force ps v).0 (garbage_loop ops force ps v).1
  unfolding garbage_loop
  garbage_loop-Passed force [] v d = record {
    garbage = refl;
    freed = sym (append-nil v.freed);
    event = refl;
    count = refl;
    marked = tt;
    outside = λ q k. refl;
  }
  garbage_loop-Passed force (p ∷ ps) v d = elim (Bool-cases (due force (v.fcbs p))) [
    | inl h ↦
        let w = garbage_collect_fcb ops p true v in
        simp h (
          Passed-delete force p ps v (garbage_loop ops force ps w).0 (garbage_loop ops force ps w).1
            d.0 h (garbage_loop-Passed force ps w d.1))
    | inr h ↦
        let w = set_grace_period_passed ops p v in
        simp h (
          Passed-keep force p ps v (garbage_loop ops force ps w).0 (garbage_loop ops force ps w).1
            d.0 h (garbage_loop-Passed force ps w d.1))
  ]

-- What a pass leaves.
pub record Swept {T : Type 0} (force : Bool) (v : Volume T) (n : ℕ) (w : Volume T) : Type 0 where
  pub garbage : w.garbage ≡ young force v v.garbage
  pub freed : w.freed ≡ v.freed ++ aged force v v.garbage
  pub count : n ≡ length (young force v v.garbage)
  pub marked : AllPassed w.fcbs (young force v v.garbage)
  pub garbage_not_empty :
      w.garbage_not_empty
      ≡ (if length (young force v v.garbage) == 0 then false else v.garbage_not_empty)

clear_if_none-fields :
    {T : Type 0} (ops : TableOps T) (n : ℕ) (v : Volume T)
    → ((clear_if_none ops (n, v)).1.garbage ≡ v.garbage)
      × ((clear_if_none ops (n, v)).1.freed ≡ v.freed)
      × ((clear_if_none ops (n, v)).1.fcbs ≡ v.fcbs)
      × ((clear_if_none ops (n, v)).1.garbage_not_empty
          ≡ (if n == 0 then false else v.garbage_not_empty))
clear_if_none-fields ops n v = elim (Bool-cases (n == 0)) [
  | inl p ↦ simp p (refl, refl, refl, refl)
  | inr p ↦ simp p (refl, refl, refl, refl)
]

-- A pass over a garbage list without duplicates deletes exactly the FCBs whose grace period has
-- passed, or all of them if it is forced, and frees them in the order of the list; the others
-- stay in the list, their grace period has passed for the next pass, and their number is
-- returned. The event that the list is not empty is cleared if there are none, and else left as
-- it was.
pub pass-Swept :
    {T : Type 0} (ops : TableOps T) (force : Bool) (v : Volume T)
    → IsDistinct v.garbage
    → Swept force v
        (delete_fcb_garbage_and_get_remaining_count ops force v).0
        (delete_fcb_garbage_and_get_remaining_count ops force v).1
unfolding delete_fcb_garbage_and_get_remaining_count
pass-Swept ops force v d =
    let (n, w) = garbage_loop ops force v.garbage v in
    let p = garbage_loop-Passed ops force v.garbage v d in
    let (g, f, m, e) = clear_if_none-fields ops n w in
    record {
      garbage = g ∙ p.garbage ∙ remove_all-select (λ q. due force (v.fcbs q)) v.garbage d;
      freed = f ∙ p.freed;
      count = p.count;
      marked = rw m p.marked;
      garbage_not_empty =
          e
          ∙ ap (λ k. if k == 0 then false else w.garbage_not_empty) p.count
          ∙ ap (λ b. if length (young force v v.garbage) == 0 then false else b) p.event;
    }
