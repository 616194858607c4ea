-- ===== src/Fcb/Collections.antt =====
-- dokan-sys/src/dokany/sys/util/fcb.c: passes, the end of an FCB's use, and the invariant of the
-- garbage list.
use crv_virtual_disk.Prelude.{
  if_true, if_false, sum_in, same, sum_in-remove, update, ℕ, ◌≤◌, ◌≡◌, ◌⊎◌, refl, ap, ◌∙◌, inl, inr,
  Bool, true, false, not, List, [], ◌∷◌, ◌++◌, arith, ◌==◌, Bool-cases, if◌then◌else◌,
}
use crv_virtual_disk.Fcb.State.{Identifier, fcb, freed_fcb, other, TableOps, Volume}
use crv_virtual_disk.Fcb.Garbage.{
  garbage_collect_fcb, delete_fcb, schedule_fcb_for_garbage_collection, set_grace_period_passed,
  garbage_loop, delete_fcb_garbage_and_get_remaining_count,
}
use crv_virtual_disk.Fcb.Free.{is_fcb, unless_scheduled}
use crv_virtual_disk.Fcb.Passes.{due}
use crv_virtual_disk.Fcb.Unused.{
  Sound, not_scheduled, replaced, without_collector, change-SoundOf, absent-SoundOf, remove-SoundOf,
  append-SoundOf,
}

module _ {T : Type 0} (ops : TableOps T) where
  pub garbage_collect_fcb-Sound :
      (p : ℕ) (from_table : Bool) (v : Volume T)
      → Sound v
      → Sound (garbage_collect_fcb ops p from_table v)
  unfolding garbage_collect_fcb delete_fcb
  garbage_collect_fcb-Sound p from_table v h = remove-SoundOf h p _

  set_grace_period_passed-Sound :
      (p : ℕ) (v : Volume T) → Sound v → Sound (set_grace_period_passed ops p v)
  set_grace_period_passed-Sound p v h = change-SoundOf h p _ (λ l.
      let u = h.unused p l in
      record {
        identifier = u.identifier;
        open_count = u.open_count;
        scheduled = u.scheduled;
        not_replaced = u.not_replaced;
      })

  -- The volume is sound, and its garbage list has nothing new.
  pub record Shrunk (v w : Volume T) : Type 0 where
    pub sound : Sound w
    pub fewer : (p : ℕ) → sum_in (same p) w.garbage ≤ sum_in (same p) v.garbage

  garbage_loop-Shrunk :
      (force : Bool) (ps : List ℕ) (v : Volume T)
      → Sound v
      → Shrunk v (garbage_loop ops force ps v).1
  unfolding garbage_loop
  garbage_loop-Shrunk force [] v h = record { sound = h; fewer = λ p. omega arith }
  garbage_loop-Shrunk force (p ∷ ps) v h = elim (Bool-cases (due force (v.fcbs p))) [
    | inl d ↦
        let k =
          garbage_loop-Shrunk force ps (garbage_collect_fcb ops p true v)
            (garbage_collect_fcb-Sound p true v h) in
        simp d (record { sound = k.sound; fewer = λ q. omega (arith, k.fewer q, collected q) })
    | inr d ↦
        let k =
          garbage_loop-Shrunk force ps (set_grace_period_passed ops p v)
            (set_grace_period_passed-Sound p v h) in
        simp d (record { sound = k.sound; fewer = k.fewer })
  ]
    where
      collected :
          (q : ℕ)
          → sum_in (same q) (garbage_collect_fcb ops p true v).garbage ≤ sum_in (same q) v.garbage
      collected q = sum_in-remove (same q) p v.garbage

  pub pass-Shrunk :
      (force : Bool) (v : Volume T)
      → Sound v
      → Shrunk v (delete_fcb_garbage_and_get_remaining_count ops force v).1
  unfolding delete_fcb_garbage_and_get_remaining_count
  pass-Shrunk force v h =
      let k = garbage_loop-Shrunk force v.garbage v h in
      elim (Bool-cases ((garbage_loop ops force v.garbage v).0 == 0)) [
        | inl p ↦ simp p (record { sound = k.sound; fewer = k.fewer })
        | inr p ↦ simp p k
      ]

  -- The deletion of an FCB that is not in the list.
  delete_fcb-Sound :
      (p : ℕ) (from_table : Bool) (v : Volume T)
      → Sound v
      → sum_in (same p) v.garbage ≡ 0
      → Sound (delete_fcb ops p from_table v)
  unfolding delete_fcb
  delete_fcb-Sound p from_table v h z = absent-SoundOf h p _ z

  pub is_fcb-fcb : (i : Identifier) → is_fcb i ≡ true → i ≡ fcb
  is_fcb-fcb fcb h = refl
  is_fcb-fcb freed_fcb h = cc
  is_fcb-fcb other h = cc

  scheduled : ℕ → Volume T → Volume T
  scheduled p v = record v {
    fcbs =
        update v.fcbs p
          (record (v.fcbs p) { scheduled = true; garbage_collection_grace_period_passed = false });
    garbage = v.garbage ++ p ∷ [];
    garbage_not_empty = true;
  }

  pub refused :
      (p : ℕ) (v : Volume T)
      → (v.collector_thread ≡ false) ⊎ ((v.fcbs p).replaced_by_rename ≡ true)
      → schedule_fcb_for_garbage_collection ops p v ≡ (false, v)
  unfolding schedule_fcb_for_garbage_collection
  refused p v (inl c) = if_true (not v.collector_thread) _ _ (ap not c)
  refused p v (inr r) = elim (Bool-cases v.collector_thread) [
    | inl c ↦
        if_false (not v.collector_thread) _ _ (ap not c)
        ∙ if_true (v.fcbs p).replaced_by_rename _ _ r
    | inr c ↦ if_true (not v.collector_thread) _ _ (ap not c)
  ]

  accepted :
      (p : ℕ) (v : Volume T)
      → v.collector_thread ≡ true
      → (v.fcbs p).replaced_by_rename ≡ false
      → schedule_fcb_for_garbage_collection ops p v
        ≡ (if (v.fcbs p).scheduled then (true, v) else (true, scheduled p v))
  unfolding schedule_fcb_for_garbage_collection scheduled
  accepted p v c r =
      if_false (not v.collector_thread) _ _ (ap not c)
      ∙ if_false (v.fcbs p).replaced_by_rename _ _ r

  pub end_use-Sound :
      (p : ℕ) (v : Volume T)
      → Sound v
      → (v.fcbs p).identifier ≡ fcb
      → (v.fcbs p).open_count ≡ 0
      → Sound (unless_scheduled ops p (schedule_fcb_for_garbage_collection ops p v))
  unfolding unless_scheduled scheduled
  end_use-Sound p v h i o = elim (Bool-cases v.collector_thread) [
    | inr c ↦
        rw (refused p v (inl c))
          (delete_fcb-Sound p (not (v.fcbs p).replaced_by_rename) v h (without_collector h p c))
    | inl c ↦ elim (Bool-cases (v.fcbs p).replaced_by_rename) [
      | inl r ↦
          rw (refused p v (inr r))
            (delete_fcb-Sound p (not (v.fcbs p).replaced_by_rename) v h (replaced h p r))
      | inr r ↦ elim (Bool-cases (v.fcbs p).scheduled) [
        | inl s ↦ rw (accepted p v c r ∙ if_true (v.fcbs p).scheduled _ _ s) h
        | inr s ↦ rw (accepted p v c r ∙ if_false (v.fcbs p).scheduled _ _ s) (
            append-SoundOf h p _ c (not_scheduled h p s)
              (record { identifier = i; open_count = o; scheduled = refl; not_replaced = r }))
      ]
    ]
  ]
