-- ===== src/Fcb/Lookups.antt =====
-- dokan-sys/src/dokany/sys/util/fcb.c: lookups, DokanFreeFCB, DokanRenameFcb and the invariant of the
-- garbage list.
use Prim.Native.Nat.{bit_and}
use crv_virtual_disk.Prelude.{
  sum_in, same, ℕ, ◌≤◌, ◌≡◌, inl, inr, Bool, true, false, not, ◌||◌, List, Option, none, some,
  arith, ◌==◌, ==_iff, Bool-cases, if_cases,
}
use crv_virtual_disk.Memory.{Outcome, ok, fault}
use crv_virtual_disk.Fcb.State.{Name, TableOps, Volume, set_fcb}
use crv_virtual_disk.Fcb.Garbage.{
  garbage_collect_fcb, delete_fcb_garbage_and_get_remaining_count, force_fcb_garbage_collection,
  is_empty,
}
use crv_virtual_disk.Fcb.Free.{is_fcb, count_down, decremented, release_last}
use crv_virtual_disk.Fcb.Table.{
  Supply, zeroed, Gotten, no_fcb, got, insert_new, insert_or_find, with_memory, retry, allocated,
  take_over, reinsert, rename_fcb,
}
use crv_virtual_disk.Fcb.Unused.{Sound, not_scheduled, opened, change-SoundOf, absent-SoundOf}
use crv_virtual_disk.Fcb.Collections.{
  garbage_collect_fcb-Sound, pass-Shrunk, Shrunk, end_use-Sound, is_fcb-fcb,
}

module _ {T : Type 0} (ops : TableOps T) where
  pub count_down-Sound :
      (is_vcb : Bool) (p : ℕ) (v : Volume T)
      → 1 ≤ (v.fcbs p).open_count
      → Sound v
      → Sound (count_down ops is_vcb p v).1
  unfolding count_down
  count_down-Sound is_vcb p v o h =
      let counted : Sound
          (set_fcb p (record (v.fcbs p) { open_count = decremented (v.fcbs p).open_count }) v) =
        absent-SoundOf h p _ (opened h p o) in
      elim (Bool-cases is_vcb) [
        | inr c ↦ simp c h
        | inl c ↦ elim (Bool-cases (bit_and v.valid_fcb_mask p == v.valid_fcb_mask)) [
          | inr m ↦ simp (c, m) h
          | inl m ↦ elim (Bool-cases (is_fcb (v.fcbs p).identifier)) [
            | inr i ↦ simp (c, m, i) h
            | inl i ↦ simp (c, m, i) counted
          ]
        ]
      ]

  -- A sound volume, if the FCB is not freed already.
  abbrev pub SoundResult : Outcome (Volume T) → Type 0
  SoundResult (ok w) = Sound w
  SoundResult fault = Unit

  pub release_last-Sound : (p : ℕ) (v : Volume T) → Sound v → SoundResult (release_last ops p v)
  unfolding release_last
  release_last-Sound p v h = elim (Bool-cases (is_fcb (v.fcbs p).identifier)) [
    | inr i ↦ simp i tt
    | inl i ↦ elim (Bool-cases ((v.fcbs p).open_count == 0)) [
      | inr o ↦ simp (i, o) h
      | inl o ↦
          simp (i, o)
            (end_use-Sound ops p v h (is_fcb-fcb ops (v.fcbs p).identifier i)
              ((==_iff (v.fcbs p).open_count 0).0 o))
    ]
  ]

  take_over-Sound :
      (o : Option ℕ) (p : ℕ) (name : List ℕ) (v : Volume T)
      → Sound v
      → Sound (take_over ops o p name v)
  unfolding take_over
  take_over-Sound none p name v h = h
  take_over-Sound (some q) p name v h =
      if_cases (λ (w : Volume T). Sound w) (v.fcbs q).scheduled (garbage_collect_fcb ops q false v)
        (set_fcb q (record (v.fcbs q) { replaced_by_rename = true }) v)
        (λ s. garbage_collect_fcb-Sound ops q false v h)
        (λ s. absent-SoundOf h q _ (not_scheduled h q s))

  reinsert-Sound :
      (o : Option ℕ) (t : Option T) (p : ℕ) (name : List ℕ) (v : Volume T)
      → Sound v
      → Sound (reinsert ops o t p name v)
  unfolding reinsert
  reinsert-Sound (some q) t p name v h = take_over-Sound (some q) p name v h
  reinsert-Sound none (some t) p name v h = h
  reinsert-Sound none none p name v h = h

  pub rename_fcb-Sound :
      (p : ℕ) (name : Name) (v : Volume T) → Sound v → Sound (rename_fcb ops p name v)
  unfolding rename_fcb
  rename_fcb-Sound p name v h =
      let t = ops.delete v.table (v.fcbs p).file_name.characters in
      reinsert-Sound (ops.find t name.characters) (ops.add t name.characters p) p name.characters
        (set_fcb p (record (v.fcbs p) { file_name = name }) (record v { table = t }))
        (change-SoundOf h p _ (λ l.
          let u = h.unused p l in
          record {
            identifier = u.identifier;
            open_count = u.open_count;
            scheduled = u.scheduled;
            not_replaced = u.not_replaced;
          }))

  -- Memory that the garbage list does not have.
  abbrev pub Fresh : Option ℕ → Volume T → Type 0
  Fresh none v = Unit
  Fresh (some p) v = sum_in (same p) v.garbage ≡ 0

  -- A sound volume, and a new FCB is not in the garbage list.
  abbrev pub GottenSound : Gotten × Volume T → Type 0
  GottenSound (no_fcb, v) = Sound v
  GottenSound (got p true, v) = Sound v × (sum_in (same p) v.garbage ≡ 0)
  GottenSound (got p false, v) = Sound v

  insert_new-GottenSound :
      (o : Option T) (p : ℕ) (name : Name) (v : Volume T)
      → Sound v
      → sum_in (same p) v.garbage ≡ 0
      → GottenSound (insert_new ops o p name v)
  insert_new-GottenSound none p name v h z = h
  insert_new-GottenSound (some t) p name v h z = (h, z)

  insert_or_find-GottenSound :
      (o : Option ℕ) (p : ℕ) (name : Name) (v : Volume T)
      → Sound v
      → sum_in (same p) v.garbage ≡ 0
      → GottenSound (insert_or_find ops o p name v)
  insert_or_find-GottenSound (some q) p name v h z = h
  insert_or_find-GottenSound none p name v h z =
      insert_new-GottenSound (ops.add v.table name.characters p) p name v h z

  with_memory-GottenSound :
      (o : Option ℕ) (name : Name) (v : Volume T)
      → Sound v
      → Fresh o v
      → GottenSound (with_memory ops o name v)
  with_memory-GottenSound none name v h z = h
  with_memory-GottenSound (some p) name v h z =
      insert_or_find-GottenSound (ops.find v.table name.characters) p name
        (set_fcb p (zeroed name) v) (absent-SoundOf h p _ z) z

  Fresh-Shrunk : (o : Option ℕ) (v w : Volume T) → Shrunk ops v w → Fresh o v → Fresh o w
  Fresh-Shrunk none v w k z = tt
  Fresh-Shrunk (some p) v w k z = omega (arith, k.fewer p, z)

  retry-GottenSound :
      (supply : Supply) (name : Name) (r : Bool × Volume T)
      → Sound r.1
      → Fresh supply.second r.1
      → GottenSound (retry ops supply name r)
  retry-GottenSound supply name (false, v) h z = h
  retry-GottenSound supply name (true, v) h z = with_memory-GottenSound supply.second name v h z

  pub force-Shrunk : (v : Volume T) → Sound v → Shrunk ops v (force_fcb_garbage_collection ops v).1
  unfolding force_fcb_garbage_collection
  force-Shrunk v h =
      if_cases (λ (r : Bool × Volume T). Shrunk ops v r.1)
        (not v.collector_thread || is_empty ops v.garbage) (false, v)
        (true, (delete_fcb_garbage_and_get_remaining_count ops true v).1)
        (λ b. record { sound = h; fewer = λ p. omega arith }) (λ b. pass-Shrunk ops true v h)

  pub allocated-GottenSound :
      (supply : Supply) (name : Name) (o : Option ℕ) (v : Volume T)
      → Sound v
      → Fresh o v
      → Fresh supply.second v
      → GottenSound (allocated ops supply name o v)
  unfolding allocated
  allocated-GottenSound supply name (some p) v h z y = with_memory-GottenSound (some p) name v h z
  allocated-GottenSound supply name none v h z y =
      let k = force-Shrunk v h in
      retry-GottenSound supply name (force_fcb_garbage_collection ops v) k.sound
        (Fresh-Shrunk supply.second v (force_fcb_garbage_collection ops v).1 k y)
