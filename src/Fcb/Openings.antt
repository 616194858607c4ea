-- ===== src/Fcb/Openings.antt =====
-- dokan-sys/src/dokany/sys/util/fcb.c: DokanGetFCB and the invariant of the garbage list.
use crv_virtual_disk.Prelude.{
  sum_in, same, sum_in-remove_one, ℕ, ◌≡◌, Bool, true, false, not, if_cases,
}
use crv_virtual_disk.Fcb.State.{Name, TableOps, Volume}
use crv_virtual_disk.Fcb.Garbage.{cancel_fcb_garbage_collection}
use crv_virtual_disk.Fcb.Table.{
  Supply, initialize_fcb, Gotten, no_fcb, got, allocated, get_or_create_uninitialized_fcb,
  increment, finish_new, finish_get, get_fcb,
}
use crv_virtual_disk.Fcb.Unused.{Sound, not_scheduled, absent-SoundOf, remove-SoundOf}
use crv_virtual_disk.Fcb.Lookups.{Fresh, GottenSound, allocated-GottenSound}

-- The volume is sound, and its garbage list does not have the FCB.
abbrev pub Absent : {T : Type 0} → ℕ → Volume T → Type 0
Absent p v = Sound v × (sum_in (same p) v.garbage ≡ 0)

module _ {T : Type 0} (ops : TableOps T) where
  initialize_fcb-Absent :
      (supply : Supply) (p : ℕ) (v : Volume T)
      → Absent p v
      → Absent p (initialize_fcb ops supply p v).1
  unfolding initialize_fcb
  initialize_fcb-Absent supply p v (h, z) =
      if_cases (λ (r : Bool × Volume T). Absent p r.1) (not supply.resource) (false, v) _
        (λ b. (h, z)) (λ b. (absent-SoundOf h p _ z, z))

  cancel-Absent :
      (p : ℕ) (name : Name) (v : Volume T)
      → Sound v
      → Absent p (cancel_fcb_garbage_collection ops p name v)
  unfolding cancel_fcb_garbage_collection
  cancel-Absent p name v h =
      if_cases (λ (w : Volume T). Absent p w) (v.fcbs p).scheduled _ _
        (λ s. (remove-SoundOf h p _, sum_in-remove_one p v.garbage (h.distinct p)))
        (λ s. (h, not_scheduled h p s))

  increment-Sound : (p : ℕ) (v : Volume T) → Absent p v → Sound (increment ops p v)
  increment-Sound p v (h, z) = absent-SoundOf h p _ z

  finish_new-Sound :
      (p : ℕ) (name : Name) (r : Bool × Volume T) → Absent p r.1 → Sound (finish_new ops p name r).1
  finish_new-Sound p name (true, v) h = increment-Sound p v h
  finish_new-Sound p name (false, v) h = h.0

  finish_get-Sound :
      (supply : Supply) (name : Name) (r : Gotten × Volume T)
      → GottenSound ops r
      → Sound (finish_get ops supply name r).1
  unfolding finish_get
  finish_get-Sound supply name (no_fcb, v) h = h
  finish_get-Sound supply name (got p true, v) h =
      finish_new-Sound p name (initialize_fcb ops supply p v) (initialize_fcb-Absent supply p v h)
  finish_get-Sound supply name (got p false, v) h =
      increment-Sound p (cancel_fcb_garbage_collection ops p name v) (cancel-Absent p name v h)

  pub get_fcb-Sound :
      (supply : Supply) (name : Name) (v : Volume T)
      → Sound v
      → Fresh ops supply.first v
      → Fresh ops supply.second v
      → Sound (get_fcb ops supply name v).1
  unfolding get_fcb get_or_create_uninitialized_fcb
  get_fcb-Sound supply name v h y z =
      finish_get-Sound supply name (allocated ops supply name supply.first v)
        (allocated-GottenSound ops supply name supply.first v h y z)
