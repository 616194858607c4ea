-- ===== src/Fcb/Free.antt =====
-- dokan-sys/src/dokany/sys/util/fcb.c: DokanFreeFCB. It takes the volume's lock only after it has
-- counted down, so that it is two steps. A field of a freed FCB other than the identifier that is read
-- is `fault`.
use Prim.Native.Nat.{bit_and}
use crv_virtual_disk.Prelude.{not, ℕ, ◌+◌, ◌-◌, ◌%◌, ◌^◌, Bool, true, false, ◌==◌, if◌then◌else◌}
use crv_virtual_disk.Memory.{Outcome, ok, fault, map_outcome}
use crv_virtual_disk.Fcb.State.{Identifier, fcb, freed_fcb, other, TableOps, Volume, set_fcb}
use crv_virtual_disk.Fcb.Garbage.{delete_fcb, schedule_fcb_for_garbage_collection}

-- What follows the first half: a status to return, or the second half.
pub data Release : Type 0 where
  invalid_parameter : Release
  in_use : Release
  last_use : Release

abbrev pub is_fcb : Identifier → Bool
is_fcb fcb = true
is_fcb freed_fcb = false
is_fcb other = false

abbrev pub decremented : ℕ → ℕ
decremented n = (n + 2 ^ 32 - 1) % 2 ^ 32

module _ {T : Type 0} (ops : TableOps T) where
  -- Up to InterlockedDecrement; `is_vcb` is the check of the volume's identifier.
  unfoldable pub count_down : Bool → ℕ → Volume T → Release × Volume T
  count_down is_vcb p v =
      if not is_vcb
      then (invalid_parameter, v)
      else if not (bit_and v.valid_fcb_mask p == v.valid_fcb_mask)
      then (invalid_parameter, v)
      else if not (is_fcb (v.fcbs p).identifier)
      then (invalid_parameter, v)
      else (
        if decremented (v.fcbs p).open_count == 0 then last_use else in_use,
        set_fcb p (record (v.fcbs p) { open_count = decremented (v.fcbs p).open_count }) v,
      )

  unfoldable pub unless_scheduled : ℕ → Bool × Volume T → Volume T
  unfolding delete_fcb
  unless_scheduled p (true, v) = v
  unless_scheduled p (false, v) = delete_fcb ops p (not (v.fcbs p).replaced_by_rename) v

  -- From DokanVCBLockRW on.
  unfoldable pub release_last : ℕ → Volume T → Outcome (Volume T)
  unfolding schedule_fcb_for_garbage_collection unless_scheduled
  release_last p v =
      if not (is_fcb (v.fcbs p).identifier)
      then fault
      else if (v.fcbs p).open_count == 0
      then ok (unless_scheduled p (schedule_fcb_for_garbage_collection ops p v))
      else ok v

  unfoldable pub go_on : ℕ → Release × Volume T → Outcome (Release × Volume T)
  unfolding release_last
  go_on p (invalid_parameter, v) = ok (invalid_parameter, v)
  go_on p (in_use, v) = ok (in_use, v)
  go_on p (last_use, v) = map_outcome (λ w. (last_use, w)) (release_last p v)

  -- DokanFreeFCB without another thread between its halves
  unfoldable pub free_fcb : Bool → ℕ → Volume T → Outcome (Release × Volume T)
  unfolding count_down go_on
  free_fcb is_vcb p v = go_on p (count_down is_vcb p v)
