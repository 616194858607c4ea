-- ===== src/Fcb/Collector.antt =====
-- dokan-sys/src/dokany/sys/util/fcb.c: the garbage collector's thread, between two waits.
use crv_virtual_disk.Prelude.{
  ℕ, Bool, true, false, ◌&&◌, List, [], ◌∷◌, Option, none, some, ◌==◌, if◌then◌else◌,
}
use crv_virtual_disk.Fcb.State.{TableOps, Volume}
use crv_virtual_disk.Fcb.Garbage.{delete_fcb_garbage_and_get_remaining_count}

-- STATUS_SUCCESS and STATUS_CANCELLED.
pub data Status : Type 0 where
  success : Status
  cancelled : Status

-- How a wait ends: by the timer, with what other threads did to the volume during the wait, or by the
-- device's ReleaseEvent.
pub data Wait (T : Type 0) : Type 0 where
  timer : (Volume T → Volume T) → Wait T
  release_event : Wait T

module _ {T : Type 0} (ops : TableOps T) where
  -- The loop of AgeAndDeleteFcbGarbage; it has no status yet where the waits run out.
  unfoldable pub age_loop : Bool → List (Wait T) → Volume T → Option Status × Volume T
  unfolding delete_fcb_garbage_and_get_remaining_count
  age_loop waited [] v =
      let (n, w) = delete_fcb_garbage_and_get_remaining_count ops false v in
      if (n == 0) && waited then (some success, w) else (none, w)
  age_loop waited (release_event ∷ ws) v =
      let (n, w) = delete_fcb_garbage_and_get_remaining_count ops false v in
      if (n == 0) && waited then (some success, w) else (some cancelled, w)
  age_loop waited (timer others ∷ ws) v =
      let (n, w) = delete_fcb_garbage_and_get_remaining_count ops false v in
      let rest = age_loop true ws (others w) in
      if (n == 0) && waited then (some success, w) else rest

  -- AgeAndDeleteFcbGarbage
  unfoldable pub age_and_delete_fcb_garbage : List (Wait T) → Volume T → Option Status × Volume T
  unfolding age_loop
  age_and_delete_fcb_garbage ws v = age_loop false ws v

  -- DokanStartFcbGarbageCollector; `created` tells whether there is a thread.
  unfoldable pub start_fcb_garbage_collector : ℕ → Bool → Volume T → Volume T
  start_fcb_garbage_collector interval_ms created v =
      if interval_ms == 0
      then record v { collector_thread = false }
      else record v { collector_thread = created }
