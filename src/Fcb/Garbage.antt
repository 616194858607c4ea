-- ===== src/Fcb/Garbage.antt =====
-- dokan-sys/src/dokany/sys/util/fcb.c: the deletion of FCBs and the garbage list. The ASSERTs, the locks
-- and the counters of VolumeMetrics are left out.
use crv_virtual_disk.Prelude.{
  update, remove, ℕ, ◌+◌, Bool, true, false, ◌||◌, not, List, [], ◌∷◌, ◌++◌, ◌==◌, if◌then◌else◌,
}
use crv_virtual_disk.Fcb.State.{freed_fcb, Name, TableOps, Volume, set_fcb}

module _ {T : Type 0} (ops : TableOps T) where
  -- DokanDeleteFcb
  unfoldable pub delete_fcb : ℕ → Bool → Volume T → Volume T
  delete_fcb p from_table v = record v {
    table = if from_table then ops.delete v.table (v.fcbs p).file_name.characters else v.table;
    fcbs = update v.fcbs p (record (v.fcbs p) {
      identifier = freed_fcb;
      file_name = record { buffer = 0; characters = [] };
    });
    freed = v.freed ++ p ∷ [];
    freed_names = v.freed_names ++ (v.fcbs p).file_name.buffer ∷ [];
  }

  -- GarbageCollectFCB
  unfoldable pub garbage_collect_fcb : ℕ → Bool → Volume T → Volume T
  unfolding delete_fcb
  garbage_collect_fcb p from_table v =
      delete_fcb p from_table (record v { garbage = remove p v.garbage })

  -- DokanScheduleFcbForGarbageCollection
  unfoldable pub schedule_fcb_for_garbage_collection : ℕ → Volume T → Bool × Volume T
  schedule_fcb_for_garbage_collection p v =
      if not v.collector_thread
      then (false, v)
      else if (v.fcbs p).replaced_by_rename
      then (false, v)
      else if (v.fcbs p).scheduled
      then (true, v)
      else (
        true,
        record v {
          fcbs = update v.fcbs p (record (v.fcbs p) {
            scheduled = true;
            garbage_collection_grace_period_passed = false;
          });
          garbage = v.garbage ++ p ∷ [];
          garbage_not_empty = true;
        },
      )

  -- DokanCancelFcbGarbageCollection
  unfoldable pub cancel_fcb_garbage_collection : ℕ → Name → Volume T → Volume T
  cancel_fcb_garbage_collection p name v =
      if (v.fcbs p).scheduled
      then record v {
        fcbs = update v.fcbs p (record (v.fcbs p) {
          file_name = name;
          scheduled = false;
          garbage_collection_grace_period_passed = false;
          delete_pending = false;
          directory = false;
          change_last_write = false;
        });
        garbage = remove p v.garbage;
        freed_names = v.freed_names ++ (v.fcbs p).file_name.buffer ∷ [];
      }
      else record v { freed_names = v.freed_names ++ name.buffer ∷ [] }

  abbrev pub set_grace_period_passed : ℕ → Volume T → Volume T
  set_grace_period_passed p v =
      set_fcb p (record (v.fcbs p) { garbage_collection_grace_period_passed = true }) v

  -- The loop of DeleteFcbGarbageAndGetRemainingCount over the garbage list.
  unfoldable pub garbage_loop : Bool → List ℕ → Volume T → ℕ × Volume T
  unfolding garbage_collect_fcb
  garbage_loop force [] v = (0, v)
  garbage_loop force (p ∷ ps) v =
      let rest = garbage_loop force ps (
        if force || (v.fcbs p).garbage_collection_grace_period_passed
        then garbage_collect_fcb p true v
        else set_grace_period_passed p v) in
      if force || (v.fcbs p).garbage_collection_grace_period_passed
      then rest
      else (rest.0 + 1, rest.1)

  abbrev pub clear_if_none : ℕ × Volume T → ℕ × Volume T
  clear_if_none (n, v) = (n, if n == 0 then record v { garbage_not_empty = false } else v)

  unfoldable pub delete_fcb_garbage_and_get_remaining_count : Bool → Volume T → ℕ × Volume T
  unfolding garbage_loop
  delete_fcb_garbage_and_get_remaining_count force v =
      clear_if_none (garbage_loop force v.garbage v)

  abbrev pub is_empty : List ℕ → Bool
  is_empty [] = true
  is_empty (p ∷ ps) = false

  -- DokanForceFcbGarbageCollection
  unfoldable pub force_fcb_garbage_collection : Volume T → Bool × Volume T
  unfolding delete_fcb_garbage_and_get_remaining_count
  force_fcb_garbage_collection v =
      if not v.collector_thread || is_empty v.garbage
      then (false, v)
      else (true, (delete_fcb_garbage_and_get_remaining_count true v).1)
