-- ===== src/Fcb/Table.antt =====
-- dokan-sys/src/dokany/sys/util/fcb.c: the FCB of a name. The memory manager's answers are arguments.
use Prim.Native.Nat.{bit_and}
use crv_virtual_disk.Prelude.{
  not, update, ℕ, ◌+◌, ◌%◌, ◌^◌, Bool, true, false, ◌||◌, List, [], ◌∷◌, ◌++◌, Option, none, some,
  if◌then◌else◌,
}
use crv_virtual_disk.Fcb.State.{fcb, other, Name, Fcb, TableOps, Volume, set_fcb}
use crv_virtual_disk.Fcb.Garbage.{
  garbage_collect_fcb, cancel_fcb_garbage_collection, force_fcb_garbage_collection,
}

-- What the operating system gives: `first` and `second` are the answers of the lookaside list of FCBs,
-- `resource` whether it has an ERESOURCE, `equal` is RtlEqualUnicodeString.
pub record Supply : Type 0 where
  pub first : Option ℕ
  pub second : Option ℕ
  pub resource : Bool
  pub equal : List ℕ → List ℕ → Bool
  pub keep_alive_file_name : List ℕ
  pub notification_file_name : List ℕ

-- Memory set to zero, with a name.
abbrev pub zeroed : Name → Fcb
zeroed name = record {
  identifier = other;
  file_name = name;
  open_count = 0;
  replaced_by_rename = false;
  scheduled = false;
  garbage_collection_grace_period_passed = false;
  delete_pending = false;
  directory = false;
  change_last_write = false;
  is_keepalive = false;
  block_user_mode_dispatch = false;
}

-- The FCB and whether it is new, or NULL.
pub data Gotten : Type 0 where
  no_fcb : Gotten
  got : ℕ → Bool → Gotten

module _ {T : Type 0} (ops : TableOps T) where
  -- DokanInitializeFcb
  unfoldable pub initialize_fcb : Supply → ℕ → Volume T → Bool × Volume T
  initialize_fcb supply p v =
      let name = (v.fcbs p).file_name.characters in
      if not supply.resource then (false, v) else (
        true,
        record v {
          fcbs = update v.fcbs p (record (v.fcbs p) {
            identifier = fcb;
            is_keepalive = supply.equal name supply.keep_alive_file_name || (v.fcbs p).is_keepalive;
            block_user_mode_dispatch =
                supply.equal name supply.keep_alive_file_name
                || supply.equal name supply.notification_file_name
                || (v.fcbs p).block_user_mode_dispatch;
          });
          valid_fcb_mask = bit_and v.valid_fcb_mask p;
        },
      )

  abbrev pub insert_new : Option T → ℕ → Name → Volume T → Gotten × Volume T
  insert_new none p name v = (no_fcb, v)
  insert_new (some t) p name v = (got p true, record v { table = t })

  -- RtlInsertElementGenericTableAvl for an FCB that was zeroed; without an insertion it is freed to the
  -- lookaside list.
  abbrev pub insert_or_find : Option ℕ → ℕ → Name → Volume T → Gotten × Volume T
  insert_or_find (some q) p name v = (got q false, v)
  insert_or_find none p name v = insert_new (ops.add v.table name.characters p) p name v

  abbrev pub with_memory : Option ℕ → Name → Volume T → Gotten × Volume T
  with_memory none name v = (no_fcb, v)
  with_memory (some p) name v =
      insert_or_find (ops.find v.table name.characters) p name (set_fcb p (zeroed name) v)

  abbrev pub retry : Supply → Name → Bool × Volume T → Gotten × Volume T
  retry supply name (false, v) = (no_fcb, v)
  retry supply name (true, v) = with_memory supply.second name v

  unfoldable pub allocated : Supply → Name → Option ℕ → Volume T → Gotten × Volume T
  unfolding force_fcb_garbage_collection
  allocated supply name none v = retry supply name (force_fcb_garbage_collection ops v)
  allocated supply name (some p) v = with_memory (some p) name v

  unfoldable pub get_or_create_uninitialized_fcb : Supply → Name → Volume T → Gotten × Volume T
  unfolding allocated
  get_or_create_uninitialized_fcb supply name v = allocated supply name supply.first v

  -- InterlockedIncrement of the OpenCount
  abbrev pub increment : ℕ → Volume T → Volume T
  increment p v =
      set_fcb p (record (v.fcbs p) { open_count = ((v.fcbs p).open_count + 1) % 2 ^ 32 }) v

  abbrev pub free_name : Name → Volume T → Volume T
  free_name name v = record v { freed_names = v.freed_names ++ name.buffer ∷ [] }

  abbrev pub finish_new : ℕ → Name → Bool × Volume T → Option ℕ × Volume T
  finish_new p name (true, v) = (some p, increment p v)
  finish_new p name (false, v) =
      (none, free_name name (record v { table = ops.delete v.table name.characters }))

  unfoldable pub finish_get : Supply → Name → Gotten × Volume T → Option ℕ × Volume T
  unfolding initialize_fcb cancel_fcb_garbage_collection
  finish_get supply name (no_fcb, v) = (none, free_name name v)
  finish_get supply name (got p true, v) = finish_new p name (initialize_fcb supply p v)
  finish_get supply name (got p false, v) =
      (some p, increment p (cancel_fcb_garbage_collection ops p name v))

  -- DokanGetFCB
  unfoldable pub get_fcb : Supply → Name → Volume T → Option ℕ × Volume T
  unfolding get_or_create_uninitialized_fcb finish_get
  get_fcb supply name v = finish_get supply name (get_or_create_uninitialized_fcb supply name v)

  unfoldable pub take_over : Option ℕ → ℕ → List ℕ → Volume T → Volume T
  unfolding garbage_collect_fcb
  take_over none p name v = v
  take_over (some q) p name v =
      let w =
        if (v.fcbs q).scheduled
        then garbage_collect_fcb ops q false v
        else set_fcb q (record (v.fcbs q) { replaced_by_rename = true }) v in
      record w { table = ops.put w.table name p }

  -- RtlInsertElementGenericTableAvl of an FCB whose node was just deleted, so that there is memory.
  unfoldable pub reinsert : Option ℕ → Option T → ℕ → List ℕ → Volume T → Volume T
  unfolding take_over
  reinsert (some q) t p name v = take_over (some q) p name v
  reinsert none (some t) p name v = record v { table = t }
  reinsert none none p name v = v

  -- DokanRenameFcb
  unfoldable pub rename_fcb : ℕ → Name → Volume T → Volume T
  unfolding reinsert
  rename_fcb p name v =
      let t = ops.delete v.table (v.fcbs p).file_name.characters in
      reinsert (ops.find t name.characters) (ops.add t name.characters p) p name.characters
        (set_fcb p (record (v.fcbs p) { file_name = name }) (record v { table = t }))
