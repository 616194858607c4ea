-- ===== src/Fcb/State.antt =====
-- dokan-sys/src/dokany/sys/util/fcb.c and fcb.h: DokanFCB, the fields of a volume that belong to its
-- FCBs, and the table of FCBs, which is Windows'.
use crv_virtual_disk.Prelude.{ℕ, Bool, List, Option, update}

-- FCB, FREED_FCB, and what other memory has there.
pub data Identifier : Type 0 where
  fcb : Identifier
  freed_fcb : Identifier
  other : Identifier

-- A UNICODE_STRING: its buffer and its characters.
pub record Name : Type 0 where
  pub buffer : ℕ
  pub characters : List ℕ

-- `scheduled` is that NextGarbageCollectableFcb.Flink is not NULL; `has_resource` that there is an
-- ERESOURCE.
pub record Fcb : Type 0 where
  pub identifier : Identifier
  pub file_name : Name
  pub open_count : ℕ
  pub replaced_by_rename : Bool
  pub scheduled : Bool
  pub garbage_collection_grace_period_passed : Bool
  pub delete_pending : Bool
  pub directory : Bool
  pub change_last_write : Bool
  pub is_keepalive : Bool
  pub block_user_mode_dispatch : Bool

-- The generic table, with the comparison of names of DokanCompareFcb: `find` is an element that compares
-- equal, `add` inserts an element that no other one is equal to, or fails for want of memory, `delete` removes
-- the equal element, and `put` writes over it.
pub record TableOps (T : Type 0) : Type 0 where
  pub find : T → List ℕ → Option ℕ
  pub add : T → List ℕ → ℕ → Option T
  pub delete : T → List ℕ → T
  pub put : T → List ℕ → ℕ → T

-- `fcbs` is the memory of FCBs; `freed` are the FCBs that DokanDeleteFcb freed, and `freed_names` the
-- buffers of names that were freed.
pub record Volume (T : Type 0) : Type 0 where
  pub table : T
  pub fcbs : ℕ → Fcb
  pub garbage : List ℕ
  pub garbage_not_empty : Bool
  pub collector_thread : Bool
  pub valid_fcb_mask : ℕ
  pub freed : List ℕ
  pub freed_names : List ℕ

abbrev pub set_fcb : {T : Type 0} → ℕ → Fcb → Volume T → Volume T
set_fcb p f v = record v { fcbs = update v.fcbs p f }
