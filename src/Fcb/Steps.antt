-- ===== src/Fcb/Steps.antt =====
-- dokan-sys/src/dokany/sys/util/fcb.c: the steps by which the FCBs of a volume change, each with the
-- volume locked, or an interlocked operation.
use crv_virtual_disk.Prelude.{ℕ, ◌≤◌, ◌≡◌, Bool}
use crv_virtual_disk.Memory.{ok}
use crv_virtual_disk.Fcb.State.{Name, TableOps, Volume}
use crv_virtual_disk.Fcb.Garbage.{
  delete_fcb_garbage_and_get_remaining_count, force_fcb_garbage_collection,
}
use crv_virtual_disk.Fcb.Table.{Supply, get_fcb, rename_fcb}
use crv_virtual_disk.Fcb.Free.{count_down, release_last}
use crv_virtual_disk.Fcb.Lookups.{Fresh}

module _ {T : Type 0} (ops : TableOps T) where
  -- An FCB is freed by who has opened it. Memory that is given out is not in the garbage list.
  pub data Step : Volume T → Volume T → Type 0 where
    get :
        (supply : Supply) (name : Name) (v : Volume T)
        → Fresh ops supply.first v
        → Fresh ops supply.second v
        → Step v (get_fcb ops supply name v).1
    count :
        (is_vcb : Bool) (p : ℕ) (v : Volume T)
        → 1 ≤ (v.fcbs p).open_count
        → Step v (count_down ops is_vcb p v).1
    release : (p : ℕ) (v : Volume T) {w : Volume T} → release_last ops p v ≡ ok w → Step v w
    pass :
        (force : Bool) (v : Volume T)
        → Step v (delete_fcb_garbage_and_get_remaining_count ops force v).1
    forced : (v : Volume T) → Step v (force_fcb_garbage_collection ops v).1
    rename : (p : ℕ) (name : Name) (v : Volume T) → Step v (rename_fcb ops p name v)

  pub data Reachable (v : Volume T) : Volume T → Type 0 where
    here : Reachable v v
    next : {w u : Volume T} → Reachable v w → Step w u → Reachable v u
