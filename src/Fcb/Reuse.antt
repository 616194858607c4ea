-- ===== src/Fcb/Reuse.antt =====
-- dokan-sys/src/dokany/sys/util/fcb.c: DokanGetFCB for a name that has an FCB.
use crv_virtual_disk.Prelude.{
  if_cases, sum_in, same, sum_in-remove_one, update_self, ℕ, ◌+◌, ◌%◌, ◌^◌, ◌≡◌, refl, ap, ◌∙◌,
  false, some, ◌==◌,
}
use crv_virtual_disk.Fcb.State.{Name, TableOps, Volume, set_fcb}
use crv_virtual_disk.Fcb.Garbage.{cancel_fcb_garbage_collection}
use crv_virtual_disk.Fcb.Table.{
  Supply, zeroed, insert_or_find, allocated, get_or_create_uninitialized_fcb, increment, finish_get,
  get_fcb,
}
use crv_virtual_disk.Fcb.Unused.{Sound, not_scheduled, absent-SoundOf}

-- The FCB `p` has one opening more than in `v`, and is not to be collected.
pub record Reused {T : Type 0} (p : ℕ) (v w : Volume T) : Type 0 where
  pub open_count : (w.fcbs p).open_count ≡ ((v.fcbs p).open_count + 1) % 2 ^ 32
  pub identifier : (w.fcbs p).identifier ≡ (v.fcbs p).identifier
  pub not_scheduled : (w.fcbs p).scheduled ≡ false
  pub not_garbage : sum_in (same p) w.garbage ≡ 0
  pub table : w.table ≡ v.table
  pub freed : w.freed ≡ v.freed

module _ {T : Type 0} (ops : TableOps T) where
  found :
      (supply : Supply) (name : Name) (p q : ℕ) (v : Volume T)
      → ops.find v.table name.characters ≡ some p
      → supply.first ≡ some q
      → get_fcb ops supply name v ≡ (
        some p,
        increment ops p (cancel_fcb_garbage_collection ops p name (set_fcb q (zeroed name) v)),
      )
  unfolding get_fcb get_or_create_uninitialized_fcb allocated finish_get
  found supply name p q v f s =
      ap (λ o. finish_get ops supply name (allocated ops supply name o v)) s
      ∙ ap
          (λ o.
            finish_get ops supply name (insert_or_find ops o q name (set_fcb q (zeroed name) v)))
          f

  -- Before the opening is counted.
  record Ready (p : ℕ) (v w : Volume T) : Type 0 where
    fcb : (w.fcbs p).open_count ≡ (v.fcbs p).open_count
    identifier : (w.fcbs p).identifier ≡ (v.fcbs p).identifier
    not_scheduled : (w.fcbs p).scheduled ≡ false
    not_garbage : sum_in (same p) w.garbage ≡ 0
    table : w.table ≡ v.table
    freed : w.freed ≡ v.freed

  increment-Reused : (p : ℕ) (v w : Volume T) → Ready p v w → Reused p v (increment ops p w)
  increment-Reused p v w r =
      let e =
        update_self w.fcbs p
          (record (w.fcbs p) { open_count = ((w.fcbs p).open_count + 1) % 2 ^ 32 }) in
      record {
        open_count = ap (λ f. f.open_count) e ∙ ap (λ n. (n + 1) % 2 ^ 32) r.fcb;
        identifier = ap (λ f. f.identifier) e ∙ r.identifier;
        not_scheduled = ap (λ f. f.scheduled) e ∙ r.not_scheduled;
        not_garbage = r.not_garbage;
        table = r.table;
        freed = r.freed;
      }

  cancel-Ready :
      (name : Name) (p : ℕ) (v : Volume T)
      → Sound v
      → Ready p v (cancel_fcb_garbage_collection ops p name v)
  unfolding cancel_fcb_garbage_collection
  cancel-Ready name p v h =
      if_cases (λ (w : Volume T). Ready p v w) (v.fcbs p).scheduled _ _
        (λ s. record {
          fcb = ap (λ f. f.open_count) (update_self v.fcbs p _);
          identifier = ap (λ f. f.identifier) (update_self v.fcbs p _);
          not_scheduled = ap (λ f. f.scheduled) (update_self v.fcbs p _);
          not_garbage = sum_in-remove_one p v.garbage (h.distinct p);
          table = refl;
          freed = refl;
        })
        (λ s. record {
          fcb = refl;
          identifier = refl;
          not_scheduled = s;
          not_garbage = not_scheduled h p s;
          table = refl;
          freed = refl;
        })

-- In a volume whose garbage list has only unused FCBs, each once, a lookup of a name that the
-- table has, where the memory for a new FCB is another one and not in the garbage list: it gives
-- the FCB of the table, opened once more and out of the garbage list, whether it was scheduled
-- for deletion or not; no FCB is freed, and the table stays as it is.
pub get_fcb-Reused :
    {T : Type 0} (ops : TableOps T) (supply : Supply) (name : Name) (p q : ℕ) (v : Volume T)
    → Sound v
    → ops.find v.table name.characters ≡ some p
    → supply.first ≡ some q
    → (q == p) ≡ false
    → sum_in (same q) v.garbage ≡ 0
    → ((get_fcb ops supply name v).0 ≡ some p) × Reused p v (get_fcb ops supply name v).1
get_fcb-Reused ops supply name p q v h f s d z =
    let u = set_fcb q (zeroed name) v in
    let r =
      increment-Reused ops p u (cancel_fcb_garbage_collection ops p name u)
        (cancel-Ready ops name p u (absent-SoundOf h q _ z)) in
    let other : u.fcbs p ≡ v.fcbs p = simp d refl in
    rw (found ops supply name p q v f s) (
      refl,
      record {
        open_count = r.open_count ∙ ap (λ a. (a.open_count + 1) % 2 ^ 32) other;
        identifier = r.identifier ∙ ap (λ a. a.identifier) other;
        not_scheduled = r.not_scheduled;
        not_garbage = r.not_garbage;
        table = r.table;
        freed = r.freed;
      },
    )
