-- ===== src/Fcb/Tests.antt =====
-- dokan-sys/src/dokany/sys/util/fcb.c: runs over a table that is a list.
use crv_virtual_disk.Prelude.{
  sum_in, same, arith, ◌≤◌, ℕ, ◌≡◌, refl, Bool, true, false, List, [], ◌∷◌, ◌++◌, Option, none,
  some, ◌==◌, ◌&&◌, if◌then◌else◌,
}
use crv_virtual_disk.Memory.{Outcome, ok, fault, ◌>>=◌}
use crv_virtual_disk.Fcb.State.{fcb, Name, Fcb, TableOps, Volume}
use crv_virtual_disk.Fcb.Garbage.{
  cancel_fcb_garbage_collection, schedule_fcb_for_garbage_collection, delete_fcb,
  delete_fcb_garbage_and_get_remaining_count,
}
use crv_virtual_disk.Fcb.Table.{
  Supply, zeroed, get_fcb, initialize_fcb, get_or_create_uninitialized_fcb, allocated, finish_get,
}
use crv_virtual_disk.Fcb.Unused.{Sound}
use crv_virtual_disk.Fcb.Reuse.{Reused, get_fcb-Reused}
use crv_virtual_disk.Fcb.Free.{count_down, release_last, unless_scheduled}
use crv_virtual_disk.Fcb.Collector.{success, timer, age_and_delete_fcb_garbage}
use crv_virtual_disk.Fcb.Passes.{aged}
use crv_virtual_disk.Fcb.Sweeps.{Swept, pass-Swept}
use crv_virtual_disk.Fcb.Cycles.{Emptied, cycle-Emptied}
use crv_virtual_disk.Fcb.Steps.{get, Reachable, here, next}
use crv_virtual_disk.Fcb.InUse.{AllUnused, collects_unused}
use crv_virtual_disk.Fcb.Races.{second_release}

abbrev same_text : List ℕ → List ℕ → Bool
same_text [] [] = true
same_text [] (y ∷ ys) = false
same_text (x ∷ xs) [] = false
same_text (x ∷ xs) (y ∷ ys) = (x == y) && same_text xs ys

abbrev Rows : Type 0
Rows = List (List ℕ × ℕ)

abbrev find_row : Rows → List ℕ → Option ℕ
find_row [] name = none
find_row ((n, p) ∷ rows) name =
    let rest = find_row rows name in if same_text n name then some p else rest

abbrev delete_row : Rows → List ℕ → Rows
delete_row [] name = []
delete_row ((n, p) ∷ rows) name =
    let rest = delete_row rows name in if same_text n name then rows else (n, p) ∷ rest

abbrev rows : TableOps Rows
rows = record {
  find = find_row;
  add = λ t name p. some ((name, p) ∷ t);
  delete = delete_row;
  put = λ t name p. (name, p) ∷ delete_row t name;
}

abbrev name : ℕ → List ℕ → Name
name buffer characters = record { buffer = buffer; characters = characters }

-- An FCB in the garbage list, and one that is open.
abbrev waiting : Bool → Fcb
waiting passed = record (zeroed (name 900 (97 ∷ []))) {
  identifier = fcb;
  scheduled = true;
  garbage_collection_grace_period_passed = passed;
}

abbrev volume : Volume Rows
volume = record {
  table = [];
  fcbs = λ p. waiting (p == 8);
  garbage = 8 ∷ 16 ∷ [];
  garbage_not_empty = true;
  collector_thread = true;
  valid_fcb_mask = 0;
  freed = [];
  freed_names = [];
}

pass-Swept_example :
    Swept false volume
      (delete_fcb_garbage_and_get_remaining_count rows false volume).0
      (delete_fcb_garbage_and_get_remaining_count rows false volume).1
pass-Swept_example = pass-Swept rows false volume ((refl, tt), (tt, tt))

cycle-Emptied_example :
    ((age_and_delete_fcb_garbage rows (timer (λ w. w) ∷ []) volume).0 ≡ some success)
    × Emptied volume (age_and_delete_fcb_garbage rows (timer (λ w. w) ∷ []) volume).1
cycle-Emptied_example = cycle-Emptied rows [] volume ((refl, tt), (tt, tt))

abbrev supply : ℕ → Supply
supply p = record {
  first = some p;
  second = none;
  resource = true;
  equal = same_text;
  keep_alive_file_name = 1 ∷ [];
  notification_file_name = 2 ∷ [];
}

abbrev fresh : Volume Rows
fresh = record volume { fcbs = λ p. zeroed (name 0 []); garbage = [] }

abbrev opened : Volume Rows
opened = (get_fcb rows (supply 8) (name 900 (97 ∷ [])) fresh).1

opened-Reachable : Reachable rows fresh opened
opened-Reachable = next here (get (supply 8) (name 900 (97 ∷ [])) fresh refl tt)

collects_unused_example :
    ((delete_fcb_garbage_and_get_remaining_count rows true opened).1.freed
      ≡ opened.freed ++ aged true opened opened.garbage)
    × AllUnused opened.fcbs (aged true opened opened.garbage)
collects_unused_example = collects_unused rows fresh opened refl opened-Reachable true

abbrev counted_down : Volume Rows
counted_down = record volume { garbage = []; collector_thread = false; fcbs = λ p. waiting false }

second_release_example :
    (w : Volume Rows) × ((release_last rows 8 counted_down ≡ ok w)
      × (release_last rows 8 w ≡ fault))
second_release_example = second_release rows 8 counted_down refl refl refl

-- The FCB 8 has the name "a".
abbrev named : Volume Rows
named = record volume { table = (97 ∷ [], 8) ∷ [] }

named-Sound : Sound named
named-Sound = record {
  unused =
      λ p l. record { identifier = refl; open_count = refl; scheduled = refl; not_replaced = refl };
  distinct = at_most_once;
  off = λ c. cc;
}
  where
    at_most_once : (p : ℕ) → sum_in (same p) (8 ∷ 16 ∷ []) ≤ 1
    at_most_once p = ground arith

get_fcb-Reused_example :
    ((get_fcb rows (supply 24) (name 901 (97 ∷ [])) named).0 ≡ some 8)
    × Reused 8 named (get_fcb rows (supply 24) (name 901 (97 ∷ [])) named).1
get_fcb-Reused_example =
    get_fcb-Reused rows (supply 24) (name 901 (97 ∷ [])) 8 24 named named-Sound refl refl refl refl

-- Two openings of the name "a", and the two halves of both uses of DokanFreeFCB in turn, without a
-- collector.
abbrev raced : Outcome (Volume Rows)
raced =
    let first =
      get_fcb rows (supply 8) (name 900 (97 ∷ [])) (record fresh { collector_thread = false }) in
    let down = count_down rows true 8 first.1 in
    let second = get_fcb rows (supply 24) (name 901 (97 ∷ [])) down.1 in
    let down_again = count_down rows true 8 second.1 in
    release_last rows 8 down_again.1 >>= λ w. release_last rows 8 w

raced_test : raced ≡ fault
unfolding get_fcb count_down release_last initialize_fcb get_or_create_uninitialized_fcb allocated
    finish_get cancel_fcb_garbage_collection schedule_fcb_for_garbage_collection unless_scheduled
    delete_fcb
raced_test = refl
