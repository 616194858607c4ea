-- ===== src/Fcb/Cycles.antt =====
-- dokan-sys/src/dokany/sys/util/fcb.c: AgeAndDeleteFcbGarbage and the garbage list.
use crv_virtual_disk.Prelude.{
  ℕ, ◌≡◌, refl, ap, ◌∙◌, inl, inr, Bool, true, false, ◌&&◌, List, [], ◌∷◌, ◌++◌, Option, none, some,
  ◌==◌, Bool-cases, if◌then◌else◌, length,
}
use crv_virtual_disk.Fcb.State.{TableOps, Volume}
use crv_virtual_disk.Fcb.Garbage.{delete_fcb_garbage_and_get_remaining_count}
use crv_virtual_disk.Fcb.Collector.{
  Status, success, cancelled, release_event, Wait, timer, age_loop, age_and_delete_fcb_garbage,
}
use crv_virtual_disk.Fcb.Passes.{IsDistinct, select, select-Misses, AllPassed, aged, young}
use crv_virtual_disk.Fcb.Sweeps.{pass-Swept}

select-IsDistinct : (t : ℕ → Bool) (ps : List ℕ) → IsDistinct ps → IsDistinct (select t ps)
select-IsDistinct t [] d = tt
select-IsDistinct t (p ∷ ps) d = elim (Bool-cases (t p)) [
  | inl h ↦ simp h (select-Misses t p ps d.0, select-IsDistinct t ps d.1)
  | inr h ↦ simp h (select-IsDistinct t ps d.1)
]

AllPassed-young :
    {T : Type 0} (w : Volume T) (ps : List ℕ) → AllPassed w.fcbs ps → young false w ps ≡ []
AllPassed-young w [] h = refl
AllPassed-young w (p ∷ ps) h = simp h.0 (AllPassed-young w ps h.1)

AllPassed-aged :
    {T : Type 0} (w : Volume T) (ps : List ℕ) → AllPassed w.fcbs ps → aged false w ps ≡ ps
AllPassed-aged w [] h = refl
AllPassed-aged w (p ∷ ps) h = simp h.0 (ap (λ qs. p ∷ qs) (AllPassed-aged w ps h.1))

-- The state that a cycle is to reach.
pub record Emptied {T : Type 0} (v w : Volume T) : Type 0 where
  pub garbage : w.garbage ≡ []
  pub freed : w.freed ≡ (v.freed ++ aged false v v.garbage) ++ young false v v.garbage
  pub garbage_not_empty : w.garbage_not_empty ≡ false

-- Two passes in a row, the second of which finds that every grace period has passed.
two_passes :
    {T : Type 0} (ops : TableOps T) (v : Volume T)
    → IsDistinct v.garbage
    → let w = (delete_fcb_garbage_and_get_remaining_count ops false v).1 in
      ((delete_fcb_garbage_and_get_remaining_count ops false w).0 ≡ 0)
      × Emptied v (delete_fcb_garbage_and_get_remaining_count ops false w).1
two_passes ops v d =
    let w = (delete_fcb_garbage_and_get_remaining_count ops false v).1 in
    let h = pass-Swept ops false v d in
    let k = pass-Swept ops false w (rw h.garbage (select-IsDistinct _ v.garbage d)) in
    let none_left : young false w w.garbage ≡ [] =
      rw h.garbage (AllPassed-young w (young false v v.garbage) h.marked) in
    (
      k.count ∙ ap (λ ps. length ps) none_left,
      record {
        garbage = k.garbage ∙ none_left;
        freed =
            k.freed
            ∙ ap (λ ps. w.freed ++ aged false w ps) h.garbage
            ∙ ap (λ ps. w.freed ++ ps) (AllPassed-aged w (young false v v.garbage) h.marked)
            ∙ ap (λ ps. ps ++ young false v v.garbage) h.freed;
        garbage_not_empty =
            k.garbage_not_empty
            ∙ ap (λ ps. if length ps == 0 then false else w.garbage_not_empty) none_left;
      },
    )

ended :
    {T : Type 0} (n : ℕ) (w : Volume T) (rest : Option Status × Volume T)
    → n ≡ 0
    → (if (n == 0) && true then (some success, w) else rest) ≡ (some success, w)
ended n w rest h = simp h refl

and_false : (b : Bool) → (b && false) ≡ false
and_false true = refl
and_false false = refl

not_ended :
    {T : Type 0} (b : Bool) (x rest : Option Status × Volume T)
    → (if b && false then x else rest) ≡ rest
not_ended b x rest = simp (and_false b) refl

age_loop-first :
    {T : Type 0} (ops : TableOps T) (f : Volume T → Volume T) (ws : List (Wait T)) (v : Volume T)
    → age_loop ops false (timer f ∷ ws) v
      ≡ age_loop ops true ws (f (delete_fcb_garbage_and_get_remaining_count ops false v).1)
unfolding age_loop
age_loop-first ops f ws v =
    let (n, w) = delete_fcb_garbage_and_get_remaining_count ops false v in
    not_ended (n == 0) (some success, w) (age_loop ops true ws (f w))

age_loop-last :
    {T : Type 0} (ops : TableOps T) (ws : List (Wait T)) (v : Volume T)
    → (delete_fcb_garbage_and_get_remaining_count ops false v).0 ≡ 0
    → age_loop ops true ws v
      ≡ (some success, (delete_fcb_garbage_and_get_remaining_count ops false v).1)
unfolding age_loop
age_loop-last ops [] v h =
    let (n, w) = delete_fcb_garbage_and_get_remaining_count ops false v in ended n w (none, w) h
age_loop-last ops (release_event ∷ ws) v h =
    let (n, w) = delete_fcb_garbage_and_get_remaining_count ops false v in
    ended n w (some cancelled, w) h
age_loop-last ops (timer f ∷ ws) v h =
    let (n, w) = delete_fcb_garbage_and_get_remaining_count ops false v in
    ended n w (age_loop ops true ws (f w)) h

-- AgeAndDeleteFcbGarbage comes to its end by the first wait for the timer, if the garbage list has no duplicates and
-- no other thread changes the volume during the wait: it returns STATUS_SUCCESS with an empty garbage
-- list and a cleared event, and has freed every FCB of the list, first those whose grace period
-- had passed before.
pub cycle-Emptied :
    {T : Type 0} (ops : TableOps T) (ws : List (Wait T)) (v : Volume T)
    → IsDistinct v.garbage
    → ((age_and_delete_fcb_garbage ops (timer (λ w. w) ∷ ws) v).0 ≡ some success)
      × Emptied v (age_and_delete_fcb_garbage ops (timer (λ w. w) ∷ ws) v).1
unfolding age_and_delete_fcb_garbage
cycle-Emptied ops ws v d =
    let w = (delete_fcb_garbage_and_get_remaining_count ops false v).1 in
    let (n, e) = two_passes ops v d in
    rw (age_loop-first ops (λ w. w) ws v ∙ age_loop-last ops ws w n) (refl, e)
