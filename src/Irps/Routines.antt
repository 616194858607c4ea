-- ===== src/Irps/Routines.antt =====
-- dokan-sys/src/dokany/sys/event.c: DokanCreateIrpCancelRoutine, DokanIrpCancelRoutine and the
-- invariant.
use crv_virtual_disk.Prelude.{
  sum_in_mono, sum_in, sum_in-update, same, update, update_cases, ℕ, ◌+◌, ◌*◌, ◌≤◌, ◌≡◌, refl, ap,
  ◌∙◌, Option, none, some, arith,
}
use crv_virtual_disk.Irps.State.{create_irp_cancel_routine, irp_cancel_routine, State, Routine}
use crv_virtual_disk.Irps.Cancel.{
  mark_forced, force_entry, run_routine, run_create_irp_cancel_routine, run_irp_cancel_routine,
  run_cancel_routine,
}
use crv_virtual_disk.Irps.Weight.{no_irp, null_irp, token, is_irp, forced, forced_in}
use crv_virtual_disk.Irps.Cancels.{
  end_canceling, end_canceling-spent, end_canceling-routines, end_canceling-Valid,
}
use crv_virtual_disk.Irps.Steps.{Valid}
use crv_virtual_disk.Irps.Unlinks.{run_irp_cancel_routine-Valid}

force_entry-Valid :
    (i e : ℕ) (s : State) {r : Routine}
    → s.canceling i ≡ some r
    → s.linked i ≡ some e
    → Valid s
    → Valid (force_entry i (some e) (end_canceling i s))
force_entry-Valid i e s h k v = record {
  totals = λ j. grind (arith, v.totals j, end_canceling-spent i j s h, grows j, v.no_duplicates e);
  no_duplicates = v.no_duplicates;
  not_canceled = omega (
    arith,
    v.not_canceled,
    sum_in_mono (λ x. no_irp (update s.entries e (mark_forced (s.entries e)) x))
        (λ x. no_irp (s.entries x)) s.pending
        (λ x. omega (arith, ap (λ y. null_irp y) (same_irp x))),
  );
  owners = λ j x l p. same_irp x ∙ v.owners j x (omega (arith, l, end_canceling-routines i j s)) p;
}
  where
    owner : (s.entries e).irp ≡ some i
    owner = v.owners i e (omega (arith, ap (λ o. token o) h)) k

    same_irp : (x : ℕ) → (update s.entries e (mark_forced (s.entries e)) x).irp ≡ (s.entries x).irp
    same_irp x =
        update_cases (λ y. y.irp ≡ (s.entries x).irp) s.entries e (mark_forced (s.entries e)) x
          (λ p. ap (λ y. (s.entries y).irp) p) (λ p. refl)

    grows :
        (j : ℕ)
        → forced_in j (update s.entries e (mark_forced (s.entries e))) s.pending
          ≤ forced_in j s.entries s.pending + same i j * sum_in (same e) s.pending
    grows j =
        sum_in-update (forced j) s.entries e (mark_forced (s.entries e)) (same i j) s.pending
          (omega (arith, ap (λ o. is_irp j o) owner))

run_create-Valid :
    (i : ℕ) (o : Option ℕ) (s : State) {r : Routine}
    → s.canceling i ≡ some r
    → s.linked i ≡ o
    → Valid s
    → Valid (force_entry i o (end_canceling i s))
run_create-Valid i none s h k v = end_canceling-Valid i s v
run_create-Valid i (some e) s h k v = force_entry-Valid i e s h k v

run_routine-Valid :
    (i : ℕ) (r : Routine) (s : State)
    → s.canceling i ≡ some r
    → Valid s
    → Valid (run_routine (some r) i (end_canceling i s))
unfolding run_routine run_create_irp_cancel_routine run_irp_cancel_routine
run_routine-Valid i create_irp_cancel_routine s h v = run_create-Valid i (s.linked i) s h refl v
run_routine-Valid i irp_cancel_routine s h v =
    run_irp_cancel_routine-Valid i (s.linked i) s h refl v

run_taken-Valid :
    (i : ℕ) (o : Option Routine) (s : State)
    → s.canceling i ≡ o
    → Valid s
    → Valid (run_routine o i (end_canceling i s))
unfolding run_routine
run_taken-Valid i none s h v = end_canceling-Valid i s v
run_taken-Valid i (some r) s h v = run_routine-Valid i r s h v

pub run_cancel_routine-Valid : (i : ℕ) (s : State) → Valid s → Valid (run_cancel_routine i s)
unfolding run_cancel_routine
run_cancel_routine-Valid i s v = run_taken-Valid i (s.canceling i) s refl v
