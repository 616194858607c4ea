-- ===== src/Irps/Cancels.antt =====
-- dokan-sys/src/dokany/sys/event.c: IoCancelIrp, the cancel routines and the invariant.
use crv_virtual_disk.Prelude.{
  same, update, update_cases, ℕ, ◌+◌, ◌≤◌, ◌≡◌, sym, ap, ◌∙◌, inl, inr, none, some, arith, ◌==◌,
  ==_iff, Bool-cases, Option-cases,
}
use crv_virtual_disk.Irps.State.{State, Routine}
use crv_virtual_disk.Irps.Cancel.{io_cancel_irp}
use crv_virtual_disk.Irps.Weight.{token}
use crv_virtual_disk.Irps.Steps.{Valid, routines}

-- IoCancelIrp moves the routine of the IRP.
moved-token :
    (i j : ℕ) (s : State) {r : Routine}
    → s.cancel_routine i ≡ some r
    → token (update s.cancel_routine i none j) + token (update s.canceling i (some r) j)
      ≤ routines j s
moved-token i j s h = elim (Bool-cases (i == j)) [
  | inl p ↦
      simp p (omega (arith, ap (λ o. token o) (ap s.cancel_routine (sym ((==_iff i j).0 p)) ∙ h)))
  | inr p ↦ simp p (omega arith)
]

pub io_cancel_irp-Valid : (i : ℕ) (s : State) → Valid s → Valid (io_cancel_irp i s)
unfolding io_cancel_irp
io_cancel_irp-Valid i s v = elim (Option-cases (s.cancel_routine i)) [
  | inl p ↦ simp p (record {
    totals = v.totals;
    no_duplicates = v.no_duplicates;
    not_canceled = v.not_canceled;
    owners = v.owners;
  })
  | inr (r, p) ↦ simp p (record {
    totals = λ j. omega (arith, v.totals j, moved-token i j s p);
    no_duplicates = v.no_duplicates;
    not_canceled = v.not_canceled;
    owners = λ j e l. v.owners j e (omega (arith, l, moved-token i j s p));
  })
]

abbrev pub end_canceling : ℕ → State → State
end_canceling i s = record s { canceling = update s.canceling i none }

pub end_canceling-routines : (i j : ℕ) (s : State) → routines j (end_canceling i s) ≤ routines j s
end_canceling-routines i j s =
    update_cases (λ o. token (s.cancel_routine j) + token o ≤ routines j s) s.canceling i none j
      (λ p. omega arith) (λ p. omega arith)

-- The routine that is called is spent.
pub end_canceling-spent :
    (i j : ℕ) (s : State) {r : Routine}
    → s.canceling i ≡ some r
    → routines j (end_canceling i s) + same i j ≤ routines j s
end_canceling-spent i j s h = elim (Bool-cases (i == j)) [
  | inl p ↦ simp p (omega (arith, ap (λ o. token o) (ap s.canceling (sym ((==_iff i j).0 p)) ∙ h)))
  | inr p ↦ simp p (omega arith)
]

pub end_canceling-Valid : (i : ℕ) (s : State) → Valid s → Valid (end_canceling i s)
end_canceling-Valid i s v = record {
  totals = λ j. omega (arith, v.totals j, end_canceling-routines i j s);
  no_duplicates = v.no_duplicates;
  not_canceled = v.not_canceled;
  owners = λ j e l. v.owners j e (omega (arith, l, end_canceling-routines i j s));
}
