-- ===== src/Irps/Resets.antt =====
-- dokan-sys/src/dokany/sys/timeout.c: the reset of an IRP's timeout and the invariant.
use crv_virtual_disk.Prelude.{
  sum_in_mono, update, update_cases, ℕ, ◌≤◌, ◌≡◌, ap, ◌∙◌, inl, inr, List, [], ◌∷◌, some, arith,
  ◌==◌, Bool-cases,
}
use crv_virtual_disk.Irps.State.{State}
use crv_virtual_disk.Irps.Register.{update_timeout}
use crv_virtual_disk.Irps.Timeout.{reset_first, reset_pending_irp_timeout, capped}
use crv_virtual_disk.Irps.Weight.{no_irp, forced}
use crv_virtual_disk.Irps.Steps.{Valid}

reset_entry-Valid :
    (e n : ℕ) (s : State)
    → Valid s
    → Valid (record s { entries = update s.entries e (record (s.entries e) { tick_count = n }) })
reset_entry-Valid e n s v = record {
  totals = λ i. omega (
    arith,
    v.totals i,
    sum_in_mono (λ x. forced i (update s.entries e (record (s.entries e) { tick_count = n }) x))
        (λ x. forced i (s.entries x)) s.pending
        (λ x.
          update_cases (λ y. forced i y ≤ forced i (s.entries x)) s.entries e
            (record (s.entries e) { tick_count = n }) x
            (λ p. omega (arith, ap (λ y. forced i (s.entries y)) p)) (λ p. omega arith)),
  );
  no_duplicates = v.no_duplicates;
  not_canceled = omega (
    arith,
    v.not_canceled,
    sum_in_mono (λ x. no_irp (update s.entries e (record (s.entries e) { tick_count = n }) x))
        (λ x. no_irp (s.entries x)) s.pending
        (λ x.
          update_cases (λ y. no_irp y ≤ no_irp (s.entries x)) s.entries e
            (record (s.entries e) { tick_count = n }) x
            (λ p. omega (arith, ap (λ y. no_irp (s.entries y)) p)) (λ p. omega arith)),
  );
  owners = λ i x l p.
      update_cases (λ y. y.irp ≡ some i) s.entries e (record (s.entries e) { tick_count = n }) x
        (λ q. ap (λ y. (s.entries y).irp) q ∙ v.owners i x l p) (λ q. v.owners i x l p);
}

reset_first-Valid :
    (es : List ℕ) (serial n : ℕ) (s : State) → Valid s → Valid (reset_first es serial n s)
unfolding reset_first
reset_first-Valid [] serial n s v = v
reset_first-Valid (e ∷ es) serial n s v =
    elim (Bool-cases ((s.entries e).serial_number == serial)) [
      | inl p ↦ simp p (reset_entry-Valid e n s v)
      | inr p ↦ simp p (reset_first-Valid es serial n s v)
    ]

pub reset_pending_irp_timeout-Valid :
    (ticks increment serial timeout : ℕ) (s : State)
    → Valid s
    → Valid (reset_pending_irp_timeout ticks increment serial timeout s)
unfolding reset_pending_irp_timeout
reset_pending_irp_timeout-Valid ticks increment serial timeout s v =
    reset_first-Valid s.pending serial (update_timeout ticks increment (capped timeout)) s v
