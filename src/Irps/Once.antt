-- ===== src/Irps/Once.antt =====
-- dokan-sys/src/dokany/sys/event.c, notification.c and timeout.c: every sequence of steps.
use crv_virtual_disk.Prelude.{ℕ, ◌≤◌, ◌≡◌, refl, ap, subst, Bool, [], none, arith, length}
use crv_virtual_disk.Memory.{Outcome, ok}
use crv_virtual_disk.Irps.State.{State}
use crv_virtual_disk.Irps.Timeout.{release_timeout_pending_irp}
use crv_virtual_disk.Irps.Complete.{Batch, complete_irp}
use crv_virtual_disk.Irps.Weight.{token}
use crv_virtual_disk.Irps.Selections.{Holds}
use crv_virtual_disk.Irps.Steps.{
  Step, register, io_cancel, run_cancel, release_pending, release_event, release_timeout,
  reset_timeout, complete, Reachable, here, next, Valid,
}
use crv_virtual_disk.Irps.Preserves.{
  Leads, Leads-Valid, release_pending_irp-Leads, event_release-Leads,
  release_timeout_pending_irp-Leads, complete_irp-Leads,
}
use crv_virtual_disk.Irps.Cancels.{io_cancel_irp-Valid}
use crv_virtual_disk.Irps.Routines.{run_cancel_routine-Valid}
use crv_virtual_disk.Irps.Registers.{register_pending_irp_main-Valid}
use crv_virtual_disk.Irps.Resets.{reset_pending_irp_timeout-Valid}
use crv_virtual_disk.Irps.Progress.{
  Ends-result, release_timeout_pending_irp-Ends, complete_irp-Ends,
}

-- A device without pending IRPs, before its first request.
pub record Idle (s : State) : Type 0 where
  pub no_pending : s.pending ≡ []
  pub no_routines : (i : ℕ) → s.cancel_routine i ≡ none
  pub no_canceling : (i : ℕ) → s.canceling i ≡ none
  pub no_completions : (i : ℕ) → s.completions i ≡ []

Idle-Valid : {s : State} → Idle s → Valid s
Idle-Valid h = record {
  totals =
      λ i. rw (h.no_pending, h.no_routines i, h.no_canceling i, h.no_completions i) (omega arith);
  no_duplicates = λ e. rw h.no_pending (omega arith);
  not_canceled = rw h.no_pending refl;
  owners = λ i e l p.
      grind (arith, l, ap (λ o. token o) (h.no_routines i), ap (λ o. token o) (h.no_canceling i));
}

Holds-ok {ℓ} : {A : Type ℓ} (P : A → Type 0) (o : Outcome A) {x : A} → o ≡ ok x → Holds P o → P x
Holds-ok P o p h = subst (λ q. Holds P q) p h

Step-Valid : {s t : State} → Step s t → Valid s → Valid t
Step-Valid (register r s f n h) v = register_pending_irp_main-Valid r s f n h v
Step-Valid (io_cancel i s) v = io_cancel_irp-Valid i s v
Step-Valid (run_cancel i s) v = run_cancel_routine-Valid i s v
Step-Valid (release_pending s) v = Leads-Valid (release_pending_irp-Leads s) v
Step-Valid (release_event s) v = Leads-Valid (event_release-Leads s) v
Step-Valid (release_timeout ticks keepalive s p) v =
    Leads-Valid
      (Holds-ok (Leads s) (release_timeout_pending_irp ticks keepalive s) p
        (release_timeout_pending_irp-Leads ticks keepalive s))
      v
Step-Valid (reset_timeout ticks increment serial timeout s) v =
    reset_pending_irp_timeout-Valid ticks increment serial timeout s v
Step-Valid (complete b s p) v =
    Leads-Valid (Holds-ok (λ r. Leads s r.1) (complete_irp b s) p (complete_irp-Leads b s)) v

Reachable-Valid : {s t : State} → Idle s → Reachable s t → Valid t
Reachable-Valid h here = Idle-Valid h
Reachable-Valid h (next r q) = Step-Valid q (Reachable-Valid h r)

-- From a device without pending IRPs, whatever sequence of registrations of new IRPs in unused
-- memory, cancellations, runs of cancel routines, releases, timeouts, resets and batches of
-- replies follows, no IRP was completed more than once.
pub completed_once : (s t : State) → Idle s → Reachable s t → (i : ℕ) → length (t.completions i) ≤ 1
completed_once s t h r i = omega (arith, (Reachable-Valid h r).totals i)

-- In every state that a device without pending IRPs gets to by registrations of new IRPs in
-- unused memory, cancellations, runs of cancel routines, releases, timeouts, resets and batches
-- of replies, the timeout of the pending IRPs and every further batch of replies come to a
-- result: neither of them finds an entry of the list without an IRP, which the one would
-- dereference, and the other free and then read.
pub replies_end :
    (s t : State)
    → Idle s
    → Reachable s t
    → (ticks : ℕ) (keepalive : Bool) (b : Batch)
    → ((u : State) × (release_timeout_pending_irp ticks keepalive t ≡ ok u))
      × ((r : ℕ × State) × (complete_irp b t ≡ ok r))
replies_end s t h r ticks keepalive b =
    let v = Reachable-Valid h r in
    (
      Ends-result (release_timeout_pending_irp ticks keepalive t)
          (release_timeout_pending_irp-Ends ticks keepalive t v),
      Ends-result (complete_irp b t) (complete_irp-Ends b t v),
    )
