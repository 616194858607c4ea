-- ===== src/Irps/Steps.antt =====
-- dokan-sys/src/dokany/sys/event.c, notification.c and timeout.c: the steps by which a device's pending
-- IRPs change, each one operation of the driver or of the I/O manager.
use crv_virtual_disk.Prelude.{sum_in, same, ℕ, ◌+◌, ◌≤◌, ◌≡◌, Bool, false, [], none, some}
use crv_virtual_disk.Memory.{ok}
use crv_virtual_disk.Irps.State.{State}
use crv_virtual_disk.Irps.Register.{Registration, register_pending_irp_main}
use crv_virtual_disk.Irps.Cancel.{io_cancel_irp, run_cancel_routine}
use crv_virtual_disk.Irps.Release.{release_pending_irp, event_release}
use crv_virtual_disk.Irps.Timeout.{release_timeout_pending_irp, reset_pending_irp_timeout}
use crv_virtual_disk.Irps.Complete.{Batch, complete_irp}
use crv_virtual_disk.Irps.Weight.{token, canceled_in, irps_in, total}

-- An IRP that the I/O manager hands to the driver for the first time.
pub record NewIrp (i : ℕ) (s : State) : Type 0 where
  pub routine : s.cancel_routine i ≡ none
  pub not_canceling : s.canceling i ≡ none
  pub not_completed : s.completions i ≡ []
  pub not_pending : irps_in i s.entries s.pending ≡ 0

abbrev pub routines : ℕ → State → ℕ
routines i s = token (s.cancel_routine i) + token (s.canceling i)

-- Memory from DokanAllocateIrpEntry: the list does not have it, and no cancel routine will use it.
pub record FreshEntry (e : ℕ) (s : State) : Type 0 where
  pub not_pending : sum_in (same e) s.pending ≡ 0
  pub not_used : (i : ℕ) → s.linked i ≡ some e → routines i s ≡ 0

-- A step of the driver or of the I/O manager; a step that reads freed memory is none.
pub data Step : State → State → Type 0 where
  register :
      (r : Registration) (s : State)
      → r.forced_canceled ≡ false
      → NewIrp r.irp s
      → ((e : ℕ) → r.entry ≡ some e → FreshEntry e s)
      → Step s (register_pending_irp_main r s).0
  io_cancel : (i : ℕ) (s : State) → Step s (io_cancel_irp i s)
  run_cancel : (i : ℕ) (s : State) → Step s (run_cancel_routine i s)
  release_pending : (s : State) → Step s (release_pending_irp s)
  release_event : (s : State) → Step s (event_release s)
  release_timeout :
      (ticks : ℕ) (keepalive : Bool) (s : State) {t : State}
      → release_timeout_pending_irp ticks keepalive s ≡ ok t
      → Step s t
  reset_timeout :
      (ticks increment serial timeout : ℕ) (s : State)
      → Step s (reset_pending_irp_timeout ticks increment serial timeout s)
  complete :
      (b : Batch) (s : State) {status : ℕ} {t : State}
      → complete_irp b s ≡ ok (status, t)
      → Step s t

pub data Reachable (s : State) : State → Type 0 where
  here : Reachable s s
  next : {t u : State} → Reachable s t → Step t u → Reachable s u

-- What holds between two steps.
pub record Valid (s : State) : Type 0 where
  pub totals : (i : ℕ) → total i s ≤ 1
  pub no_duplicates : (e : ℕ) → sum_in (same e) s.pending ≤ 1
  pub not_canceled : canceled_in s.entries s.pending ≡ 0
  pub owners : (i e : ℕ) → 1 ≤ routines i s → s.linked i ≡ some e → (s.entries e).irp ≡ some i
