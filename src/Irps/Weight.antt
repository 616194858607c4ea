-- ===== src/Irps/Weight.antt =====
-- dokan-sys/src/dokany/sys: how often an IRP of the driver's pending list was completed or still can
-- be.
use crv_virtual_disk.Prelude.{
  sum_in, same, ℕ, ◌+◌, Bool, true, false, List, Option, none, some, length,
}
use crv_virtual_disk.Irps.State.{State, Entry, Routine}

-- 1 for a cancel routine, 0 for NULL.
abbrev pub token : Option Routine → ℕ
token none = 0
token (some r) = 1

-- 1 for the IRP itself.
abbrev pub is_irp : ℕ → Option ℕ → ℕ
is_irp i none = 0
is_irp i (some j) = same j i

abbrev pub when : Bool → ℕ → ℕ
when true n = n
when false n = 0

abbrev pub forced : ℕ → Entry → ℕ
forced i entry = when entry.forced_canceled (is_irp i entry.irp)

-- 1 for NULL.
abbrev pub null_irp : Option ℕ → ℕ
null_irp none = 1
null_irp (some i) = 0

abbrev pub no_irp : Entry → ℕ
no_irp entry = null_irp entry.irp

abbrev pub irps_in : ℕ → (ℕ → Entry) → List ℕ → ℕ
irps_in i entries es = sum_in (λ e. is_irp i (entries e).irp) es

abbrev pub forced_in : ℕ → (ℕ → Entry) → List ℕ → ℕ
forced_in i entries es = sum_in (λ e. forced i (entries e)) es

abbrev pub canceled_in : (ℕ → Entry) → List ℕ → ℕ
canceled_in entries es = sum_in (λ e. no_irp (entries e)) es

-- The routines of an IRP that can still be taken or are still to be called, and its completions.
abbrev pub weight : ℕ → State → ℕ
weight i s = token (s.cancel_routine i) + token (s.canceling i) + length (s.completions i)

-- With the forced entries of the pending list, which the timeout thread completes.
abbrev pub total : ℕ → State → ℕ
total i s = weight i s + forced_in i s.entries s.pending
