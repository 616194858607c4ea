-- ===== src/Irps/Release.antt =====
-- dokan-sys/src/dokany/sys/notification.c: MoveIrpList and ReleasePendingIrp.
use crv_virtual_disk.Prelude.{
  ℕ, Bool, true, false, List, [], ◌∷◌, Option, none, some, if◌then◌else◌,
}
use crv_virtual_disk.Irps.State.{
  State, Routine, status_cancelled, with_status, set_routine, complete_irp_request, free_irp_entry,
  leave_to_routine, execute_cleanup,
}

-- Whether IoSetCancelRoutine(irp, NULL) takes the routine, and the state behind the entry `e`.
abbrev pub take_or_leave : ℕ → ℕ → Option Routine → State → Bool × State
take_or_leave e i none s = (false, leave_to_routine e s)
take_or_leave e i (some r) s = (true, set_routine i none s)

-- What becomes of an entry that was taken from the list: a canceled one is freed, one whose routine is
-- to run is left to it, and others are to be completed.
abbrev pub claim_irp : ℕ → Option ℕ → State → Bool × State
claim_irp e none s = (false, free_irp_entry e s)
claim_irp e (some i) s = take_or_leave e i (s.cancel_routine i) s

unfoldable pub claim : ℕ → State → Bool × State
claim e s = claim_irp e (s.entries e).irp s

abbrev pub keep_if : Bool → ℕ → List ℕ → List ℕ
keep_if true e es = e ∷ es
keep_if false e es = es

-- The loop of MoveIrpList over the list's entries.
unfoldable pub move_loop : List ℕ → State → List ℕ × State
unfolding claim
move_loop [] s = ([], s)
move_loop (e ∷ es) s =
    let (taken, t) = claim e s in let (rest, u) = move_loop es t in (keep_if taken e rest, u)

unfoldable pub move_irp_list : State → List ℕ × State
unfolding move_loop
move_irp_list s = let (dest, t) = move_loop s.pending s in (dest, record t { pending = [] })

abbrev pub cancel_irp : ℕ → ℕ → Option ℕ → State → State
cancel_irp e major none s = s
cancel_irp e major (some i) s =
    complete_irp_request i (with_status status_cancelled) (execute_cleanup major i s)

-- A round of the loop of ReleasePendingIrp. An entry of the list has an IRP.
unfoldable pub cancel_entry : ℕ → State → State
cancel_entry e s = cancel_irp e (s.entries e).major_function (s.entries e).irp (free_irp_entry e s)

unfoldable pub cancel_entries : List ℕ → State → State
unfolding cancel_entry
cancel_entries [] s = s
cancel_entries (e ∷ es) s = cancel_entries es (cancel_entry e s)

unfoldable pub release_pending_irp : State → State
unfolding move_irp_list cancel_entries
release_pending_irp s = let (dest, t) = move_irp_list s in cancel_entries dest t

-- The part of DokanEventRelease that acts on the pending IRPs.
unfoldable pub event_release : State → State
unfolding release_pending_irp
event_release s =
    if s.unmount_pending then s else release_pending_irp (record s { unmount_pending = true })
