-- ===== src/Irps/Cancel.antt =====
-- dokan-sys/src/dokany/sys/event.c: the cancel routines, and IoCancelIrp, which takes the routine of an
-- IRP and runs it later.
use crv_virtual_disk.Prelude.{
  update, remove, ℕ, true, List, [], ◌∷◌, ◌++◌, Option, none, some, ◌==◌, if◌then◌else◌,
}
use crv_virtual_disk.Irps.State.{
  State, Entry, Routine, create_irp_cancel_routine, irp_cancel_routine, irp_mj_write,
  status_cancelled, with_status, complete_irp_request, execute_cleanup,
}

-- IoCancelIrp, up to the call of the routine.
unfoldable pub io_cancel_irp : ℕ → State → State
io_cancel_irp i s = take_routine (s.cancel_routine i)
  where
    take_routine : Option Routine → State
    take_routine none = record s { cancel = update s.cancel i true }
    take_routine (some r) = record s {
      cancel = update s.cancel i true;
      cancel_routine = update s.cancel_routine i none;
      canceling = update s.canceling i (some r);
    }

abbrev pub mark_forced : Entry → Entry
mark_forced entry = record entry {
  tick_count = 0;
  async_status = status_cancelled;
  forced_canceled = true;
}

abbrev pub force_entry : ℕ → Option ℕ → State → State
force_entry i none s = s
force_entry i (some e) s = record s {
  event = update s.event i none;
  entries = update s.entries e (mark_forced (s.entries e));
  force_timeout = true;
}

-- DokanCreateIrpCancelRoutine.
unfoldable pub run_create_irp_cancel_routine : ℕ → State → State
run_create_irp_cancel_routine i s = force_entry i (s.linked i) s

abbrev pub event_list : Option ℕ → List ℕ
event_list none = []
event_list (some c) = c ∷ []

abbrev pub drop_write_event : ℕ → ℕ → State → State
drop_write_event major i s =
    if major == irp_mj_write
    then record s {
      event = update s.event i none;
      freed_events = s.freed_events ++ event_list (s.event i);
    }
    else execute_cleanup major i s

abbrev pub unlink_entry : ℕ → Option ℕ → State → State
unlink_entry i none s = s
unlink_entry i (some e) s =
    let t =
      drop_write_event (s.entries e).major_function i (record s { pending = remove e s.pending }) in
    record t {
      entries = update t.entries e (record (t.entries e) { irp = none });
      freed = if t.cancel_routine_free_memory e then update t.freed e true else t.freed;
      linked = update t.linked i none;
    }

-- DokanIrpCancelRoutine, with a request context that can be built.
unfoldable pub run_irp_cancel_routine : ℕ → State → State
run_irp_cancel_routine i s =
    complete_irp_request i (with_status status_cancelled) (unlink_entry i (s.linked i) s)

unfoldable pub run_routine : Option Routine → ℕ → State → State
unfolding run_create_irp_cancel_routine run_irp_cancel_routine
run_routine none i s = s
run_routine (some create_irp_cancel_routine) i s = run_create_irp_cancel_routine i s
run_routine (some irp_cancel_routine) i s = run_irp_cancel_routine i s

-- The call of the routine that IoCancelIrp took.
unfoldable pub run_cancel_routine : ℕ → State → State
unfolding run_routine
run_cancel_routine i s =
    run_routine (s.canceling i) i (record s { canceling = update s.canceling i none })
