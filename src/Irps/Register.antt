-- ===== src/Irps/Register.antt =====
-- dokan-sys/src/dokany/sys/event.c and timeout.c: the registration of a pending IRP.
use crv_virtual_disk.Prelude.{
  update, ℕ, ◌+◌, ◌*◌, ◌/◌, ◌%◌, ◌^◌, Bool, false, not, ◌&&◌, List, [], ◌∷◌, ◌++◌, Option, none,
  some, ltb, ◌==◌, if◌then◌else◌,
}
use crv_virtual_disk.Irps.State.{
  State, Entry, Routine, create_irp_cancel_routine, irp_cancel_routine, irp_mj_create, irp_mj_write,
  status_pending, status_no_such_device, status_insufficient_resources, status_cancelled,
  status_invalid_parameter, free_irp_entry,
}

-- DokanUpdateTimeout: `ticks` is the tick count and `increment` the time of a tick. The product is one
-- of ULONGs.
unfoldable pub update_timeout : ℕ → ℕ → ℕ → ℕ
update_timeout ticks increment timeout = ticks + timeout * 1000 * 10 % 2 ^ 32 / increment

-- What the request and the device give. `unmounting` and `unmounting_locked` are the two reads of the
-- volume's flag, `timeout` the device's IrpTimeout, `entry` the answer of DokanAllocateIrpEntry.
pub record Registration : Type 0 where
  pub irp : ℕ
  pub major_function : ℕ
  pub forced_canceled : Bool
  pub unmounting : Bool
  pub unmounting_locked : Bool
  pub entry : Option ℕ
  pub has_event_context : Bool
  pub status : ℕ
  pub ticks : ℕ
  pub increment : ℕ
  pub timeout : ℕ

abbrev pub routine_of : ℕ → Routine
routine_of major = if major == irp_mj_create then create_irp_cancel_routine else irp_cancel_routine

abbrev pub new_entry : Registration → ℕ → Entry
new_entry r serial = record {
  serial_number = serial;
  irp = some r.irp;
  major_function = r.major_function;
  tick_count = update_timeout r.ticks r.increment r.timeout;
  async_status = r.status;
  forced_canceled = r.forced_canceled;
}

-- The serial number for the event context, if there is one.
abbrev pub next_serial : Registration → State → ℕ
next_serial r s = if r.has_event_context then (s.serial_number + 1) % 2 ^ 32 else 0

abbrev pub counted : Registration → State → State
counted r s =
    if r.has_event_context then record s { serial_number = (s.serial_number + 1) % 2 ^ 32 } else s

-- The insertion under the list's lock, with the cancel routine of the IRP set.
abbrev pub insert_entry : Registration → ℕ → Entry → State → State × ℕ
insert_entry r e entry s = (
  record s {
    pending = s.pending ++ e ∷ [];
    entries = update s.entries e entry;
    freed = update s.freed e false;
    cancel_routine_free_memory = update s.cancel_routine_free_memory e false;
    cancel_routine = update s.cancel_routine r.irp (some (routine_of r.major_function));
    linked = update s.linked r.irp (some e);
  },
  status_pending,
)

-- IoCancelIrp has set Cancel before the routine was there: the routine is taken back.
unfoldable pub register_entry : Registration → ℕ → State → State × ℕ
unfolding update_timeout
register_entry r e s =
    if s.cancel r.irp
    then (free_irp_entry e (counted r s), status_cancelled)
    else insert_entry r e (new_entry r (next_serial r s)) (counted r s)

unfoldable pub register_with : Registration → Option ℕ → State → State × ℕ
unfolding register_entry
register_with r none s = (s, status_insufficient_resources)
register_with r (some e) s =
    if r.unmounting_locked
    then (free_irp_entry e s, status_no_such_device)
    else register_entry r e s

-- RegisterPendingIrpMain for a volume, with CheckMount.
unfoldable pub register_pending_irp_main : Registration → State → State × ℕ
unfolding register_with
register_pending_irp_main r s =
    if r.unmounting then (s, status_no_such_device) else register_with r r.entry s

-- The event contexts that wait in NotifyEvent, and those that were freed.
pub record Notified : Type 0 where
  pub state : State
  pub waiting : List ℕ
  pub dropped : List ℕ
  pub status : ℕ

abbrev pub notify : ℕ → List ℕ → List ℕ → State × ℕ → Notified
notify context waiting dropped (s, status) =
    if status == status_pending
    then record { state = s; waiting = waiting ++ context ∷ []; dropped = dropped; status = status }
    else record { state = s; waiting = waiting; dropped = dropped ++ context ∷ []; status = status }

-- DokanRegisterPendingIrp for the event context at `context`, of `length` bytes.
unfoldable pub register_pending_irp : ℕ → ℕ → ℕ → Registration → List ℕ → List ℕ → State → Notified
unfolding register_pending_irp_main
register_pending_irp max context length r waiting dropped s = notify context waiting dropped (
    if not (r.major_function == irp_mj_write) && ltb max length
    then (s, status_invalid_parameter)
    else register_pending_irp_main r s)
