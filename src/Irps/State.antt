-- ===== src/Irps/State.antt =====
-- dokan-sys/src/dokany/sys: IRP_ENTRY, IRP_LIST and what the driver uses of an IRP. Each field that
-- changes is a function from addresses.
use crv_virtual_disk.Prelude.{
  update, ℕ, Bool, true, List, [], ◌∷◌, ◌++◌, Option, ◌==◌, if◌then◌else◌,
}

abbrev pub irp_mj_create : ℕ
irp_mj_create = 0x00

abbrev pub irp_mj_write : ℕ
irp_mj_write = 0x04

abbrev pub irp_mj_cleanup : ℕ
irp_mj_cleanup = 0x12

abbrev pub status_success : ℕ
status_success = 0

abbrev pub status_pending : ℕ
status_pending = 0x103

abbrev pub status_buffer_overflow : ℕ
status_buffer_overflow = 0x80000005

abbrev pub status_invalid_parameter : ℕ
status_invalid_parameter = 0xC000000D

abbrev pub status_no_such_device : ℕ
status_no_such_device = 0xC000000E

abbrev pub status_buffer_too_small : ℕ
status_buffer_too_small = 0xC0000023

abbrev pub status_insufficient_resources : ℕ
status_insufficient_resources = 0xC000009A

abbrev pub status_cancelled : ℕ
status_cancelled = 0xC0000120

-- DokanCreateIrpCancelRoutine and DokanIrpCancelRoutine.
pub data Routine : Type 0 where
  create_irp_cancel_routine : Routine
  irp_cancel_routine : Routine

-- What is read of an EVENT_INFORMATION.
pub record Reply : Type 0 where
  pub serial_number : ℕ
  pub status : ℕ
  pub buffer_length : ℕ

-- How an IRP was completed: with a status and Information 0, by DokanCancelCreateIrp, or by the
-- completion function of its kind with a reply.
pub data Completion : Type 0 where
  with_status : ℕ → Completion
  canceled_create : ℕ → Completion
  replied : Reply → Completion

-- IRP_ENTRY, but for its links.
pub record Entry : Type 0 where
  pub serial_number : ℕ
  pub irp : Option ℕ
  pub major_function : ℕ
  pub tick_count : ℕ
  pub async_status : ℕ
  pub forced_canceled : Bool

-- `pending` is the list of the device's PendingIrp, whose event is never set, `cancel_routine` what IoSetCancelRoutine exchanges,
-- `canceling` that IoCancelIrp took the routine and did not run it yet, and `linked` and `event` are the
-- two slots of DriverContext. `cleanups` are the IRPs of DokanExecuteCleanup.
pub record State : Type 0 where
  pub pending : List ℕ
  pub entries : ℕ → Entry
  pub freed : ℕ → Bool
  pub cancel_routine_free_memory : ℕ → Bool
  pub cancel : ℕ → Bool
  pub cancel_routine : ℕ → Option Routine
  pub canceling : ℕ → Option Routine
  pub linked : ℕ → Option ℕ
  pub event : ℕ → Option ℕ
  pub completions : ℕ → List Completion
  pub cleanups : List ℕ
  pub freed_events : List ℕ
  pub force_timeout : Bool
  pub serial_number : ℕ
  pub unmount_pending : Bool

abbrev pub set_routine : ℕ → Option Routine → State → State
set_routine i r s = record s { cancel_routine = update s.cancel_routine i r }

abbrev pub complete_irp_request : ℕ → Completion → State → State
complete_irp_request i c s = record s {
  completions = update s.completions i (s.completions i ++ c ∷ []);
}

abbrev pub free_irp_entry : ℕ → State → State
free_irp_entry e s = record s { freed = update s.freed e true }

abbrev pub leave_to_routine : ℕ → State → State
leave_to_routine e s = record s {
  cancel_routine_free_memory = update s.cancel_routine_free_memory e true;
}

abbrev pub execute_cleanup : ℕ → ℕ → State → State
execute_cleanup major i s =
    if major == irp_mj_cleanup then record s { cleanups = s.cleanups ++ i ∷ [] } else s
