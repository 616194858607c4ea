-- ===== src/Irps/Timeout.antt =====
-- dokan-sys/src/dokany/sys/timeout.c: ReleaseTimeoutPendingIrp and DokanResetPendingIrpTimeout.
use crv_virtual_disk.Prelude.{
  update, ℕ, not, ◌&&◌, Bool, true, false, List, [], ◌∷◌, Option, none, some, ltb, ◌==◌,
  if◌then◌else◌,
}
use crv_virtual_disk.Memory.{Outcome, ok, fault, ◌>>=◌, map_outcome}
use crv_virtual_disk.Irps.State.{
  State, Entry, Completion, with_status, canceled_create, irp_mj_create, status_success,
  status_cancelled, status_insufficient_resources, set_routine, complete_irp_request,
  free_irp_entry, execute_cleanup,
}
use crv_virtual_disk.Irps.Register.{update_timeout}
use crv_virtual_disk.Irps.Release.{claim, event_release, keep_if}

abbrev pub unlink : Option ℕ → State → State
unlink none s = s
unlink (some i) s = record s { linked = update s.linked i none }

-- A forced entry is claimed whatever its cancel routine is; its IRP is dereferenced.
abbrev pub claim_forced : Option ℕ → State → Outcome (Bool × State)
claim_forced none s = fault
claim_forced (some i) s = ok (true, set_routine i none s)

-- The body of the loop, for an entry that is taken from the list.
unfoldable pub claim_timed_out : ℕ → State → Outcome (Bool × State)
unfolding claim
claim_timed_out e s =
    if (s.entries e).forced_canceled then claim_forced (s.entries e).irp s else ok (claim e s)

abbrev pub is_waiting : ℕ → Entry → Bool
is_waiting ticks entry = entry.async_status == status_success && ltb ticks entry.tick_count

abbrev pub unlink_if : Bool → Option ℕ → State → State
unlink_if true i s = unlink i s
unlink_if false i s = s

-- The entries that stay in the list, and those that are to be completed.
pub record Sorted : Type 0 where
  pub kept : List ℕ
  pub complete : List ℕ
  pub state : State

abbrev pub keep_waiting : ℕ → Sorted → Sorted
keep_waiting e d = record d { kept = e ∷ d.kept }

abbrev pub add_complete : Bool → ℕ → Sorted → Sorted
add_complete taken e d = record d { complete = keep_if taken e d.complete }

unfoldable pub timeout_loop : ℕ → List ℕ → State → Outcome Sorted
unfolding claim_timed_out
timeout_loop ticks [] s = ok (record { kept = []; complete = []; state = s })
timeout_loop ticks (e ∷ es) s =
    if is_waiting ticks (s.entries e)
    then map_outcome (keep_waiting e) (timeout_loop ticks es s)
    else claim_timed_out e s >>= λ r.
        map_outcome (add_complete r.0 e)
          (timeout_loop ticks es (unlink_if r.0 (s.entries e).irp r.1))

-- DokanCancelCreateIrp for a Create request.
abbrev pub timeout_completion : Entry → Completion
timeout_completion entry =
    if entry.major_function == irp_mj_create
    then canceled_create
        (if entry.tick_count == 0 then status_cancelled else status_insufficient_resources)
    else with_status status_insufficient_resources

abbrev pub complete_entry : Entry → Option ℕ → State → State
complete_entry entry none s = s
complete_entry entry (some i) s =
    complete_irp_request i (timeout_completion entry) (execute_cleanup entry.major_function i s)

unfoldable pub complete_timed_out : List ℕ → State → State
complete_timed_out [] s = s
complete_timed_out (e ∷ es) s =
    complete_timed_out es (free_irp_entry e (complete_entry (s.entries e) (s.entries e).irp s))

abbrev pub is_nil : List ℕ → Bool
is_nil [] = true
is_nil (x ∷ xs) = false

unfoldable pub end_timeout : Bool → Sorted → State
unfolding complete_timed_out event_release
end_timeout keepalive d =
    let t = complete_timed_out d.complete (record (d.state) { pending = d.kept }) in
    if not keepalive && not (is_nil d.complete) then event_release t else t

-- ReleaseTimeoutPendingIrp; `keepalive` is the volume's IsKeepaliveActive.
unfoldable pub release_timeout_pending_irp : ℕ → Bool → State → Outcome State
unfolding timeout_loop end_timeout
release_timeout_pending_irp ticks keepalive s =
    map_outcome (end_timeout keepalive) (timeout_loop ticks s.pending s)

-- DOKAN_IRP_PENDING_TIMEOUT_RESET_MAX
abbrev pub reset_max : ℕ
reset_max = 300000

abbrev pub capped : ℕ → ℕ
capped timeout = if ltb reset_max timeout then reset_max else timeout

-- The search of DokanResetPendingIrpTimeout for an entry by its serial number.
unfoldable pub reset_first : List ℕ → ℕ → ℕ → State → State
reset_first [] serial tick_count s = s
reset_first (e ∷ es) serial tick_count s =
    if (s.entries e).serial_number == serial
    then record s {
      entries = update s.entries e (record (s.entries e) { tick_count = tick_count });
    }
    else reset_first es serial tick_count s

unfoldable pub reset_pending_irp_timeout : ℕ → ℕ → ℕ → ℕ → State → State
unfolding reset_first update_timeout
reset_pending_irp_timeout ticks increment serial timeout s =
    reset_first s.pending serial (update_timeout ticks increment (capped timeout)) s
