-- ===== src/Irps/Complete.antt =====
-- dokan-sys/src/dokany/sys/event.c: GetEventInfoSize and DokanCompleteIrp, which completes pending IRPs
-- with a batch of replies from the user-mode library. A read of a freed entry is `fault`.
use crv_virtual_disk.Prelude.{
  update, ℕ, ◌+◌, ◌%◌, ◌^◌, not, Bool, true, false, List, [], ◌∷◌, Option, none, some, ltb, leb,
  ◌==◌, if◌then◌else◌,
}
use crv_virtual_disk.Memory.{Outcome, ok, fault, ◌>>=◌, map_outcome}
use crv_virtual_disk.Irps.State.{
  State, Reply, Routine, with_status, replied, irp_mj_write, status_success, status_buffer_overflow,
  status_invalid_parameter, status_no_such_device, status_buffer_too_small, status_cancelled,
  status_pending, set_routine, execute_cleanup, complete_irp_request, free_irp_entry,
  leave_to_routine,
}
use crv_virtual_disk.Irps.Release.{event_release}

-- The input buffer: its length and the EVENT_INFORMATION that stands at an offset. `info_size` is
-- sizeof(EVENT_INFORMATION), `header_size` the offset of its Buffer. `error_status` is the status that the
-- completion function of a major function sets for an IRP and a reply in place of the reply's own, as
-- STATUS_INSUFFICIENT_RESOURCES where the IRP's buffer is too small; none where it takes the reply's.
pub record Batch : Type 0 where
  pub buffer_length : ℕ
  pub reply_at : ℕ → Reply
  pub allow_ipc_batching : Bool
  pub info_size : ℕ
  pub header_size : ℕ
  pub error_status : ℕ → ℕ → Reply → Option ℕ

unfoldable pub get_event_info_size : Batch → ℕ → Reply → ℕ
get_event_info_size b major reply =
    if major == irp_mj_write
    then b.info_size
    else if reply.status == status_buffer_overflow
    then b.info_size
    else if ltb b.info_size ((b.header_size + reply.buffer_length) % 2 ^ 32)
    then (b.header_size + reply.buffer_length) % 2 ^ 32
    else b.info_size

-- The variables of the search.
pub record Search : Type 0 where
  pub offset : ℕ
  pub last_serial_number : ℕ
  pub result : ℕ
  pub bad_usage : Bool

pub data Next : Type 0 where
  stop : Search → Next
  continue : Search → Next

-- What follows the match of an entry: whether another reply is looked for.
unfoldable pub after_match : Batch → Reply → Search → Next
after_match b reply c =
    if ltb b.buffer_length c.offset
    then stop (record c { result = status_invalid_parameter; bad_usage = true })
    else if reply.status == status_buffer_overflow
    then stop c
    else if not b.allow_ipc_batching
    then stop (
        if ltb c.offset b.buffer_length
        then record c { result = status_invalid_parameter; bad_usage = true }
        else c)
    else if c.offset == b.buffer_length
    then stop c
    else if ltb b.buffer_length (c.offset + b.info_size)
    then stop (record c { bad_usage = true })
    else continue c

-- The claim of an entry, after which its major function is read. A canceled entry is freed before.
abbrev pub take_irp : ℕ → ℕ → Option Routine → State → Bool × State
take_irp e i none s = (false, leave_to_routine e s)
take_irp e i (some r) s = (true, record (set_routine i none s) { linked = update s.linked i none })

abbrev pub match_irp : ℕ → Option ℕ → State → Outcome (Bool × State)
match_irp e none s = fault
match_irp e (some i) s = ok (take_irp e i (s.cancel_routine i) s)

pub record Found : Type 0 where
  pub kept : List ℕ
  pub complete : List ℕ
  pub search : Search
  pub state : State

abbrev pub keep_entry : ℕ → Found → Found
keep_entry e f = record f { kept = e ∷ f.kept }

abbrev pub add_found : Bool → ℕ → Found → Found
add_found true e f = record f { complete = e ∷ f.complete }
add_found false e f = f

abbrev pub go_on : Next → List ℕ → State → (Search → Outcome Found) → Outcome Found
go_on (stop c) es s k = ok (record { kept = es; complete = []; search = c; state = s })
go_on (continue c) es s k = k c

abbrev pub advance : Batch → ℕ → Reply → Search → Search
unfolding get_event_info_size
advance b major reply c = record c {
  offset = (c.offset + get_event_info_size b major reply) % 2 ^ 32;
}

abbrev pub unsorted : Search → Search
unsorted c = record c { result = status_invalid_parameter; bad_usage = true }

-- The loop over the pending list, with the reply that is looked for at the search's offset.
unfoldable pub search_loop : Batch → List ℕ → Search → State → Outcome Found
unfolding after_match advance
search_loop b [] c s = ok (record { kept = []; complete = []; search = c; state = s })
search_loop b (e ∷ es) c s =
    let reply = b.reply_at c.offset in
    let d = record c { last_serial_number = reply.serial_number } in
    if ltb reply.serial_number c.last_serial_number
    then ok (record { kept = e ∷ es; complete = []; search = unsorted c; state = s })
    else if not ((s.entries e).serial_number == reply.serial_number)
    then map_outcome (keep_entry e) (search_loop b es d s)
    else match_irp e (s.entries e).irp s >>= λ r. map_outcome (add_found r.0 e) (
        go_on (after_match b reply (advance b (s.entries e).major_function reply d)) es r.1
          (λ c'. search_loop b es c' r.1))

abbrev pub or_status : Option ℕ → ℕ → ℕ
or_status none status = status
or_status (some error) status = error

-- What the completion function leaves in IoStatus.Status.
abbrev pub completed_status : Batch → ℕ → ℕ → Reply → ℕ
completed_status b major i reply = or_status (b.error_status major i reply) reply.status

-- DokanDispatchCompletion for the major function, the IRP and the EVENT_INFORMATION. The cleanup is that of
-- DokanCompleteCleanup. DOKAN_LOG_END_MJ completes the IRP, unless its status is STATUS_PENDING.
abbrev pub dispatch_completion : Batch → ℕ → ℕ → Reply → State → State
dispatch_completion b major i reply s =
    if completed_status b major i reply == status_pending
    then execute_cleanup major i s
    else complete_irp_request i (replied reply) (execute_cleanup major i s)

-- The completion of an entry's IRP with the EVENT_INFORMATION at an offset, or with STATUS_CANCELLED behind the
-- end of the buffer.
abbrev pub complete_at : Batch → ℕ → ℕ → Option ℕ → State → State
complete_at b offset major none s = s
complete_at b offset major (some i) s =
    if leb b.buffer_length offset
    then complete_irp_request i (with_status status_cancelled) s
    else dispatch_completion b major i (b.reply_at offset) s

abbrev pub next_offset : Batch → ℕ → ℕ → ℕ
unfolding get_event_info_size
next_offset b offset major =
    if leb b.buffer_length offset
    then offset
    else (offset + get_event_info_size b major (b.reply_at offset)) % 2 ^ 32

-- The second loop; once the volume is being unmounted, the rest of the list is left as it is.
unfoldable pub complete_loop : Batch → ℕ → List ℕ → State → Bool × State
unfolding next_offset
complete_loop b offset [] s = (true, s)
complete_loop b offset (e ∷ es) s =
    if s.unmount_pending
    then (false, s)
    else complete_loop b (next_offset b offset (s.entries e).major_function) es
        (free_irp_entry e (complete_at b offset (s.entries e).major_function (s.entries e).irp s))

unfoldable pub end_completion : Search → Bool × State → ℕ × State
unfolding event_release
end_completion c (false, s) = (status_no_such_device, s)
end_completion c (true, s) = (c.result, if c.bad_usage then event_release s else s)

unfoldable pub complete_found : Batch → Found → ℕ × State
unfolding complete_loop end_completion
complete_found b f =
    end_completion f.search (complete_loop b 0 f.complete (record (f.state) { pending = f.kept }))

abbrev pub first_search : Search
first_search = record {
  offset = 0;
  last_serial_number = 0;
  result = status_success;
  bad_usage = false;
}

unfoldable pub complete_irp : Batch → State → Outcome (ℕ × State)
unfolding search_loop complete_found
complete_irp b s =
    if s.unmount_pending
    then ok (status_no_such_device, s)
    else if ltb b.buffer_length b.info_size
    then ok (status_buffer_too_small, s)
    else map_outcome (complete_found b) (search_loop b s.pending first_search s)
