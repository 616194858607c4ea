-- ===== src/Irps/Tests.antt =====
-- dokan-sys/src/dokany/sys: runs of the pending IRPs of a device.
use crv_virtual_disk.Prelude.{
  ℕ, ◌≤◌, ◌≡◌, refl, min, ◌+◌, ◌*◌, ◌/◌, true, false, List, [], ◌∷◌, ◌++◌, none, some, arith, ◌==◌,
  if◌then◌else◌, length,
}
use crv_virtual_disk.Memory.{ok, fault}
use crv_virtual_disk.Irps.State.{
  State, Entry, Reply, irp_cancel_routine, status_success, status_cancelled, with_status,
}
use crv_virtual_disk.Irps.Register.{
  Registration, register_pending_irp_main, register_with, register_entry, update_timeout,
}
use crv_virtual_disk.Irps.Cancel.{io_cancel_irp, run_cancel_routine}
use crv_virtual_disk.Irps.Release.{release_pending_irp}
use crv_virtual_disk.Irps.Timeout.{
  release_timeout_pending_irp, reset_pending_irp_timeout, reset_max,
}
use crv_virtual_disk.Irps.Complete.{Batch, get_event_info_size, complete_irp}
use crv_virtual_disk.Irps.Weight.{token, irps_in}
use crv_virtual_disk.Irps.Steps.{Step, register, io_cancel, run_cancel, Reachable, here, next}
use crv_virtual_disk.Irps.Once.{Idle, completed_once, replies_end}
use crv_virtual_disk.Irps.Drained.{cancelled, release_drains}
use crv_virtual_disk.Irps.Batches.{
  Answer, Answers, answer_all, claimed, other, final, more, batch_replies,
}
use crv_virtual_disk.Irps.Deadlines.{first_with, with_deadline, reset_exact}

abbrev blank : Entry
blank = record {
  serial_number = 0;
  irp = none;
  major_function = 0;
  tick_count = 0;
  async_status = 0;
  forced_canceled = false;
}

abbrev idle : State
idle = record {
  pending = [];
  entries = λ e. blank;
  freed = λ e. true;
  cancel_routine_free_memory = λ e. false;
  cancel = λ i. false;
  cancel_routine = λ i. none;
  canceling = λ i. none;
  linked = λ i. none;
  event = λ i. none;
  completions = λ i. [];
  cleanups = [];
  freed_events = [];
  force_timeout = false;
  serial_number = 0;
  unmount_pending = false;
}

-- A read of the IRP 7, in the entry 40.
abbrev read_request : Registration
read_request = record {
  irp = 7;
  major_function = 3;
  forced_canceled = false;
  unmounting = false;
  unmounting_locked = false;
  entry = some 40;
  has_event_context = true;
  status = 0;
  ticks = 100;
  increment = 156250;
  timeout = 15000;
}

abbrev registered : State
unfolding register_pending_irp_main register_with register_entry update_timeout
registered = (register_pending_irp_main read_request idle).0

registered_test : registered.pending ≡ 40 ∷ []
unfolding registered
registered_test = refl

idle-Idle : Idle idle
idle-Idle = record {
  no_pending = refl;
  no_routines = λ i. refl;
  no_canceling = λ i. refl;
  no_completions = λ i. refl;
}

registered-Step : Step idle (register_pending_irp_main read_request idle).0
registered-Step =
    register read_request idle refl
      (record { routine = refl; not_canceling = refl; not_completed = refl; not_pending = refl })
      (λ e h. record { not_pending = refl; not_used = λ i p. refl })

abbrev canceled : State
canceled = run_cancel_routine 7 (io_cancel_irp 7 (register_pending_irp_main read_request idle).0)

canceled-Reachable : Reachable idle canceled
canceled-Reachable =
    next
      (next (next here registered-Step)
        (io_cancel 7 (register_pending_irp_main read_request idle).0))
      (run_cancel 7 (io_cancel_irp 7 (register_pending_irp_main read_request idle).0))

completed_once_example : length (canceled.completions 7) ≤ 1
completed_once_example = completed_once idle canceled idle-Idle canceled-Reachable 7

canceled_test : canceled.completions 7 ≡ with_status status_cancelled ∷ []
unfolding register_pending_irp_main register_with register_entry update_timeout io_cancel_irp
    run_cancel_routine
canceled_test = refl

-- The replies 1 and 2, of 32 bytes each.
abbrev reply : ℕ → Reply
reply serial = record { serial_number = serial; status = 0; buffer_length = 8 }

abbrev two_replies : Batch
two_replies = record {
  buffer_length = 64;
  reply_at = λ offset. if offset == 0 then reply 1 else reply 2;
  allow_ipc_batching = true;
  info_size = 32;
  header_size = 24;
  error_status = λ major i r. none;
}

abbrev one_reply : Batch
one_reply = record two_replies { buffer_length = 32 }

replies_end_example :
    ((u : State) × (release_timeout_pending_irp 200 true canceled ≡ ok u))
    × ((r : ℕ × State) × (complete_irp two_replies canceled ≡ ok r))
replies_end_example = replies_end idle canceled idle-Idle canceled-Reachable 200 true two_replies

release_drains_example :
    ((release_pending_irp registered).pending ≡ [])
    × ((release_pending_irp registered).completions 7
        ≡ registered.completions 7
          ++ cancelled (
              min
                (irps_in 7 registered.entries registered.pending)
                (token (registered.cancel_routine 7))))
release_drains_example = release_drains 7 registered

-- Reads of the IRPs 7, 8 and 9 in the entries 40, 41 and 42, with the serial numbers 1, 5 and 2.
abbrev read_entry : ℕ → ℕ → Entry
read_entry i serial = record {
  serial_number = serial;
  irp = some i;
  major_function = 3;
  tick_count = 1000;
  async_status = 0;
  forced_canceled = false;
}

abbrev three_reads : State
three_reads = record idle {
  pending = 40 ∷ 41 ∷ 42 ∷ [];
  entries =
      λ e. if e == 40 then read_entry 7 1 else if e == 41 then read_entry 8 5 else read_entry 9 2;
  cancel_routine = λ i. some irp_cancel_routine;
}

abbrev after_pending_reply : ℕ × State
unfolding get_event_info_size complete_irp
after_pending_reply =
    elim (complete_irp
      (record one_reply { reply_at = λ offset. record (reply 1) { status = 0x103 } }) three_reads) [
        | ok r ↦ r
        | fault ↦ (0, three_reads)
      ]

-- The IRP leaves the list without a completion, and its entry is freed.
pending_reply_test :
    (after_pending_reply.1.completions 7 ≡ [])
    × (after_pending_reply.1.pending ≡ 41 ∷ 42 ∷ [])
    × (after_pending_reply.1.freed 40 ≡ true)
unfolding after_pending_reply
pending_reply_test = (refl, refl, refl)

abbrev two_answers : List Answer
two_answers =
    record { entry = 40; major_function = 3; irp = 7; reply = reply 1 }
    ∷ record { entry = 42; major_function = 3; irp = 9; reply = reply 2 }
    ∷ []

abbrev both_claimed : State
both_claimed = claimed 9 (claimed 7 three_reads)

two_replies-Answers :
    Answers two_replies 0 0 three_reads (40 ∷ 41 ∷ 42 ∷ []) two_answers (41 ∷ []) both_claimed
unfolding get_event_info_size
two_replies-Answers =
    more 0 0 40 7 three_reads
      (record {
        sorted = omega arith;
        serial_number = refl;
        irp = refl;
        routine = irp_cancel_routine;
        not_canceled = refl;
        not_pending = refl;
      })
      refl refl (omega arith)
      (other 32 1 41 (claimed 7 three_reads) (omega arith) refl (
        final 32 2 42 9 (claimed 7 three_reads) []
          (record {
            sorted = omega arith;
            serial_number = refl;
            irp = refl;
            routine = irp_cancel_routine;
            not_canceled = refl;
            not_pending = refl;
          })
          refl))

batch_replies_example :
    complete_irp two_replies three_reads
    ≡ ok (status_success, answer_all two_answers (record both_claimed { pending = 41 ∷ [] }))
batch_replies_example =
    batch_replies two_replies three_reads refl (omega arith) (omega arith) two_replies-Answers

reset_exact_example :
    reset_pending_irp_timeout 100 156250 1 400000 registered
    ≡ with_deadline
        (first_with 1 registered.entries registered.pending)
        (100 + min 400000 reset_max * 10000 / 156250)
        registered
reset_exact_example = reset_exact 100 156250 1 400000 registered
