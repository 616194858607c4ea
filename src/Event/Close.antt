-- ===== src/Event/Close.antt =====
-- dokan-sys/src/dokany/dokan/dokan.c, close.c and cleanup.c: the events that use a DOKAN_OPEN_INFO, and
-- the close of the file behind the last one.
pub mod Waiting
pub mod Delayed
use mathlib.Core.Option
use crv_virtual_disk.Prelude.{
  update, ℕ, suc, ◌+◌, ◌*◌, ◌-◌, ◌%◌, ◌^◌, Bool, true, false, List, [], ◌∷◌, ◌++◌, Option, none,
  some, ltb, ◌==◌, length, if◌then◌else◌,
}
use crv_virtual_disk.Memory.{Outcome, ok, fault, ◌>>=◌, map_outcome}
use crv_virtual_disk.Pool.Store.{Sizes, State, OpenInfo}
use crv_virtual_disk.Pool.OpenInfos.{push_file_open_info}
use crv_virtual_disk.Event.{
  Event, Call, close_file, cleanup, check_file_name, create_dispatch_common,
}

abbrev pub set_open_info : State → ℕ → OpenInfo → State
set_open_info s p o = record s { open_infos = update s.open_infos p o }

-- ULONG
abbrev pub less_one : ℕ → ℕ
less_one n = (n + (2 ^ 32 - 1)) % 2 ^ 32

-- What SetupIOEventForProcessing copies of the request's flags.
abbrev pub with_flags : Event → Event
with_flags e = record e {
  paging_io = if e.paging_flag then true else e.paging_io;
  write_to_end_of_file = if e.write_to_end_flag then true else e.write_to_end_of_file;
  synchronous_io = if e.synchronous_flag then true else e.synchronous_io;
  nocache = if e.nocache_flag then true else e.nocache;
}

abbrev pub setup_open_info : Option ℕ → Event → State → Event × State
setup_open_info none e s = (e, s)
setup_open_info (some p) e s =
    let o = s.open_infos p in
    (
      with_flags (record e { context = o.user_context; is_directory = o.is_directory }),
      set_open_info s p (record o { open_count = (o.open_count + 1) % 2 ^ 32 }),
    )

-- SetupIOEventForProcessing; the pointers to the event and to the options are not kept.
unfoldable pub setup_io_event_for_processing : Event → State → Event × State
setup_io_event_for_processing e s =
    setup_open_info e.kernel_context
      (record e { open_info = e.kernel_context; file_process_id = e.process_id }) s

-- _wcsdup, whose block holds the characters of two bytes and the final null; the block is not kept.
abbrev pub duplicate : (ℕ → Bool) → List ℕ → Option (List ℕ)
duplicate malloc name = if malloc (2 * (length name + 1)) then some name else none

-- The part of a Close request in ReleaseDokanOpenInfo.
abbrev pub closing : (ℕ → Bool) → Option (List ℕ) → ℕ → OpenInfo → OpenInfo
closing malloc none context o = o
closing malloc (some name) context o = record o {
  close_file_name = duplicate malloc name;
  close_user_context = context;
  open_count = less_one o.open_count;
}

unfoldable pub released : (ℕ → Bool) → Event → OpenInfo → OpenInfo
released malloc e o =
    closing malloc e.close_name e.context
      (record o { user_context = e.context; open_count = less_one o.open_count })

abbrev pub close_call : Option (List ℕ) → ℕ → Bool → List Call
close_call (some name) context true = close_file name context ∷ []
close_call (some name) context false = []
close_call none context b = []

abbrev pub cleared_context : Option ℕ → Option ℕ → Option ℕ
cleared_context (some result) context = none
cleared_context none context = context

-- The event behind the release of the last use, `o` being its DOKAN_OPEN_INFO.
abbrev pub after_close : Bool → Event → OpenInfo → Event
after_close has_close_file e o = record e {
  open_info = none;
  context = o.close_user_context;
  result_context = cleared_context e.event_result e.result_context;
  calls = e.calls ++ close_call o.close_file_name o.close_user_context has_close_file;
}

unfoldable pub release_at :
    Bool → (ℕ → Bool) → Event → State → ℕ → OpenInfo → Outcome (Event × State)
unfolding push_file_open_info
release_at has_close_file malloc e s p o =
    if ltb 0 o.open_count
    then ok (e, set_open_info s p o)
    else map_outcome (λ t. (after_close has_close_file e o, t))
        (push_file_open_info malloc p (set_open_info s p (record o { close_file_name = none })))

abbrev pub release_pointer : Bool → (ℕ → Bool) → Option ℕ → Event → State → Outcome (Event × State)
unfolding release_at released
release_pointer has_close_file malloc none e s = ok (e, s)
release_pointer has_close_file malloc (some p) e s =
    release_at has_close_file malloc e s p (released malloc e (s.open_infos p))

-- ReleaseDokanOpenInfo; `has_close_file` says whether the file system implements CloseFile.
unfoldable pub release_dokan_open_info : Bool → (ℕ → Bool) → Event → State → Outcome (Event × State)
unfolding release_pointer
release_dokan_open_info has_close_file malloc e s =
    release_pointer has_close_file malloc e.open_info e s

unfoldable pub event_completion : Bool → (ℕ → Bool) → Event → State → Outcome (Event × State)
unfolding release_dokan_open_info
event_completion has_close_file malloc e s = release_dokan_open_info has_close_file malloc e s

unfoldable pub dispatch_close : Bool → (ℕ → Bool) → Event → State → Outcome (Event × State)
unfolding release_dokan_open_info check_file_name
dispatch_close has_close_file malloc e s =
    release_dokan_open_info has_close_file malloc
      (record e { close_name = Option.map check_file_name e.close_name }) s

abbrev pub with_delete_pending : Event → Event
with_delete_pending e = record e {
  delete_pending = if e.delete_on_close_flag then true else e.delete_pending;
}

-- The call of Cleanup, if the file system has it; it answers the Context that it leaves in DokanFileInfo.
abbrev pub cleanup_calls : Option (List ℕ → ℕ → ℕ) → Event → Event
cleanup_calls none e = with_delete_pending e
cleanup_calls (some f) e = record (with_delete_pending e) {
  context = f e.file_name e.context;
  calls = e.calls ++ cleanup e.file_name e.context ∷ [];
}

-- A write to the result's Status.
abbrev pub store_status : Option ℕ → ℕ → Event → Outcome Event
store_status none status e = fault
store_status (some p) status e = ok (record e { result_status = status })

abbrev pub cleanup_with :
    Option (List ℕ → ℕ → ℕ) → Bool → (ℕ → Bool) → Event × State → Outcome (Event × State)
unfolding event_completion
cleanup_with on_cleanup has_close_file malloc (e, s) = store_status e.event_result 0 e >>= λ e'.
    event_completion has_close_file malloc (cleanup_calls on_cleanup e') s

-- DispatchCleanup; STATUS_SUCCESS is 0.
unfoldable pub dispatch_cleanup :
    Sizes
    → ℕ
    → Option (List ℕ → ℕ → ℕ)
    → Bool
    → (ℕ → Bool)
    → Event
    → State
    → Outcome (Event × State)
unfolding create_dispatch_common cleanup_with check_file_name
dispatch_cleanup sizes minimum on_cleanup has_close_file malloc e s =
    create_dispatch_common sizes minimum malloc 0 false true
      (record e { file_name = check_file_name e.file_name }) s
    >>= cleanup_with on_cleanup has_close_file malloc
