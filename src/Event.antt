-- ===== src/Event.antt =====
-- dokan-sys/src/dokany/dokan/dokan.c, close.c and cleanup.c: what surrounds the dispatch of a request.
-- An event's result block comes from a pool or from malloc; the DOKAN_OPEN_INFO that it refers to counts
-- the events that use it, and the last one closes the file.
pub mod Close
pub mod ResultBlock
mod Tests
use crv_virtual_disk.Prelude.{
  update, ℕ, zero, suc, ◌*◌, ◌+◌, ◌%◌, ◌^◌, Bool, true, false, not, ◌&&◌, List, [], ◌∷◌, ◌++◌,
  Option, none, some, ltb, leb, ◌==◌, if◌then◌else◌, length, get_elem?, take, drop, ◌-◌,
}
use crv_virtual_disk.Memory.{Outcome, ok, fault, ◌>>=◌, map_outcome}
use crv_virtual_disk.Pool.Store.{Sizes, State, OpenInfo, alloc_block}
use crv_virtual_disk.Pool.Buffers.{
  pop_event_result, pop_event_result_16k, pop_event_result_32k, pop_event_result_64k,
  pop_event_result_128k, push_event_result, push_event_result_16k, push_event_result_32k,
  push_event_result_64k, push_event_result_128k, free_event_result,
}
use crv_virtual_disk.Pool.OpenInfos.{push_file_open_info}

abbrev pub backslash : ℕ
backslash = 0x5c

abbrev pub starts_double : List ℕ → Bool
starts_double (a ∷ b ∷ cs) = a == backslash && b == backslash
starts_double _ = false

abbrev pub ends_in_backslash : List ℕ → Bool
ends_in_backslash [] = false
ends_in_backslash (c ∷ []) = c == backslash
ends_in_backslash (c ∷ d ∷ cs) = ends_in_backslash (d ∷ cs)

-- The second half of CheckFileName.
abbrev pub without_last_backslash : List ℕ → List ℕ
without_last_backslash name =
    if ltb 2 (length name) && ends_in_backslash name then take (length name - 1) name else name

unfoldable pub check_file_name : List ℕ → List ℕ
check_file_name name = without_last_backslash (if starts_double name then drop 1 name else name)

-- The calls of the file system's CloseFile and Cleanup, with the name and the context.
pub data Call : Type 0 where
  close_file : List ℕ → ℕ → Call
  cleanup : List ℕ → ℕ → Call

-- What is used of a DOKAN_IO_EVENT, its DokanFileInfo, EventContext and EventResult. `close_name` is the
-- file name of a request whose major function is IRP_MJ_CLOSE, none for others.
pub record Event : Type 0 where
  pub open_info : Option ℕ
  pub kernel_context : Option ℕ
  pub process_id : ℕ
  pub paging_flag : Bool
  pub write_to_end_flag : Bool
  pub synchronous_flag : Bool
  pub nocache_flag : Bool
  pub delete_on_close_flag : Bool
  pub close_name : Option (List ℕ)
  pub file_name : List ℕ
  pub context : ℕ
  pub is_directory : Bool
  pub file_process_id : ℕ
  pub paging_io : Bool
  pub write_to_end_of_file : Bool
  pub synchronous_io : Bool
  pub nocache : Bool
  pub delete_pending : Bool
  pub event_result : Option ℕ
  pub event_result_size : ℕ
  pub pool_allocated : Bool
  pub result_context : Option ℕ
  pub result_status : ℕ
  pub calls : List Call

-- DispatchGetEventInformationLength: `minimum` is sizeof(EVENT_INFORMATION).
unfoldable pub information_length : Sizes → ℕ → ℕ → ℕ
information_length sizes minimum size =
    let wanted = (sizes.event_info_header + size) % 2 ^ 32 in
    if ltb wanted minimum then minimum else wanted

abbrev pub with_result : Event → ℕ → Option ℕ × State → Event × State
with_result e size (p, s) =
    (record e { event_result = p; event_result_size = size; pool_allocated = true }, s)

-- The block of the pools of larger results.
unfoldable pub extra_result : Sizes → (ℕ → Bool) → ℕ → Event → State → Outcome (Event × State)
unfolding pop_event_result_16k pop_event_result_32k pop_event_result_64k pop_event_result_128k
extra_result sizes malloc size e s =
    if leb size (16 * 1024)
    then map_outcome (with_result e sizes.event_info_16k) (pop_event_result_16k sizes malloc s)
    else if leb size (32 * 1024)
    then map_outcome (with_result e sizes.event_info_32k) (pop_event_result_32k sizes malloc s)
    else if leb size (64 * 1024)
    then map_outcome (with_result e sizes.event_info_64k) (pop_event_result_64k sizes malloc s)
    else if leb size (128 * 1024)
    then map_outcome (with_result e sizes.event_info_128k) (pop_event_result_128k sizes malloc s)
    else ok (e, s)

abbrev pub with_block : ℕ → Event → ℕ → Option ℕ × State → Event × State
with_block size e cleared (none, s) =
    (record e { event_result = none; event_result_size = size }, s)
with_block size e cleared (some p, s) = (
  record e { event_result = some p; event_result_size = size },
  record s { cleared = update s.cleared p cleared },
)

-- The block from malloc, where no pool gave one.
abbrev pub or_own_result :
    Sizes → ℕ → (ℕ → Bool) → ℕ → Bool → Option ℕ → Event × State → Event × State
unfolding information_length alloc_block
or_own_result sizes minimum malloc size clear (some p) (e, s) = (e, s)
or_own_result sizes minimum malloc size clear none (e, s) =
    let n = information_length sizes minimum size in
    with_block n e (if clear then n else sizes.event_info_header) (alloc_block malloc n s)

abbrev pub large_result : Sizes → ℕ → (ℕ → Bool) → ℕ → Bool → Event × State → Event × State
unfolding or_own_result
large_result sizes minimum malloc size clear (e, s) =
    or_own_result sizes minimum malloc size clear e.event_result (e, s)

-- The serial number and the context of the reply; the serial number is not kept.
abbrev pub answer_in : Option ℕ → Event × State → Outcome (Event × State)
answer_in none r = fault
answer_in (some p) (e, s) = ok (record e { result_context = e.kernel_context }, s)

abbrev pub answer_context : Event × State → Outcome (Event × State)
answer_context (e, s) = answer_in e.event_result (e, s)

-- Behind a large result, the function returns early where malloc gave no block.
abbrev pub answer_to : Option ℕ → Event × State → Event × State
answer_to none (e, s) = (e, s)
answer_to (some p) (e, s) = (record e { result_context = e.kernel_context }, s)

abbrev pub answer_if_any : Event × State → Event × State
answer_if_any (e, s) = answer_to e.event_result (e, s)

-- DOKAN_EVENT_INFO_DEFAULT_BUFFER_SIZE
abbrev pub default_buffer_size : ℕ
default_buffer_size = 4096

-- CreateDispatchCommon. A small result that PopEventResult gives no block for is written through null.
unfoldable pub create_dispatch_common :
    Sizes → ℕ → (ℕ → Bool) → ℕ → Bool → Bool → Event → State → Outcome (Event × State)
unfolding extra_result large_result pop_event_result
create_dispatch_common sizes minimum malloc size extra clear e s =
    if leb size default_buffer_size
    then map_outcome (with_result e sizes.event_info_default) (pop_event_result sizes malloc s)
      >>= answer_context
    else map_outcome answer_if_any (
        map_outcome (large_result sizes minimum malloc size clear)
          (if extra then extra_result sizes malloc size e s else ok (e, s)))

-- FreeIoEventResult.
unfoldable pub free_io_event_result :
    Sizes → (ℕ → Bool) → Option ℕ → ℕ → Bool → State → Outcome State
unfolding free_event_result push_event_result push_event_result_16k push_event_result_32k
    push_event_result_64k push_event_result_128k
free_io_event_result sizes malloc none size pooled s = ok s
free_io_event_result sizes malloc (some p) size pooled s =
    if not pooled
    then free_event_result (some p) s
    else if leb size sizes.event_info_default
    then push_event_result malloc p s
    else if leb size sizes.event_info_16k
    then push_event_result_16k malloc p s
    else if leb size sizes.event_info_32k
    then push_event_result_32k malloc p s
    else if leb size sizes.event_info_64k
    then push_event_result_64k malloc p s
    else if leb size sizes.event_info_128k
    then push_event_result_128k malloc p s
    else ok s
