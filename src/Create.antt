-- ===== src/Create.antt =====
-- dokan-sys/src/dokany/dokan/create.c: the calls of DispatchCreate and what it makes of their
-- answers. The security context is left out but for the desired access.
pub mod Request
pub mod Context
mod Tests
use crv_virtual_disk.Prelude.{
  update, ℕ, zero, suc, ◌+◌, ◌-◌, ◌/◌, ◌%◌, ◌^◌, not, ◌&&◌, ◌||◌, Bool, true, false, List, [], ◌∷◌,
  ◌++◌, Option, none, some, ltb, ◌==◌, if◌then◌else◌,
}
use crv_virtual_disk.Memory.{Outcome, ok, fault, ◌>>=◌, map_outcome}
use crv_virtual_disk.Pool.Store.{Sizes, State, OpenInfo}
use crv_virtual_disk.Pool.OpenInfos.{pop_file_open_info, push_file_open_info}
use crv_virtual_disk.Create.Request.{
  has_bit, set_bit, clear_bit, directory_file, non_directory_file, open_for_backup_intent,
  nt_success, status_object_name_collision, status_object_name_not_found, status_access_denied,
  status_invalid_parameter, status_not_implemented, create_succes_status_check, cut_last,
  strip_last, or_root, parent_name, CreateCall, CreateAnswer, Action, Callback, CreateRequest,
  Creation, disposition_of, prepare, create, cleanup, close,
}

-- A call of ZwCreateFile, which changes DokanFileInfo.
unfoldable pub call_create :
    (List Action → CreateCall → CreateAnswer)
    → CreateRequest
    → Option (List ℕ)
    → ℕ
    → ℕ
    → Creation
    → Creation
call_create zw r name access options c =
    let call : CreateCall = record {
      name = name;
      desired_access = access;
      disposition = disposition_of r;
      options = options;
      context = c.context;
      is_directory = c.is_directory;
    } in
    let answer = zw c.actions call in
    record c {
      status = answer.status;
      context = answer.context;
      is_directory = answer.is_directory;
      actions = c.actions ++ create call ∷ [];
    }

-- A call that is not made where the options contradict each other.
unfoldable pub create_unless_invalid :
    (List Action → CreateCall → CreateAnswer)
    → CreateRequest
    → Option (List ℕ)
    → ℕ
    → Creation
    → Creation
unfolding call_create
create_unless_invalid zw r name options c =
    if has_bit c.options non_directory_file && has_bit c.options directory_file
    then record c { status = status_invalid_parameter }
    else call_create zw r name r.desired_access options c

-- A call of Cleanup or CloseFile for the target itself; both are given DokanFileInfo.
unfoldable pub call_back : Callback → (Option (List ℕ) → ℕ → Action) → Creation → Creation
call_back f action c = record c {
  context = f c.actions c.original_name c.context;
  actions = c.actions ++ action c.original_name c.context ∷ [];
}

-- Lines 206 to 214: what is made of the answer for the target itself.
abbrev pub probe_result : CreateRequest → Callback → Callback → Creation → Creation
unfolding create_succes_status_check call_back
probe_result r on_cleanup on_close c =
    if create_succes_status_check c.status (disposition_of r)
    then call_back on_close close (call_back on_cleanup cleanup c)
    else if c.status == status_object_name_not_found
    then record c { child_existed = false }
    else c

-- Lines 193 to 217: whether the target itself exists.
abbrev pub probe_with :
    (List Action → CreateCall → CreateAnswer)
    → CreateRequest
    → Option Callback
    → Option Callback
    → Creation
    → Creation
unfolding create_unless_invalid probe_result
probe_with zw r (some on_cleanup) (some on_close) c =
    if r.open_target_directory
    then record (probe_result r on_cleanup on_close
        (create_unless_invalid zw r c.original_name (r.create_options % 2 ^ 24) c)) {
          is_directory = true;
        }
    else c
probe_with zw r _ _ c = c

unfoldable pub probe_target :
    (List Action → CreateCall → CreateAnswer) → CreateRequest → Creation → Creation
unfolding probe_with
probe_target zw r c = probe_with zw r r.cleanup_callback r.close_file_callback c

-- FILE_DOES_NOT_EXIST is 5.
abbrev pub note_missing_child : CreateRequest → Creation → Creation
unfolding create_succes_status_check
note_missing_child r c =
    if create_succes_status_check c.status (disposition_of r) && not c.child_existed
    then record c { information = 5 }
    else c

abbrev pub open_file :
    CreateRequest → Option (List Action → CreateCall → CreateAnswer) → Creation → Creation
unfolding probe_target create_unless_invalid note_missing_child
open_file r none c = record c { status = status_not_implemented }
open_file r (some zw) c =
    let d = probe_target zw r c in
    note_missing_child r (create_unless_invalid zw r (some d.name) d.options d)

-- FILE_OPENED is 1, FILE_CREATED 2, FILE_OVERWRITTEN 3, FILE_SUPERSEDED 0.
unfoldable pub success_information : ℕ → ℕ → ℕ
success_information status disposition =
    if disposition == 4
    then 3
    else if disposition == 2
    then 2
    else if disposition == 3
    then (if status == status_object_name_collision then 1 else 2)
    else if disposition == 5
    then (if status == status_object_name_collision then 3 else 2)
    else if disposition == 0
    then (if status == status_object_name_collision then 0 else 2)
    else 1

-- Lines 298 to 324.
unfoldable pub succeed : CreateRequest → Creation → Creation
unfolding success_information
succeed r c = record c {
  reply_status = 0;
  information = success_information c.status (disposition_of r);
  reply_flags = if c.is_directory then set_bit 0 c.reply_flags else c.reply_flags;
}

-- Lines 243 to 248; FILE_EXISTS is 4.
unfoldable pub fail : Creation → Creation
fail c = record c {
  reply_status = c.status;
  information = if c.status == status_object_name_collision then 4 else 5;
}

-- The access to the parent folder: FILE_DELETE_CHILD is 0x40, FILE_LIST_DIRECTORY 1.
unfoldable pub parent_access : ℕ → ℕ
parent_access access =
    if has_bit access 25
    then 0x41
    else (if has_bit access 16 then 0x40 else 0) + (if has_bit access 7 then 1 else 0)

-- Lines 254 to 282: the parent folder is asked for the right to delete.
unfoldable pub ask_parent :
    (List Action → CreateCall → CreateAnswer) → CreateRequest → Creation → Creation
unfolding strip_last parent_access call_create
ask_parent zw r c =
    let name = strip_last c.name in
    let options = clear_bit non_directory_file (set_bit open_for_backup_intent c.options) in
    call_create zw r (some name) (parent_access r.desired_access) options
      (record c { name = name; options = options })

-- What is left of the event: the pointers to the DOKAN_OPEN_INFO in the event and in the answer.
pub record Created : Type 0 where
  pub creation : Creation
  pub open_info : Option ℕ
  pub result_context : Option ℕ
  pub state : State

abbrev pub keep_open_info : ℕ → State → Creation → Created
keep_open_info p s c = record {
  creation = c;
  open_info = some p;
  result_context = some p;
  state = s;
}

unfoldable pub drop_open_info : (ℕ → Bool) → ℕ → State → Creation → Outcome Created
unfolding push_file_open_info
drop_open_info malloc p s c =
    map_outcome (λ t. record { creation = c; open_info = none; result_context = some p; state = t })
      (push_file_open_info malloc p s)

abbrev pub parent_answer : (ℕ → Bool) → ℕ → State → Creation → Outcome Created
unfolding drop_open_info
parent_answer malloc p s c =
    if c.status == 0
    then ok (keep_open_info p s (record c { reply_status = 0; information = 1 }))
    else drop_open_info malloc p s c

abbrev pub ask_or_drop :
    (ℕ → Bool)
    → CreateRequest
    → Option (List Action → CreateCall → CreateAnswer)
    → ℕ
    → State
    → Creation
    → Outcome Created
unfolding ask_parent parent_answer drop_open_info
ask_or_drop malloc r none p s c = drop_open_info malloc p s c
ask_or_drop malloc r (some zw) p s c =
    if c.status == status_access_denied && has_bit r.desired_access 16
    then parent_answer malloc p s (ask_parent zw r c)
    else drop_open_info malloc p s c

unfoldable pub end_create : (ℕ → Bool) → CreateRequest → ℕ → State → Creation → Outcome Created
unfolding create_succes_status_check succeed fail ask_or_drop
end_create malloc r p s c =
    if create_succes_status_check c.status (disposition_of r)
    then ok (keep_open_info p s (succeed r c))
    else ask_or_drop malloc r r.zw_create_file p s (fail c)

-- Lines 329 to 331.
unfoldable pub answer_context : Created → Created
answer_context d =
    if nt_success d.creation.reply_status then d else record d { result_context = none }

-- The fields that are stored in the new DOKAN_OPEN_INFO.
abbrev pub store_open_info : ℕ → Creation → ℕ → Option ℕ → Option ℕ → State → State
store_open_info p c event_id event_context dokan_instance s = record s {
  open_infos = update s.open_infos p (record (s.open_infos p) {
    open_count = 1;
    event_context = event_context;
    dokan_instance = dokan_instance;
    event_id = event_id;
    is_directory = c.is_directory;
    user_context = c.context;
  });
}

abbrev pub create_with :
    (ℕ → Bool) → CreateRequest → ℕ → Option ℕ → Option ℕ → Option ℕ × State → Outcome Created
unfolding prepare open_file end_create answer_context
create_with malloc r event_id event_context dokan_instance (none, s) = fault
create_with malloc r event_id event_context dokan_instance (some p, s) =
    let c = open_file r r.zw_create_file (prepare r) in
    map_outcome answer_context
      (end_create malloc r p (store_open_info p c event_id event_context dokan_instance s) c)

-- DispatchCreate behind CreateDispatchCommon; `event_id` is the new value of globalEventId.
unfoldable pub dispatch_create :
    Sizes → (ℕ → Bool) → CreateRequest → ℕ → Option ℕ → Option ℕ → State → Outcome Created
unfolding create_with pop_file_open_info
dispatch_create sizes malloc r event_id event_context dokan_instance s =
    pop_file_open_info sizes malloc s >>= create_with malloc r event_id event_context dokan_instance
