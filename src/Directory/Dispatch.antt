-- ===== src/Directory/Dispatch.antt =====
-- dokan-sys/src/dokany/dokan/directory.c: DokanFillFileData, EndFindFilesCommon and
-- DispatchDirectoryInformation.
use crv_virtual_disk.Prelude.{
  update, ℕ, not, ◌&&◌, ◌||◌, Bool, true, false, List, [], ◌∷◌, Option, none, some, ◌==◌,
  if◌then◌else◌,
}
use crv_virtual_disk.Memory.{Outcome, ok, fault, ◌>>=◌, map_outcome}
use crv_virtual_disk.Vector.{Vector, push_back}
use crv_virtual_disk.NameExpression.{asterisk}
use crv_virtual_disk.Pool.Store.{Sizes, State, OpenInfo}
use crv_virtual_disk.Pool.OpenInfos.{
  pop_file_open_info, push_file_open_info, pop_directory_list, push_directory_list,
}
use crv_virtual_disk.Event.{Event, check_file_name, create_dispatch_common}
use crv_virtual_disk.Event.Close.{event_completion}
use crv_virtual_disk.Directory.Entries.{FindData, InfoClass, other_class}
use crv_virtual_disk.Directory.Match.{is_asterisk}
use crv_virtual_disk.Directory.Results.{
  Request, Reply, Listing, is_some, status_success, status_pending, status_not_implemented,
  status_invalid_parameter, status_no_memory, status_internal_error, write_directory_results,
  add_missing_current_and_parent_folder,
}

-- The library's environment: the sizes, sizeof(EVENT_INFORMATION), the allocator, and whether the file
-- system has a CloseFile.
pub record Environment : Type 0 where
  pub sizes : Sizes
  pub minimum : ℕ
  pub malloc : ℕ → Bool
  pub has_close_file : Bool

pub record Work : Type 0 where
  pub event : Event
  pub state : State
  pub reply : Reply

abbrev pub open_info_of : Option ℕ → State → Option OpenInfo
open_info_of none s = none
open_info_of (some p) s = some (s.open_infos p)

-- The files that a callback passes to DokanFillFileData, which returns 0 whether or not they are kept.
unfoldable pub fill_file_data :
    (ℕ → Bool) → Vector FindData → List FindData → Outcome (Vector FindData)
unfolding push_back
fill_file_data malloc v [] = ok v
fill_file_data malloc v (f ∷ fs) = push_back malloc v f >>= λ r. fill_file_data malloc (r.0) fs

abbrev pub set_list : State → ℕ → Vector FindData → State
set_list s l v = record s { directory_lists = update s.directory_lists l v }

-- The status is stored, and the event completed.
unfoldable pub complete_with : Environment → ℕ → Work → Outcome Work
unfolding event_completion
complete_with env status w =
    map_outcome
      (λ r. record { event = r.0; state = r.1; reply = record (w.reply) { status = status } })
      (event_completion env.has_close_file env.malloc w.event w.state)

-- The critical section of EndFindFilesCommon, and the list to give back behind it.
abbrev pub replace_list : Request → ℕ → OpenInfo → OpenInfo × Option ℕ
replace_list r l o = (
  record o { dir_list = some l; dir_list_search_pattern = r.search_pattern },
  elim o.dir_list [ none ↦ none | some old ↦ if old == l then none else some old ],
)

abbrev pub give_back : (ℕ → Bool) → Option ℕ → State → Outcome State
unfolding push_directory_list
give_back malloc none s = ok s
give_back malloc (some l) s = push_directory_list malloc l s

abbrev pub keep_list : Environment → Request → ℕ → Option ℕ → State → Outcome State
unfolding give_back
keep_list env r l none s = fault
keep_list env r l (some p) s =
    let (o, old) = replace_list r l (s.open_infos p) in
    give_back env.malloc old (record s { open_infos = update s.open_infos p o })

-- The success branch of EndFindFilesCommon.
unfoldable pub end_with_success : Environment → Request → ℕ → Work → Outcome Work
unfolding add_missing_current_and_parent_folder write_directory_results keep_list complete_with
end_with_success env r l w =
    add_missing_current_and_parent_folder env.malloc r (w.state.directory_lists l) >>= λ v.
    write_directory_results r (open_info_of w.event.open_info w.state) v w.reply >>= λ reply.
    keep_list env r l w.event.open_info (set_list w.state l v) >>= λ s.
    complete_with env reply.status (record { event = w.event; state = s; reply = reply })

abbrev pub final_status : ℕ → ℕ
final_status status = if status == status_pending then status_internal_error else status

unfoldable pub end_find_files_common : Environment → Request → ℕ → ℕ → Work → Outcome Work
unfolding end_with_success complete_with push_directory_list
end_find_files_common env r l status w =
    if final_status status == status_success
    then end_with_success env r l w
    else push_directory_list env.malloc l w.state >>= λ s.
        complete_with env (final_status status) (record w { state = s })

abbrev pub same_string : List ℕ → List ℕ → Bool
same_string [] [] = true
same_string [] (d ∷ ds) = false
same_string (c ∷ cs) [] = false
same_string (c ∷ cs) (d ∷ ds) = c == d && same_string cs ds

-- Whether the search pattern asks for another list than the one that is kept.
abbrev pub patterns_differ : Option (List ℕ) → Option (List ℕ) → Bool
patterns_differ (some p) (some q) = not (same_string p q)
patterns_differ (some p) none = not (is_asterisk p)
patterns_differ none (some q) = not (is_asterisk q)
patterns_differ none none = false

unfoldable pub force_scan : Request → OpenInfo → Bool
force_scan r o =
    (not (is_some o.dir_list) || patterns_differ r.search_pattern o.dir_list_search_pattern)
    || (not r.index_specified && r.restart_scan)

-- The DOKAN_OPEN_INFO that the handler works with, and whether it was taken for this call only.
abbrev pub own_open_info : Option ℕ × State → Outcome (ℕ × Bool × State)
own_open_info (none, s) = fault
own_open_info (some p, s) = ok (p, true, s)

abbrev pub chosen_open_info : Environment → Option ℕ → State → Outcome (ℕ × Bool × State)
unfolding pop_file_open_info
chosen_open_info env (some p) s = ok (p, false, s)
chosen_open_info env none s = pop_file_open_info env.sizes env.malloc s >>= own_open_info

-- PushFileOpenInfo of a DOKAN_OPEN_INFO that was taken for this call.
abbrev pub put_back : Environment → ℕ → Bool → Work → Outcome Work
unfolding push_file_open_info
put_back env p false w = ok w
put_back env p true w =
    map_outcome (λ s. record w { state = s }) (push_file_open_info env.malloc p w.state)

abbrev pub pattern_or_all : Option (List ℕ) → List ℕ
pattern_or_all none = asterisk ∷ []
pattern_or_all (some p) = p

abbrev pub not_implemented_listing : Listing
not_implemented_listing = record { files = []; status = status_not_implemented }

abbrev pub call_with_pattern : Request → Option (List ℕ → List ℕ → Listing) → Listing
call_with_pattern r none = not_implemented_listing
call_with_pattern r (some find) = find r.directory_name (pattern_or_all r.search_pattern)

abbrev pub mark_unimplemented : ℕ → Bool → State → State
mark_unimplemented p false s = s
mark_unimplemented p true s = record s {
  open_infos =
      update s.open_infos p
        (record (s.open_infos p) { unimplemented_find_files_with_pattern = true });
}

abbrev pub call_find_files : Request → Option (List ℕ → Listing) → Listing
call_find_files r none = not_implemented_listing
call_find_files r (some find) = find r.directory_name

-- The end of the scan behind FindFiles. Where neither callback is implemented, the list `l` is not given
-- back.
unfoldable pub end_listing : Environment → Request → ℕ → ℕ → Work → Outcome Work
unfolding end_find_files_common complete_with
end_listing env r l status w =
    if status == status_not_implemented
    then complete_with env status_not_implemented w
    else end_find_files_common env r l status w

abbrev pub list_files : Environment → Request → ℕ → Listing → Work → Outcome Work
unfolding fill_file_data end_listing
list_files env r l found w =
    fill_file_data env.malloc (w.state.directory_lists l) found.files >>= λ v.
    end_listing env r l found.status (record w { state = set_list w.state l v })

-- The second callback, if the first one is not implemented.
unfoldable pub end_scan : Environment → Request → ℕ → ℕ → Work → Outcome Work
unfolding list_files end_find_files_common
end_scan env r l status w =
    if status == status_not_implemented
    then list_files env r l (call_find_files r r.find_files) w
    else end_find_files_common env r l status w

-- The callbacks, over the new list `l` and the DOKAN_OPEN_INFO `p`.
unfoldable pub scan_directory : Environment → Request → ℕ → ℕ → Work → Outcome Work
unfolding fill_file_data end_scan
scan_directory env r p l w =
    let found = call_with_pattern r r.find_files_with_pattern in
    let missing = is_some r.find_files_with_pattern && found.status == status_not_implemented in
    fill_file_data env.malloc (w.state.directory_lists l) found.files >>= λ v.
    end_scan env r l found.status
      (record w { state = mark_unimplemented p missing (set_list w.state l v) })

abbrev pub scan_with : Environment → Request → ℕ → Work → Option ℕ × State → Outcome Work
unfolding scan_directory complete_with
scan_with env r p w (none, s) = complete_with env status_no_memory (record w { state = s })
scan_with env r p w (some l, s) = scan_directory env r p l (record w { state = s })

abbrev pub read_list : State → Option ℕ → Outcome (Vector FindData)
read_list s none = fault
read_list s (some l) = ok (s.directory_lists l)

-- The reply from the list that the DOKAN_OPEN_INFO keeps.
unfoldable pub answer_from_list : Environment → Request → OpenInfo → Work → Outcome Work
unfolding write_directory_results complete_with
answer_from_list env r o w = read_list w.state o.dir_list >>= λ v.
    write_directory_results r (open_info_of w.event.open_info w.state) v w.reply >>= λ reply.
    complete_with env reply.status (record w { reply = reply })

abbrev pub answer_query : Environment → Request → Work → ℕ × Bool × State → Outcome Work
unfolding answer_from_list scan_with pop_directory_list put_back force_scan
answer_query env r w (p, taken, s) =
    (if not (force_scan r (s.open_infos p))
      then answer_from_list env r (s.open_infos p) (record w { state = s })
      else pop_directory_list env.sizes env.malloc s >>= scan_with env r p (record w { state = s }))
    >>= put_back env p taken

abbrev pub is_handled : InfoClass → Bool
is_handled (other_class c) = false
is_handled _ = true

abbrev pub empty_reply : Reply
empty_reply = record { status = 0; index = 0; buffer_length = 0; buffer = [] }

-- The rest of the handler, with an EventResult of which the used part is zero.
unfoldable pub answer_request : Environment → Request → Option ℕ → Event → State → Outcome Work
unfolding answer_query complete_with chosen_open_info
answer_request env r none e s = fault
answer_request env r (some result) e s =
    if not (is_handled r.info_class)
    then complete_with env status_invalid_parameter
        (record { event = e; state = s; reply = empty_reply })
    else chosen_open_info env e.open_info s
      >>= answer_query env r
          (record { event = e; state = s; reply = record empty_reply { index = r.file_index } })

unfoldable pub dispatch_directory_information : Environment → Request → Event → State → Outcome Work
unfolding create_dispatch_common check_file_name answer_request
dispatch_directory_information env r e s =
    create_dispatch_common env.sizes env.minimum env.malloc r.buffer_length false true e s >>= λ q.
    answer_request env (record r { directory_name = check_file_name r.directory_name })
      (q.0).event_result (q.0) (q.1)
