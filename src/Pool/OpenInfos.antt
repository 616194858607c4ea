-- ===== src/Pool/OpenInfos.antt =====
-- dokan-sys/src/dokany/dokan/dokan_pool.c: the pools of DOKAN_OPEN_INFO and of directory lists.
use crv_virtual_disk.Prelude.{update, ℕ, suc, Bool, false, ◌∷◌, Option, none, some}
use crv_virtual_disk.Memory.{Outcome, ok, ◌>>=◌, map_outcome}
use crv_virtual_disk.Vector.{Vector, alloc, clear}
use crv_virtual_disk.Directory.Entries.{FindData}
use crv_virtual_disk.Pool.Store.{
  Sizes, State, OpenInfo, file_info_pool, directory_list_pool, directory_list_pool_size,
  io_event_pool_size, free_block, acquire, pop_item, release,
}

-- The new vector of DokanVector_Alloc, at the next address.
abbrev pub place_list : State → Option (Vector FindData) → Option ℕ × State
place_list s none = (none, s)
place_list s (some v) = (
  some s.next,
  record s {
    next = suc s.next;
    live = s.next ∷ s.live;
    directory_lists = update s.directory_lists s.next v;
  },
)

abbrev pub or_new_list : Sizes → (ℕ → Bool) → Option ℕ × State → Option ℕ × State
unfolding alloc
or_new_list sizes malloc (some p, s) = (some p, s)
or_new_list sizes malloc (none, s) = place_list s (alloc malloc sizes.find_data)

abbrev pub clear_list : Option ℕ × State → Option ℕ × State
unfolding clear
clear_list (some p, s) = (
  some p,
  record s { directory_lists = update s.directory_lists p (clear (s.directory_lists p)) },
)
clear_list (none, s) = (none, s)

unfoldable pub pop_directory_list : Sizes → (ℕ → Bool) → State → Outcome (Option ℕ × State)
unfolding pop_item or_new_list clear_list
pop_directory_list sizes malloc s =
    map_outcome (λ r. clear_list (or_new_list sizes malloc r)) (pop_item directory_list_pool s)

-- DokanVector_Free of a directory list takes its block with it.
unfoldable pub push_directory_list : (ℕ → Bool) → ℕ → State → Outcome State
unfolding release free_block
push_directory_list malloc p s =
    release malloc directory_list_pool_size directory_list_pool p (free_block p) s

abbrev pub fresh_open_info : OpenInfo
fresh_open_info = record {
  dokan_instance = none;
  dir_list = none;
  dir_list_search_pattern = none;
  unimplemented_find_files_with_pattern = false;
  user_context = 0;
  event_id = 0;
  is_directory = false;
  open_count = 0;
  close_file_name = none;
  close_user_context = 0;
  event_context = none;
}

abbrev pub reset_open_info : Option ℕ × State → Option ℕ × State
reset_open_info (some p, s) =
    (some p, record s { open_infos = update s.open_infos p fresh_open_info })
reset_open_info (none, s) = (none, s)

unfoldable pub pop_file_open_info : Sizes → (ℕ → Bool) → State → Outcome (Option ℕ × State)
unfolding acquire
pop_file_open_info sizes malloc s =
    map_outcome reset_open_info (acquire malloc sizes.open_info file_info_pool s)

abbrev pub push_if_any : (ℕ → Bool) → Option ℕ → State → Outcome State
unfolding push_directory_list
push_if_any malloc none s = ok s
push_if_any malloc (some l) s = push_directory_list malloc l s

unfoldable pub cleanup_file_open_info : (ℕ → Bool) → ℕ → State → Outcome State
unfolding push_if_any
cleanup_file_open_info malloc p s =
    let o = s.open_infos p in
    push_if_any malloc o.dir_list (record s {
      open_infos =
          update s.open_infos p (record o { dir_list = none; dir_list_search_pattern = none });
    })

unfoldable pub free_file_open_info : (ℕ → Bool) → Option ℕ → State → Outcome State
unfolding cleanup_file_open_info free_block
free_file_open_info malloc none s = ok s
free_file_open_info malloc (some p) s = cleanup_file_open_info malloc p s >>= free_block p

unfoldable pub push_file_open_info : (ℕ → Bool) → ℕ → State → Outcome State
unfolding cleanup_file_open_info release free_file_open_info
push_file_open_info malloc p s =
    cleanup_file_open_info malloc p s
    >>= release malloc io_event_pool_size file_info_pool p (free_file_open_info malloc (some p))
