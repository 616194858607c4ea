-- ===== src/Pool/Store.antt =====
-- dokan-sys/src/dokany/dokan/dokan_pool.c: the state of the pools, and the steps that their operations
-- share. A pointer is an address, null being `none`.
use crv_virtual_disk.Prelude.{
  update, remove, ℕ, suc, Bool, true, false, List, [], ◌∷◌, Option, none, some, ltb, ◌==◌,
  if◌then◌else◌,
}
use crv_virtual_disk.Memory.{Outcome, ok, fault, ◌>>=◌, map_outcome}
use crv_virtual_disk.Vector.{Vector, push_back, pop_back, get_last_item, get_count}
use crv_virtual_disk.Directory.Entries.{FindData}

-- The vectors of pointers that the library keeps in global variables.
pub data Pool : Type 0 where
  io_batch_pool : Pool
  io_event_pool : Pool
  event_result_pool : Pool
  event_result_16k_pool : Pool
  event_result_32k_pool : Pool
  event_result_64k_pool : Pool
  event_result_128k_pool : Pool
  file_info_pool : Pool
  directory_list_pool : Pool

abbrev pub pool_id : Pool → ℕ
pool_id io_batch_pool = 0
pool_id io_event_pool = 1
pool_id event_result_pool = 2
pool_id event_result_16k_pool = 3
pool_id event_result_32k_pool = 4
pool_id event_result_64k_pool = 5
pool_id event_result_128k_pool = 6
pool_id file_info_pool = 7
pool_id directory_list_pool = 8

-- sizeof the structures and their leading parts, which depend on the Windows headers.
pub record Sizes : Type 0 where
  pub io_batch : ℕ
  pub io_event : ℕ
  pub event_info_default : ℕ
  pub event_info_16k : ℕ
  pub event_info_32k : ℕ
  pub event_info_64k : ℕ
  pub event_info_128k : ℕ
  pub event_info_header : ℕ
  pub open_info : ℕ
  pub find_data : ℕ

abbrev pub io_event_pool_size : ℕ
io_event_pool_size = 1024

abbrev pub io_batch_pool_size : ℕ
io_batch_pool_size = 1024

abbrev pub io_extra_event_pool_size : ℕ
io_extra_event_pool_size = 128

abbrev pub directory_list_pool_size : ℕ
directory_list_pool_size = 128

-- The fields of a DOKAN_IO_BATCH before EventContext; the count is a LONG in two's complement.
pub record IoBatch : Type 0 where
  pub dokan_instance : Option ℕ
  pub number_of_bytes_transferred : ℕ
  pub main_pull_thread : Bool
  pub event_context_batch_count : ℕ
  pub pool_allocated : Bool

-- DOKAN_OPEN_INFO. Pointers to objects that the pools do not keep are opaque numbers; the search
-- pattern is the string that its pointer leads to.
pub record OpenInfo : Type 0 where
  pub dokan_instance : Option ℕ
  pub dir_list : Option ℕ
  pub dir_list_search_pattern : Option (List ℕ)
  pub unimplemented_find_files_with_pattern : Bool
  pub user_context : ℕ
  pub event_id : ℕ
  pub is_directory : Bool
  pub open_count : ℕ
  pub close_file_name : Option (List ℕ)
  pub close_user_context : ℕ
  pub event_context : Option ℕ

-- The globals and the heap. `live` are the addresses that malloc returned and that were not freed,
-- `next` the one that it returns next; `cleared` counts the leading bytes that were set to zero when
-- the block was last taken from a pool.
pub record State : Type 0 where
  pub thread_pool : Bool
  pub pools : Pool → Option (Vector ℕ)
  pub next : ℕ
  pub live : List ℕ
  pub io_batches : ℕ → IoBatch
  pub open_infos : ℕ → OpenInfo
  pub directory_lists : ℕ → Vector FindData
  pub cleared : ℕ → ℕ

abbrev pub set_pool : State → Pool → Option (Vector ℕ) → State
set_pool s k v = record s { pools = λ j. if pool_id k == pool_id j then v else s.pools j }

abbrev pub member : ℕ → List ℕ → Bool
member a [] = false
member a (x ∷ xs) = if a == x then true else member a xs

-- To free what is not live is a fault.
unfoldable pub free_block : ℕ → State → Outcome State
free_block p s = if member p s.live then ok (record s { live = remove p s.live }) else fault

unfoldable pub alloc_block : (ℕ → Bool) → ℕ → State → Option ℕ × State
alloc_block malloc size s =
    if malloc size
    then (some s.next, record s { next = suc s.next; live = s.next ∷ s.live })
    else (none, s)

abbrev pub take_item : Pool → State → Vector ℕ → Option (Option ℕ) → Outcome (Option ℕ × State)
take_item k s v (some (some p)) = ok (some p, set_pool s k (some (pop_back v)))
take_item k s v (some none) = fault
take_item k s v none = fault

abbrev pub pop_item_of : Pool → State → Option (Vector ℕ) → Outcome (Option ℕ × State)
pop_item_of k s none = ok (none, s)
pop_item_of k s (some v) =
    if ltb 0 (get_count v) then take_item k s v (get_last_item v) else ok (none, s)

-- The first critical section of a pop. DokanVector_GetCount of a null pointer is 0.
unfoldable pub pop_item : Pool → State → Outcome (Option ℕ × State)
unfolding get_count get_last_item pop_back
pop_item k s = pop_item_of k s (s.pools k)

abbrev pub or_alloc : (ℕ → Bool) → ℕ → Option ℕ × State → Option ℕ × State
or_alloc malloc size (some p, s) = (some p, s)
or_alloc malloc size (none, s) = alloc_block malloc size s

-- An object of the pool, or a new block.
unfoldable pub acquire : (ℕ → Bool) → ℕ → Pool → State → Outcome (Option ℕ × State)
unfolding pop_item alloc_block
acquire malloc size k s = map_outcome (or_alloc malloc size) (pop_item k s)

-- RtlZeroMemory of the first bytes of an object that is not null.
abbrev pub zero_memory : ℕ → Option ℕ × State → Option ℕ × State
zero_memory n (some p, s) = (some p, record s { cleared = update s.cleared p n })
zero_memory n (none, s) = (none, s)

abbrev pub push_item_of :
    (ℕ → Bool) → ℕ → Pool → ℕ → State → Option (Vector ℕ) → Outcome (Bool × State)
push_item_of malloc limit k p s none = fault
push_item_of malloc limit k p s (some v) =
    if ltb (get_count v) limit
    then map_outcome (λ r. (true, set_pool s k (some r.0))) (push_back malloc v p)
    else ok (false, s)

-- The critical section of a push, and whether the pointer was set to null. What
-- DokanVector_PushBack returns is not looked at.
unfoldable pub push_item : (ℕ → Bool) → ℕ → Pool → ℕ → State → Outcome (Bool × State)
unfolding get_count push_back
push_item malloc limit k p s = push_item_of malloc limit k p s (s.pools k)

abbrev pub unless_pushed : (State → Outcome State) → Bool × State → Outcome State
unless_pushed free (true, s) = ok s
unless_pushed free (false, s) = free s

-- A push to the pool, and what is done with an object that the pool does not take.
unfoldable pub release : (ℕ → Bool) → ℕ → Pool → ℕ → (State → Outcome State) → State → Outcome State
unfolding push_item
release malloc limit k p free s = push_item malloc limit k p s >>= unless_pushed free
