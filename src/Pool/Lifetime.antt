-- ===== src/Pool/Lifetime.antt =====
-- dokan-sys/src/dokany/dokan/dokan_pool.c: InitializePool and CleanupPool. The thread pool is
-- created if `created` says so.
use crv_virtual_disk.Prelude.{
  ℕ, zero, suc, Bool, true, false, Option, none, some, if◌then◌else◌, not,
}
use crv_virtual_disk.Memory.{Outcome, ok, fault, ◌>>=◌}
use crv_virtual_disk.Vector.{Vector, alloc_with_capacity, get_item, get_count}
use crv_virtual_disk.Pool.Store.{
  Pool, State, io_batch_pool, io_event_pool, event_result_pool, event_result_16k_pool,
  event_result_32k_pool, event_result_64k_pool, event_result_128k_pool, file_info_pool,
  directory_list_pool, io_batch_pool_size, io_event_pool_size, io_extra_event_pool_size,
  directory_list_pool_size, free_block, set_pool,
}
use crv_virtual_disk.Pool.Buffers.{free_io_batch_buffer, free_io_event_buffer, free_event_result}
use crv_virtual_disk.Pool.OpenInfos.{free_file_open_info}

-- DOKAN_SUCCESS and DOKAN_DRIVER_INSTALL_ERROR.
pub data InitResult : Type 0 where
  success : InitResult
  driver_install_error : InitResult

abbrev pub pool_capacity : Pool → ℕ
pool_capacity io_batch_pool = io_batch_pool_size
pool_capacity io_event_pool = io_event_pool_size
pool_capacity event_result_pool = io_event_pool_size
pool_capacity event_result_16k_pool = io_extra_event_pool_size
pool_capacity event_result_32k_pool = io_extra_event_pool_size
pool_capacity event_result_64k_pool = io_extra_event_pool_size
pool_capacity event_result_128k_pool = io_extra_event_pool_size
pool_capacity file_info_pool = io_event_pool_size
pool_capacity directory_list_pool = directory_list_pool_size

abbrev pub sizeof_pointer : ℕ
sizeof_pointer = 8

unfoldable pub initialize_pool : (ℕ → Bool) → Bool → State → InitResult × State
unfolding alloc_with_capacity
initialize_pool malloc created s =
    if s.thread_pool
    then (driver_install_error, s)
    else if not created
    then (driver_install_error, s)
    else (
      success,
      record s {
        thread_pool = true;
        pools = λ k. alloc_with_capacity malloc sizeof_pointer (pool_capacity k);
      },
    )

abbrev pub free_pointed :
    (Option ℕ → State → Outcome State) → State → Option (Option ℕ) → Outcome State
free_pointed free s (some p) = free p s
free_pointed free s none = fault

abbrev pub dereference : Option (Option ℕ) → Option (Option ℕ)
dereference (some (some p)) = some (some p)
dereference (some none) = none
dereference none = none

-- The loop of one block of CleanupPool: `n` items from index `i` on.
unfoldable pub free_items :
    (Option ℕ → State → Outcome State) → Vector ℕ → ℕ → ℕ → State → Outcome State
unfolding get_item
free_items free v zero i s = ok s
free_items free v (suc n) i s =
    free_pointed free s (dereference (get_item v i)) >>= free_items free v n (suc i)

abbrev pub free_vector_items :
    (Option ℕ → State → Outcome State) → State → Option (Vector ℕ) → Outcome State
unfolding free_items get_count
free_vector_items free s none = ok s
free_vector_items free s (some v) = free_items free v (get_count v) 0 s

-- A block of CleanupPool. The loop frees no item of its own pool's vector, and leaves the vector as it
-- is.
unfoldable pub free_pool : (Option ℕ → State → Outcome State) → Pool → State → Outcome State
unfolding free_vector_items
free_pool free k s = free_vector_items free s (s.pools k) >>= λ s'. ok (set_pool s' k none)

abbrev pub free_directory_list : Option ℕ → State → Outcome State
unfolding free_block
free_directory_list none s = ok s
free_directory_list (some p) s = free_block p s

unfoldable pub cleanup_pool : (ℕ → Bool) → State → Outcome State
unfolding free_pool free_io_batch_buffer free_io_event_buffer free_event_result free_file_open_info
    free_directory_list
cleanup_pool malloc s =
    free_pool free_io_batch_buffer io_batch_pool (record s { thread_pool = false })
    >>= free_pool free_io_event_buffer io_event_pool
    >>= free_pool free_event_result event_result_pool
    >>= free_pool free_event_result event_result_16k_pool
    >>= free_pool free_event_result event_result_32k_pool
    >>= free_pool free_event_result event_result_64k_pool
    >>= free_pool free_event_result event_result_128k_pool
    >>= free_pool (free_file_open_info malloc) file_info_pool
    >>= free_pool free_directory_list directory_list_pool
