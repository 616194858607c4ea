-- ===== src/Pool/Buffers.antt =====
-- dokan-sys/src/dokany/dokan/dokan_pool.c: the pools of I/O batches, I/O events and event results.
use crv_virtual_disk.Prelude.{
  update, ℕ, ◌+◌, ◌-◌, ◌%◌, ◌^◌, Bool, true, false, Option, none, some, ltb, if◌then◌else◌, ◌&&◌,
  not,
}
use crv_virtual_disk.Memory.{Outcome, ok, map_outcome}
use crv_virtual_disk.Pool.Store.{
  Sizes, State, IoBatch, io_batch_pool, io_event_pool, event_result_pool, event_result_16k_pool,
  event_result_32k_pool, event_result_64k_pool, event_result_128k_pool, io_batch_pool_size,
  io_event_pool_size, io_extra_event_pool_size, free_block, acquire, zero_memory, release,
}

-- Freeing a null pointer does nothing.
unfoldable pub free_pointer : Option ℕ → State → Outcome State
unfolding free_block
free_pointer none s = ok s
free_pointer (some p) s = free_block p s

-- FreeIoEventBuffer, FreeIoBatchBuffer and FreeEventResult.
unfoldable pub free_io_event_buffer : Option ℕ → State → Outcome State
unfolding free_pointer
free_io_event_buffer p s = free_pointer p s

unfoldable pub free_io_batch_buffer : Option ℕ → State → Outcome State
unfolding free_pointer
free_io_batch_buffer p s = free_pointer p s

unfoldable pub free_event_result : Option ℕ → State → Outcome State
unfolding free_pointer
free_event_result p s = free_pointer p s

-- A batch whose fields are zero, but for PoolAllocated.
abbrev pub fresh_batch : IoBatch
fresh_batch = record {
  dokan_instance = none;
  number_of_bytes_transferred = 0;
  main_pull_thread = false;
  event_context_batch_count = 0;
  pool_allocated = true;
}

abbrev pub prepare_batch : Option ℕ × State → Option ℕ × State
prepare_batch (some p, s) = (some p, record s { io_batches = update s.io_batches p fresh_batch })
prepare_batch (none, s) = (none, s)

unfoldable pub pop_io_batch_buffer : Sizes → (ℕ → Bool) → State → Outcome (Option ℕ × State)
unfolding acquire
pop_io_batch_buffer sizes malloc s =
    map_outcome prepare_batch (acquire malloc sizes.io_batch io_batch_pool s)

-- A LONG that is above zero.
abbrev pub is_positive : ℕ → Bool
is_positive n = ltb 0 n && ltb n (2 ^ 31)

unfoldable pub decremented : IoBatch → IoBatch
decremented b = record b {
  event_context_batch_count = (b.event_context_batch_count + (2 ^ 32 - 1)) % 2 ^ 32;
}

-- What follows the decrement of the count, which `b` has.
unfoldable pub retire_batch : (ℕ → Bool) → ℕ → IoBatch → State → Outcome State
unfolding release free_io_batch_buffer
retire_batch malloc p b s =
    if is_positive b.event_context_batch_count
    then ok s
    else if not b.pool_allocated
    then free_io_batch_buffer (some p) s
    else release malloc io_batch_pool_size io_batch_pool p (free_io_batch_buffer (some p)) s

unfoldable pub push_io_batch_buffer : (ℕ → Bool) → ℕ → State → Outcome State
unfolding retire_batch decremented
push_io_batch_buffer malloc p s =
    let b = decremented (s.io_batches p) in
    retire_batch malloc p b (record s { io_batches = update s.io_batches p b })

unfoldable pub pop_io_event_buffer : Sizes → (ℕ → Bool) → State → Outcome (Option ℕ × State)
unfolding acquire
pop_io_event_buffer sizes malloc s =
    map_outcome (zero_memory sizes.io_event) (acquire malloc sizes.io_event io_event_pool s)

unfoldable pub push_io_event_buffer : (ℕ → Bool) → ℕ → State → Outcome State
unfolding release free_io_event_buffer
push_io_event_buffer malloc p s =
    release malloc io_event_pool_size io_event_pool p (free_io_event_buffer (some p)) s

unfoldable pub pop_event_result : Sizes → (ℕ → Bool) → State → Outcome (Option ℕ × State)
unfolding acquire
pop_event_result sizes malloc s =
    map_outcome (zero_memory sizes.event_info_default)
      (acquire malloc sizes.event_info_default event_result_pool s)

unfoldable pub push_event_result : (ℕ → Bool) → ℕ → State → Outcome State
unfolding release free_event_result
push_event_result malloc p s =
    release malloc io_event_pool_size event_result_pool p (free_event_result (some p)) s

unfoldable pub pop_event_result_16k : Sizes → (ℕ → Bool) → State → Outcome (Option ℕ × State)
unfolding acquire
pop_event_result_16k sizes malloc s =
    map_outcome (zero_memory sizes.event_info_header)
      (acquire malloc sizes.event_info_16k event_result_16k_pool s)

unfoldable pub push_event_result_16k : (ℕ → Bool) → ℕ → State → Outcome State
unfolding release free_event_result
push_event_result_16k malloc p s =
    release malloc io_extra_event_pool_size event_result_16k_pool p (free_event_result (some p)) s

unfoldable pub pop_event_result_32k : Sizes → (ℕ → Bool) → State → Outcome (Option ℕ × State)
unfolding acquire
pop_event_result_32k sizes malloc s =
    map_outcome (zero_memory sizes.event_info_header)
      (acquire malloc sizes.event_info_32k event_result_32k_pool s)

unfoldable pub push_event_result_32k : (ℕ → Bool) → ℕ → State → Outcome State
unfolding release free_event_result
push_event_result_32k malloc p s =
    release malloc io_extra_event_pool_size event_result_32k_pool p (free_event_result (some p)) s

unfoldable pub pop_event_result_64k : Sizes → (ℕ → Bool) → State → Outcome (Option ℕ × State)
unfolding acquire
pop_event_result_64k sizes malloc s =
    map_outcome (zero_memory sizes.event_info_header)
      (acquire malloc sizes.event_info_64k event_result_64k_pool s)

unfoldable pub push_event_result_64k : (ℕ → Bool) → ℕ → State → Outcome State
unfolding release free_event_result
push_event_result_64k malloc p s =
    release malloc io_extra_event_pool_size event_result_64k_pool p (free_event_result (some p)) s

unfoldable pub pop_event_result_128k : Sizes → (ℕ → Bool) → State → Outcome (Option ℕ × State)
unfolding acquire
pop_event_result_128k sizes malloc s =
    map_outcome (zero_memory sizes.event_info_header)
      (acquire malloc sizes.event_info_128k event_result_128k_pool s)

unfoldable pub push_event_result_128k : (ℕ → Bool) → ℕ → State → Outcome State
unfolding release free_event_result
push_event_result_128k malloc p s =
    release malloc io_extra_event_pool_size event_result_128k_pool p (free_event_result (some p)) s
