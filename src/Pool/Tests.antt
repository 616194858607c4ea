-- ===== src/Pool/Tests.antt =====
-- Runs of the pools on a small state.
use crv_virtual_disk.Prelude.{ℕ, ◌≡◌, refl, Bool, true, false, [], ◌∷◌, none, some, arith}
use crv_virtual_disk.Memory.{ok}
use crv_virtual_disk.Vector.{Vector}
use crv_virtual_disk.Vector.Contents.{Holds}
use crv_virtual_disk.Directory.Entries.{FindData}
use crv_virtual_disk.Pool.Store.{State, Sizes, io_batch_pool, io_batch_pool_size}
use crv_virtual_disk.Pool.Buffers.{fresh_batch, push_io_batch_buffer}
use crv_virtual_disk.Pool.OpenInfos.{fresh_open_info, push_file_open_info}
use crv_virtual_disk.Pool.Given.{Given, push_file_open_info-Given}
use crv_virtual_disk.Pool.Reuse.{
  Released, Acquired, io_event, result_16k, pool_of, capacity_of, cleared_of, push_buffer,
  pop_buffer, push_buffer-Released, pop_buffer-Acquired,
}
use crv_virtual_disk.Pool.Batches.{push_batch_times, count_down, push_batch_times-Released}

abbrev granted : ℕ → Bool
granted n = true

-- A vector that holds the pointer 5.
abbrev one_pointer : Vector ℕ
one_pointer = record {
  items = some (some 5 ∷ none ∷ none ∷ none ∷ []);
  item_count = 1;
  item_size = 8;
  max_items = 4;
  is_stack_allocated = false;
}

one_pointer-Holds : Holds one_pointer (5 ∷ [])
one_pointer-Holds = record {
  spare = none ∷ none ∷ none ∷ [];
  filled = refl;
  room = refl;
  count = refl;
  sized = omega arith;
}

abbrev no_files : Vector FindData
no_files = record {
  items = none;
  item_count = 0;
  item_size = 592;
  max_items = 0;
  is_stack_allocated = false;
}

-- The blocks 5 and 9 are live; the batch at 9 has two events.
abbrev running : State
running = record {
  thread_pool = true;
  pools = λ k. some one_pointer;
  next = 10;
  live = 5 ∷ 9 ∷ [];
  io_batches = λ p. record fresh_batch { event_context_batch_count = 2 };
  open_infos = λ p. fresh_open_info;
  directory_lists = λ p. no_files;
  cleared = λ p. 0;
}

abbrev sizes : Sizes
sizes = record {
  io_batch = 65600;
  io_event = 128;
  event_info_default = 1024;
  event_info_16k = 16384;
  event_info_32k = 32768;
  event_info_64k = 65536;
  event_info_128k = 131072;
  event_info_header = 64;
  open_info = 128;
  find_data = 592;
}

push_buffer-Released_example :
    Released granted
      (pool_of result_16k)
      (capacity_of result_16k)
      9
      running
      one_pointer
      (5 ∷ [])
      (push_buffer result_16k granted 9 running)
push_buffer-Released_example =
    push_buffer-Released result_16k granted 9 running one_pointer (5 ∷ []) refl one_pointer-Holds
      (omega arith) refl

pop_buffer-Acquired_example :
    Acquired granted
      (pool_of io_event)
      (cleared_of sizes io_event)
      running
      one_pointer
      (5 ∷ [])
      (pop_buffer io_event sizes granted running)
pop_buffer-Acquired_example =
    pop_buffer-Acquired io_event sizes granted running one_pointer (5 ∷ []) refl one_pointer-Holds

push_file_open_info-Given_example :
    (w : State) × (push_file_open_info granted 9 running ≡ ok w)
    × Given granted 9 running one_pointer (5 ∷ []) w
push_file_open_info-Given_example =
    push_file_open_info-Given granted 9 running one_pointer (5 ∷ []) refl refl one_pointer-Holds
      (omega arith) refl

push_batch_times-Released_example :
    (t : State) × (push_batch_times granted 9 1 running ≡ ok t)
    × (t.pools ≡ running.pools)
    × (t.live ≡ running.live)
    × Released granted io_batch_pool io_batch_pool_size 9
        (count_down 9 t)
        one_pointer
        (5 ∷ [])
        (push_io_batch_buffer granted 9 t)
push_batch_times-Released_example =
    push_batch_times-Released granted 9 1 running one_pointer (5 ∷ []) refl (omega arith) refl refl
      one_pointer-Holds (omega arith) refl
