-- ===== src/Event/Tests.antt =====
-- A run of a delayed close.
use crv_virtual_disk.Prelude.{ℕ, ◌≡◌, refl, Bool, true, false, List, [], ◌∷◌, none, some, arith}
use crv_virtual_disk.Memory.{ok}
use crv_virtual_disk.Vector.{Vector}
use crv_virtual_disk.Vector.Contents.{Holds, Fits}
use crv_virtual_disk.Pool.Store.{Sizes, State}
use crv_virtual_disk.Pool.Buffers.{fresh_batch}
use crv_virtual_disk.Pool.OpenInfos.{fresh_open_info}
use crv_virtual_disk.Event.{Event, check_file_name, information_length, create_dispatch_common}
use crv_virtual_disk.Pool.Given.{Given}
use crv_virtual_disk.Event.ResultBlock.{Asserted, create_dispatch_common-Asserted}
use crv_virtual_disk.Event.Close.{dispatch_close, release_dokan_open_info}
use crv_virtual_disk.Event.Close.Waiting.{more, done, release_all, closed_event}
use crv_virtual_disk.Event.Close.Delayed.{delayed_close}

abbrev granted : ℕ → Bool
granted n = true

abbrev reading : Event
reading = record {
  open_info = some 7;
  kernel_context = some 7;
  process_id = 1;
  paging_flag = false;
  write_to_end_flag = false;
  synchronous_flag = false;
  nocache_flag = false;
  delete_on_close_flag = false;
  close_name = none;
  file_name = [];
  context = 3;
  is_directory = false;
  file_process_id = 1;
  paging_io = false;
  write_to_end_of_file = false;
  synchronous_io = false;
  nocache = false;
  delete_pending = false;
  event_result = some 9;
  event_result_size = 4160;
  pool_allocated = true;
  result_context = some 7;
  result_status = 0;
  calls = [];
}

abbrev name : List ℕ
name = 92 ∷ 97 ∷ []

abbrev closing : Event
closing = record reading { close_name = some name; event_result = none }

abbrev no_pool : Vector ℕ
no_pool = record {
  items = some [];
  item_count = 0;
  item_size = 8;
  max_items = 0;
  is_stack_allocated = false;
}

-- Four uses of the block 7: of its opening, of the Close request and of two other events.
abbrev running : State
running = record {
  thread_pool = true;
  pools = λ k. some no_pool;
  next = 10;
  live = 7 ∷ 9 ∷ [];
  io_batches = λ p. fresh_batch;
  open_infos = λ p. record fresh_open_info { open_count = 4 };
  directory_lists = λ p. record {
    items = none;
    item_count = 0;
    item_size = 592;
    max_items = 0;
    is_stack_allocated = false;
  };
  cleared = λ p. 0;
}

no_pool-Holds : Holds no_pool []
no_pool-Holds = record { spare = []; filled = refl; room = refl; count = refl; sized = omega arith }

no_pool-Fits : Fits no_pool
no_pool-Fits = omega arith

delayed_close_example :
    (r : Event) × (t : State) × (t' : State) × (u : State) × (w : State) × (dispatch_close true
        granted closing running
      ≡ ok (r, t))
    × (r.calls ≡ [])
    × (release_all true granted (reading ∷ []) t ≡ ok (reading ∷ [], t'))
    × (t'.live ≡ running.live)
    × (t'.pools ≡ running.pools)
    × (release_dokan_open_info true granted reading t'
        ≡ ok (closed_event true reading (some (check_file_name name)) 3, w))
    × (u.live ≡ running.live)
    × (u.pools ≡ running.pools)
    × Given granted 7 u no_pool [] w
delayed_close_example =
    delayed_close true granted 7 closing (reading ∷ []) reading name running no_pool [] refl refl
      (more (record { refers = refl; plain = refl }) done) (record { refers = refl; plain = refl })
      refl (omega arith) refl
      (record {
        no_list = refl;
        vector = refl;
        holds = no_pool-Holds;
        fits = no_pool-Fits;
        alive = refl;
      })

abbrev sizes : Sizes
sizes = record {
  io_batch = 65600;
  io_event = 128;
  event_info_default = 4160;
  event_info_16k = 16448;
  event_info_32k = 32832;
  event_info_64k = 65600;
  event_info_128k = 131136;
  event_info_header = 64;
  open_info = 128;
  find_data = 592;
}

create_dispatch_common-Asserted_example :
    Asserted 5000
      (information_length sizes 72 5000)
      (create_dispatch_common sizes 72 granted 5000 true false closing running)
create_dispatch_common-Asserted_example =
    create_dispatch_common-Asserted sizes 72 granted 5000 true false closing running
      (record {
        default = refl;
        k16 = refl;
        k32 = refl;
        k64 = refl;
        k128 = refl;
        small = omega arith;
      })
      (omega arith) refl
