-- ===== src/Create/Tests.antt =====
-- A run of DispatchCreate.
use crv_virtual_disk.Prelude.{ℕ, ◌≡◌, refl, true, false, [], ◌∷◌, none, some}
use crv_virtual_disk.Memory.{ok}
use crv_virtual_disk.Vector.{Vector, pop_back, get_last_item, get_count, read_cell}
use crv_virtual_disk.Pool.Store.{State, Sizes, acquire, pop_item}
use crv_virtual_disk.Pool.Buffers.{fresh_batch}
use crv_virtual_disk.Pool.OpenInfos.{fresh_open_info, pop_file_open_info}
use crv_virtual_disk.Event.{check_file_name}
use crv_virtual_disk.Create.Request.{
  CreateRequest, prepare, parent_name, strip_last, create_succes_status_check,
}
use crv_virtual_disk.Create.{
  Created, dispatch_create, create_with, open_file, probe_target, create_unless_invalid,
  call_create, call_back, end_create, succeed, success_information, answer_context,
}
use crv_virtual_disk.Create.Context.{Consistent, dispatch_create-Consistent}

abbrev one_pointer : Vector ℕ
one_pointer = record {
  items = some (some 5 ∷ none ∷ []);
  item_count = 1;
  item_size = 8;
  max_items = 2;
  is_stack_allocated = false;
}

abbrev idle : State
idle = record {
  thread_pool = true;
  pools = λ k. some one_pointer;
  next = 10;
  live = 5 ∷ [];
  io_batches = λ p. fresh_batch;
  open_infos = λ p. fresh_open_info;
  directory_lists = λ p. record {
    items = none;
    item_count = 0;
    item_size = 592;
    max_items = 0;
    is_stack_allocated = false;
  };
  cleared = λ p. 0;
}

abbrev sizes : Sizes
sizes = record {
  io_batch = 65600;
  io_event = 128;
  event_info_default = 4160;
  event_info_16k = 16448;
  event_info_32k = 32832;
  event_info_64k = 65600;
  event_info_128k = 131136;
  event_info_header = 64;
  open_info = 128;
  find_data = 592;
}

-- The parent folder of "\ab" is opened, for reading, by a file system that grants all.
abbrev request : CreateRequest
request = record {
  file_name = 92 ∷ 97 ∷ 98 ∷ [];
  create_options = 0x1000040;
  open_target_directory = true;
  desired_access = 1;
  zw_create_file = some (λ before call. record { status = 0; context = 3; is_directory = true });
  cleanup_callback = some (λ before name context. 0);
  close_file_callback = some (λ before name context. context);
}

created : (d : Created) × (dispatch_create sizes (λ n. true) request 1 none none idle ≡ ok d)
unfolding dispatch_create create_with call_back pop_file_open_info acquire pop_item get_count
    get_last_item pop_back read_cell check_file_name prepare parent_name strip_last open_file
    probe_target create_unless_invalid call_create end_create create_succes_status_check succeed
    success_information answer_context
created = (_, refl)

dispatch_create-Consistent_example : Consistent created.0
dispatch_create-Consistent_example =
    dispatch_create-Consistent sizes (λ n. true) request 1 none none idle created.0 created.1
