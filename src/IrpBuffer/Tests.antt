-- ===== src/IrpBuffer/Tests.antt =====
-- dokan-sys/src/dokany/sys/util/irp_buffer_helper.c: a query whose output is a header and a string.
use crv_virtual_disk.Prelude.{◌≡◌, ◌<◌, ◌^◌, refl, true, false, [], none, arith}
use crv_virtual_disk.IrpBuffer.{
  Irp, irp_mj_query_information, get_provided_output_size, get_output_buffer,
  prepare_output_with_size, extend_output_buffer_by_size, copy_extended, fill_partially,
  append_var_size_output_string,
}
use crv_virtual_disk.IrpBuffer.Bounds.{Bounded, prepare-Bounded}

abbrev query : Irp
query = record {
  major_function = irp_mj_query_information;
  io_control_code = 0;
  fs_control_code = 0;
  io_input_buffer_length = 0;
  fs_input_buffer_length = 0;
  io_output_buffer_length = 0;
  fs_output_buffer_length = 0;
  query_directory_length = 0;
  query_file_length = 16;
  query_security_length = 0;
  query_volume_length = 0;
  system_buffer = 4096;
  io_type3_input_buffer = 0;
  fs_type3_input_buffer = 0;
  user_buffer = 0;
  mdl_buffer = none;
  kernel_mode = false;
  can_read = λ a n. true;
  can_write = λ a n. true;
  information = 0;
  writes = [];
}

query-buffer : ¬ (get_output_buffer query ≡ 0)
unfolding get_output_buffer get_provided_output_size
query-buffer e = omega (arith, e)

query-provided : get_provided_output_size query < 2 ^ 32
unfolding get_provided_output_size
query-provided = omega arith

-- The Information of the IRP is more than what is provided.
prepare-Bounded_example :
    Bounded (prepare_output_with_size (record query { information = 100 }) 8 false).1
unfolding get_output_buffer get_provided_output_size
prepare-Bounded_example =
    prepare-Bounded (record query { information = 100 }) 8 query-buffer query-provided tt

-- Eight bytes are prepared; of fourteen from the sixth on, ten fit.
abbrev prepared : Irp
prepared = (prepare_output_with_size query 8 false).1

append_test : (append_var_size_output_string prepared 4102 14 false true).1.information ≡ 16
unfolding append_var_size_output_string prepare_output_with_size extend_output_buffer_by_size
    copy_extended fill_partially get_output_buffer get_provided_output_size
append_test = refl
