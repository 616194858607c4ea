-- ===== src/IrpBuffer.antt =====
-- dokan-sys/src/dokany/sys/util/irp_buffer_helper.c: the buffers of an IRP, and the output that is put
-- into them.
use Prim.Native.Nat.{bit_and}
use crv_virtual_disk.Prelude.{
  ℕ, ◌+◌, ◌-◌, ◌*◌, ◌/◌, ◌%◌, ◌^◌, Bool, true, false, not, ◌&&◌, ◌||◌, List, [], ◌∷◌, ◌++◌, Option,
  none, some, ltb, leb, ◌==◌, if◌then◌else◌,
}
pub mod Bounds
pub mod Strings
mod Tests

-- The major functions that the sizes depend on.
pub data MajorFunction : Type 0 where
  irp_mj_device_control : MajorFunction
  irp_mj_directory_control : MajorFunction
  irp_mj_file_system_control : MajorFunction
  irp_mj_query_information : MajorFunction
  irp_mj_query_security : MajorFunction
  irp_mj_query_volume_information : MajorFunction
  irp_mj_other : MajorFunction

-- A block of memory that is written: its address and its length.
pub record Write : Type 0 where
  pub address : ℕ
  pub length : ℕ

-- The IRP and its stack location; a null pointer is 0. `mdl_buffer` is the mapping of the MDL, if there is
-- one, `can_read` and `can_write` whether ProbeForRead and ProbeForWrite raise no exception. Only the
-- Information and the memory that was written change.
pub record Irp : Type 0 where
  pub major_function : MajorFunction
  pub io_control_code : ℕ
  pub fs_control_code : ℕ
  pub io_input_buffer_length : ℕ
  pub fs_input_buffer_length : ℕ
  pub io_output_buffer_length : ℕ
  pub fs_output_buffer_length : ℕ
  pub query_directory_length : ℕ
  pub query_file_length : ℕ
  pub query_security_length : ℕ
  pub query_volume_length : ℕ
  pub system_buffer : ℕ
  pub io_type3_input_buffer : ℕ
  pub fs_type3_input_buffer : ℕ
  pub user_buffer : ℕ
  pub mdl_buffer : Option ℕ
  pub kernel_mode : Bool
  pub can_read : ℕ → ℕ → Bool
  pub can_write : ℕ → ℕ → Bool
  pub information : ℕ
  pub writes : List Write

-- GetProvidedInputSize
unfoldable pub get_provided_input_size : Irp → ℕ
get_provided_input_size irp = size irp.major_function
  where
    size : MajorFunction → ℕ
    size irp_mj_device_control = irp.io_input_buffer_length
    size irp_mj_file_system_control = irp.fs_input_buffer_length
    size irp_mj_directory_control = 0
    size irp_mj_query_information = 0
    size irp_mj_query_security = 0
    size irp_mj_query_volume_information = 0
    size irp_mj_other = 0

-- GetProvidedOutputSize
unfoldable pub get_provided_output_size : Irp → ℕ
get_provided_output_size irp = size irp.major_function
  where
    size : MajorFunction → ℕ
    size irp_mj_device_control = irp.io_output_buffer_length
    size irp_mj_directory_control = irp.query_directory_length
    size irp_mj_file_system_control = irp.fs_output_buffer_length
    size irp_mj_query_information = irp.query_file_length
    size irp_mj_query_security = irp.query_security_length
    size irp_mj_query_volume_information = irp.query_volume_length
    size irp_mj_other = 0

-- METHOD_NEITHER, which has both bits of the mask.
abbrev pub is_neither : ℕ → Bool
is_neither code = bit_and code 3 == 3

abbrev pub input_pointer : Irp → ℕ
input_pointer irp = pointer irp.major_function
  where
    pointer : MajorFunction → ℕ
    pointer irp_mj_device_control =
        if is_neither irp.io_control_code then irp.io_type3_input_buffer else irp.system_buffer
    pointer irp_mj_file_system_control =
        if is_neither irp.fs_control_code then irp.fs_type3_input_buffer else irp.system_buffer
    pointer irp_mj_directory_control = irp.system_buffer
    pointer irp_mj_query_information = irp.system_buffer
    pointer irp_mj_query_security = irp.system_buffer
    pointer irp_mj_query_volume_information = irp.system_buffer
    pointer irp_mj_other = irp.system_buffer

-- GetInputBuffer
unfoldable pub get_input_buffer : Irp → ℕ
unfolding get_provided_input_size
get_input_buffer irp =
    let buffer = input_pointer irp in
    if not irp.kernel_mode
      && not (buffer == 0)
      && not (buffer == irp.system_buffer)
      && not (irp.can_read buffer (get_provided_input_size irp))
    then 0
    else buffer

abbrev pub mdl_or_user : Option ℕ → ℕ → ℕ
mdl_or_user none user = user
mdl_or_user (some buffer) user = buffer

abbrev pub output_pointer : Irp → ℕ
output_pointer irp = pointer irp.major_function
  where
    pointer : MajorFunction → ℕ
    pointer irp_mj_device_control =
        if is_neither irp.io_control_code then irp.user_buffer else irp.system_buffer
    pointer irp_mj_file_system_control =
        if is_neither irp.fs_control_code then irp.user_buffer else irp.system_buffer
    pointer irp_mj_query_security = irp.user_buffer
    pointer irp_mj_directory_control = mdl_or_user irp.mdl_buffer irp.user_buffer
    pointer irp_mj_query_information = irp.system_buffer
    pointer irp_mj_query_volume_information = irp.system_buffer
    pointer irp_mj_other = irp.system_buffer

-- GetOutputBuffer
unfoldable pub get_output_buffer : Irp → ℕ
unfolding get_provided_output_size
get_output_buffer irp =
    let buffer = output_pointer irp in
    if not irp.kernel_mode
      && (buffer == irp.user_buffer)
      && not (irp.can_write buffer (get_provided_output_size irp))
    then 0
    else buffer

abbrev pub write : ℕ → ℕ → Irp → Irp
write address length irp = record irp {
  writes = irp.writes ++ record { address = address; length = length } ∷ [];
}

-- PrepareOutputWithSize
unfoldable pub prepare_output_with_size : Irp → ℕ → Bool → ℕ × Irp
unfolding get_output_buffer
prepare_output_with_size irp size set_information_on_failure =
    if get_output_buffer irp == 0
    then (0, irp)
    else if ltb (get_provided_output_size irp) size
    then (0, record irp { information = if set_information_on_failure then size else 0 })
    else (
      get_output_buffer irp,
      record (write (get_output_buffer irp) size irp) { information = size },
    )

-- ExtendOutputBufferBySize; sums of sizes are of 64 bits.
unfoldable pub extend_output_buffer_by_size : Irp → ℕ → Bool → Bool × Irp
unfolding get_output_buffer
extend_output_buffer_by_size irp additional_size update_information_on_failure =
    let sum = (irp.information + additional_size) % 2 ^ 64 in
    if get_output_buffer irp == 0
    then (false, irp)
    else if ltb (get_provided_output_size irp) sum
    then (false, if update_information_on_failure then record irp { information = sum } else irp)
    else (
      true,
      record (write (get_output_buffer irp + irp.information) additional_size irp) {
        information = sum;
      },
    )

-- The copy of a string of `length` bytes, of which `copy_size` are copied.
abbrev pub copy : ℕ → ℕ → ℕ → Irp → Bool × Irp
copy dest length copy_size irp = (copy_size == length, write dest copy_size irp)

-- Whole characters up to the end of what is provided.
abbrev pub partial_size : ℕ → ℕ → ℕ
partial_size provided dest_offset = (provided + 2 ^ 64 - dest_offset) % 2 ^ 64 / 2 * 2

unfoldable pub fill_partially : ℕ → ℕ → ℕ → Bool → Irp → Bool × Irp
unfolding get_provided_output_size
fill_partially dest dest_offset length fill irp =
    let size = partial_size (get_provided_output_size irp) dest_offset in
    if fill
    then copy dest length size (record irp { information = (size + dest_offset) % 2 ^ 64 })
    else (false, irp)

unfoldable pub copy_extended : ℕ → ℕ → ℕ → Bool → Bool × Irp → Bool × Irp
unfolding fill_partially
copy_extended dest dest_offset length fill (true, irp) = copy dest length length irp
copy_extended dest dest_offset length fill (false, irp) =
    fill_partially dest dest_offset length fill irp

-- AppendVarSizeOutputString, for a string of `length` bytes.
unfoldable pub append_var_size_output_string : Irp → ℕ → ℕ → Bool → Bool → Bool × Irp
unfolding extend_output_buffer_by_size copy_extended
append_var_size_output_string irp dest length update_information_on_failure fill =
    let buffer = get_output_buffer irp in
    if ltb dest buffer || ltb (buffer + irp.information) dest
    then (false, irp)
    else if length == 0
    then (true, irp)
    else if ltb (irp.information - (dest - buffer)) length
    then copy_extended dest (dest - buffer) length fill (
        extend_output_buffer_by_size irp ((length - (irp.information - (dest - buffer))) % 2 ^ 32)
          update_information_on_failure)
    else copy dest length length irp
