-- ===== src/Directory/Entries.antt =====
-- dokan-sys/src/dokany/dokan/directory.c: DokanFillDirectoryInformation and the Fill functions that it
-- calls, with ALIGN_ALLOCATION_SIZE of dokan.c and QuadAlign of fileinfo.h. A directory entry is the
-- record of its fields, those that an information class does not have being `none`; fields that are
-- not written are zero by RtlZeroMemory. A file name has less than 260 characters, so that no 32-bit
-- size wraps.
use crv_virtual_disk.Prelude.{
  ℕ, ◌+◌, ◌-◌, ◌*◌, ◌/◌, ◌%◌, ◌^◌, List, Option, none, some, ltb, if◌then◌else◌, length,
}

-- FILETIME, and the LARGE_INTEGER that it is copied to.
pub record FileTime : Type 0 where
  pub low : ℕ
  pub high : ℕ

-- What is read of WIN32_FIND_DATAW.
pub record FindData : Type 0 where
  pub file_attributes : ℕ
  pub creation_time : FileTime
  pub last_access_time : FileTime
  pub last_write_time : FileTime
  pub file_size_high : ℕ
  pub file_size_low : ℕ
  pub file_name : List ℕ

pub data InfoClass : Type 0 where
  directory : InfoClass
  full_directory : InfoClass
  id_full_directory : InfoClass
  names : InfoClass
  both_directory : InfoClass
  id_both_directory : InfoClass
  id_extd_directory : InfoClass
  id_extd_both_directory : InfoClass
  other_class : ℕ → InfoClass

pub record DirInfo : Type 0 where
  pub file_index : ℕ
  pub file_attributes : ℕ
  pub file_name_length : ℕ
  pub end_of_file : ℕ
  pub allocation_size : ℕ
  pub creation_time : FileTime
  pub last_access_time : FileTime
  pub last_write_time : FileTime
  pub change_time : FileTime
  pub ea_size : Option ℕ
  pub file_id : Option ℕ
  pub reparse_point_tag : Option ℕ
  pub short_name_length : Option ℕ
  pub file_name : List ℕ

pub record NamesInfo : Type 0 where
  pub file_index : ℕ
  pub file_name_length : ℕ
  pub file_name : List ℕ

-- `zeroed` is an entry of which nothing was filled in.
pub data EntryInfo : Type 0 where
  dir_info : DirInfo → EntryInfo
  names_info : NamesInfo → EntryInfo
  zeroed : EntryInfo

-- A LARGE_INTEGER from 2 ^ 63 on is negative, and its remainder is not positive.
unfoldable pub align_allocation_size : ℕ → ℕ → ℕ
align_allocation_size size unit =
    if ltb size (2 ^ 63)
    then (if ltb 0 (size % unit) then (size + (unit - size % unit)) % 2 ^ 64 else size)
    else size

abbrev pub name_bytes : FindData → ℕ
name_bytes f = length f.file_name * 2

abbrev pub file_size : FindData → ℕ
file_size f = f.file_size_high * 2 ^ 32 + f.file_size_low

-- `unit` is DokanOptions->AllocationUnitSize.
unfoldable pub fill_dir_info : FindData → ℕ → ℕ → DirInfo
unfolding align_allocation_size
fill_dir_info f index unit = record {
  file_index = index;
  file_attributes = f.file_attributes;
  file_name_length = name_bytes f;
  end_of_file = file_size f;
  allocation_size = align_allocation_size (file_size f) unit;
  creation_time = f.creation_time;
  last_access_time = f.last_access_time;
  last_write_time = f.last_write_time;
  change_time = f.last_write_time;
  ea_size = none;
  file_id = none;
  reparse_point_tag = none;
  short_name_length = none;
  file_name = f.file_name;
}

unfoldable pub fill_full_dir_info : FindData → ℕ → ℕ → DirInfo
unfolding fill_dir_info
fill_full_dir_info f index unit = record (fill_dir_info f index unit) { ea_size = some 0 }

unfoldable pub fill_id_full_dir_info : FindData → ℕ → ℕ → DirInfo
unfolding fill_dir_info
fill_id_full_dir_info f index unit = record (fill_dir_info f index unit) {
  ea_size = some 0;
  file_id = some 0;
}

unfoldable pub fill_id_both_dir_info : FindData → ℕ → ℕ → DirInfo
unfolding fill_dir_info
fill_id_both_dir_info f index unit = record (fill_dir_info f index unit) {
  ea_size = some 0;
  file_id = some 0;
  short_name_length = some 0;
}

unfoldable pub fill_id_extd_dir_info : FindData → ℕ → ℕ → DirInfo
unfolding fill_dir_info
fill_id_extd_dir_info f index unit = record (fill_dir_info f index unit) {
  ea_size = some 0;
  file_id = some 0;
  reparse_point_tag = some 0;
}

unfoldable pub fill_id_extd_both_dir_info : FindData → ℕ → ℕ → DirInfo
unfolding fill_dir_info
fill_id_extd_both_dir_info f index unit = record (fill_dir_info f index unit) {
  ea_size = some 0;
  file_id = some 0;
  reparse_point_tag = some 0;
  short_name_length = some 0;
}

unfoldable pub fill_both_dir_info : FindData → ℕ → ℕ → DirInfo
unfolding fill_dir_info
fill_both_dir_info f index unit = record (fill_dir_info f index unit) {
  ea_size = some 0;
  short_name_length = some 0;
}

unfoldable pub fill_names_info : FindData → ℕ → NamesInfo
fill_names_info f index = record {
  file_index = index;
  file_name_length = name_bytes f;
  file_name = f.file_name;
}

-- sizeof the structs of fileinfo.h in a 64-bit build. FILE_ID_EXTD_DIR_INFO is the Windows SDK's, and
-- its size `extd` a parameter.
unfoldable pub header_size : ℕ → InfoClass → ℕ
header_size extd directory = 72
header_size extd full_directory = 72
header_size extd id_full_directory = 88
header_size extd names = 16
header_size extd both_directory = 96
header_size extd id_both_directory = 112
header_size extd id_extd_directory = extd
header_size extd id_extd_both_directory = 120
header_size extd (other_class c) = 0

-- The next multiple of eight.
abbrev pub quad_align : ℕ → ℕ
quad_align n = (n + 7) / 8 * 8

-- The second switch.
unfoldable pub fill_entry : InfoClass → FindData → ℕ → ℕ → EntryInfo
unfolding fill_dir_info fill_full_dir_info fill_id_full_dir_info fill_names_info fill_both_dir_info
    fill_id_both_dir_info fill_id_extd_dir_info fill_id_extd_both_dir_info
fill_entry directory f index unit = dir_info (fill_dir_info f index unit)
fill_entry full_directory f index unit = dir_info (fill_full_dir_info f index unit)
fill_entry id_full_directory f index unit = dir_info (fill_id_full_dir_info f index unit)
fill_entry names f index unit = names_info (fill_names_info f index)
fill_entry both_directory f index unit = dir_info (fill_both_dir_info f index unit)
fill_entry id_both_directory f index unit = dir_info (fill_id_both_dir_info f index unit)
fill_entry id_extd_directory f index unit = dir_info (fill_id_extd_dir_info f index unit)
fill_entry id_extd_both_directory f index unit = dir_info (fill_id_extd_both_dir_info f index unit)
fill_entry (other_class c) f index unit = zeroed

-- The size of an entry, and what is left of the buffer behind it. The size is 0, and nothing is
-- written, where the entry does not fit.
pub record Filled : Type 0 where
  pub entry_size : ℕ
  pub remaining : ℕ
  pub info : EntryInfo

unfoldable pub this_entry_size : ℕ → InfoClass → FindData → ℕ
unfolding header_size
this_entry_size extd c f = quad_align (name_bytes f + header_size extd c)

unfoldable pub fill_directory_information : ℕ → InfoClass → ℕ → FindData → ℕ → ℕ → Filled
unfolding this_entry_size fill_entry
fill_directory_information extd c remaining f index unit =
    if ltb remaining (this_entry_size extd c f)
    then record { entry_size = 0; remaining = remaining; info = zeroed }
    else record {
      entry_size = this_entry_size extd c f;
      remaining = remaining - this_entry_size extd c f;
      info = fill_entry c f index unit;
    }
