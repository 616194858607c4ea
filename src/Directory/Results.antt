-- ===== src/Directory/Results.antt =====
-- dokan-sys/src/dokany/dokan/directory.c: AddMissingCurrentAndParentFolder and WriteDirectoryResults.
pub mod Statuses
mod Tests
use crv_virtual_disk.Prelude.{
  ℕ, zero, suc, ◌+◌, not, ◌&&◌, ◌||◌, Bool, true, false, List, [], ◌∷◌, Option, none, some, ltb,
  leb, ◌==◌, if◌then◌else◌,
}
use crv_virtual_disk.Memory.{Outcome, ok, fault, ◌>>=◌, map_outcome}
use crv_virtual_disk.Vector.{Vector, get_item, get_count, push_front}
use crv_virtual_disk.NameExpression.{dot}
use crv_virtual_disk.Pool.Store.{OpenInfo}
use crv_virtual_disk.Event.{backslash}
use crv_virtual_disk.Directory.Entries.{FindData, FileTime, InfoClass}
use crv_virtual_disk.Directory.Match.{
  Query, Placed, Matched, MatchResult, index_to, no_more_files, buffer_overflow, is_asterisk,
  match_files,
}

-- The NTSTATUS codes that the handlers store.
abbrev pub status_success : ℕ
status_success = 0

abbrev pub status_pending : ℕ
status_pending = 0x103

abbrev pub status_buffer_overflow : ℕ
status_buffer_overflow = 0x80000005

abbrev pub status_no_more_files : ℕ
status_no_more_files = 0x80000006

abbrev pub status_not_implemented : ℕ
status_not_implemented = 0xC0000002

abbrev pub status_invalid_parameter : ℕ
status_invalid_parameter = 0xC000000D

abbrev pub status_no_such_file : ℕ
status_no_such_file = 0xC000000F

abbrev pub status_no_memory : ℕ
status_no_memory = 0xC0000017

abbrev pub status_internal_error : ℕ
status_internal_error = 0xC00000E5

-- What a FindFiles callback does: it passes files to DokanFillFileData, and returns a status.
pub record Listing : Type 0 where
  pub files : List FindData
  pub status : ℕ

-- The request, the mount's options and the file system's callbacks, none where it has no such callback.
-- A search pattern is none where SearchPatternLength is 0. `system_time` is the time of the call.
pub record Request : Type 0 where
  pub directory_name : List ℕ
  pub buffer_length : ℕ
  pub file_index : ℕ
  pub info_class : InfoClass
  pub search_pattern : Option (List ℕ)
  pub return_single_entry : Bool
  pub index_specified : Bool
  pub restart_scan : Bool
  pub case_sensitive : Bool
  pub allocation_unit_size : ℕ
  pub extd_size : ℕ
  pub towupper : ℕ → ℕ
  pub system_time : FileTime
  pub find_files_with_pattern : Option (List ℕ → List ℕ → Listing)
  pub find_files : Option (List ℕ → Listing)

-- What the handlers write to EVENT_INFORMATION.
pub record Reply : Type 0 where
  pub status : ℕ
  pub index : ℕ
  pub buffer_length : ℕ
  pub buffer : List Placed

abbrev pub is_some {ℓ} : {A : Type ℓ} → Option A → Bool
is_some none = false
is_some (some a) = true

abbrev pub has_own_pattern : Option (List ℕ) → Bool
has_own_pattern none = false
has_own_pattern (some p) = not (is_asterisk p)

unfoldable pub query_of : Request → Option OpenInfo → Query
query_of r o = record {
  buffer_length = r.buffer_length;
  file_index = r.file_index;
  info_class = r.info_class;
  search_pattern = r.search_pattern;
  return_single_entry = r.return_single_entry;
  case_sensitive = r.case_sensitive;
  has_find_files_with_pattern = is_some r.find_files_with_pattern;
  open_info = o;
  allocation_unit_size = r.allocation_unit_size;
  extd_size = r.extd_size;
  towupper = r.towupper;
}

abbrev pub with_index : Request → MatchResult → Reply → Reply
with_index r (index_to n) reply = record reply { index = n }
with_index r no_more_files reply = record reply {
  status = if r.file_index == 0 then status_no_such_file else status_no_more_files;
  index = r.file_index;
}
with_index r buffer_overflow reply = record reply {
  status = status_buffer_overflow;
  index = r.file_index;
}

-- The reply behind MatchFiles. The returned status is that of the reply.
unfoldable pub write_matched : Request → Reply → Matched → Reply
write_matched r reply m =
    with_index r m.result (record reply { buffer_length = m.used_length; buffer = m.entries })

unfoldable pub write_directory_results :
    Request → Option OpenInfo → Vector FindData → Reply → Outcome Reply
unfolding query_of match_files write_matched
write_directory_results r o v reply =
    map_outcome (write_matched r reply) (match_files (query_of r o) v)

abbrev pub is_dot : List ℕ → Bool
is_dot (c ∷ []) = c == dot
is_dot _ = false

abbrev pub is_dot_dot : List ℕ → Bool
is_dot_dot (c ∷ d ∷ []) = c == dot && d == dot
is_dot_dot _ = false

abbrev pub is_root : List ℕ → Bool
is_root (c ∷ []) = c == backslash
is_root _ = false

-- The loop of AddMissingCurrentAndParentFolder: whether there are "." and "..".
unfoldable pub find_folders : ℕ → ℕ → Vector FindData → Bool → Bool → Outcome (Bool × Bool)
unfolding get_item
find_folders zero i v current parent = ok (current, parent)
find_folders (suc n) i v current parent =
    if current && parent then ok (current, parent) else elim (get_item v i) [
      | some (some f) ↦
          find_folders n (suc i) v (current || is_dot f.file_name)
            (parent || is_dot_dot f.file_name)
      | _ ↦ fault
    ]

-- A folder with the times `t`.
abbrev pub folder : FileTime → List ℕ → FindData
folder t name = record {
  file_attributes = 0x10;
  creation_time = t;
  last_access_time = t;
  last_write_time = t;
  file_size_high = 0;
  file_size_low = 0;
  file_name = name;
}

-- A push whose result is not looked at.
abbrev pub push_unless : Bool → (ℕ → Bool) → FindData → Vector FindData → Outcome (Vector FindData)
unfolding push_front
push_unless true malloc f v = ok v
push_unless false malloc f v = map_outcome (λ r. r.0) (push_front malloc v f)

abbrev pub add_folders :
    (ℕ → Bool) → FileTime → Vector FindData → Bool × Bool → Outcome (Vector FindData)
unfolding push_unless
add_folders malloc t v (current, parent) =
    push_unless parent malloc (folder t (dot ∷ dot ∷ [])) v
    >>= push_unless current malloc (folder t (dot ∷ []))

unfoldable pub add_missing_current_and_parent_folder :
    (ℕ → Bool) → Request → Vector FindData → Outcome (Vector FindData)
unfolding find_folders add_folders get_count
add_missing_current_and_parent_folder malloc r v =
    if is_root r.directory_name || has_own_pattern r.search_pattern
    then ok v
    else find_folders (get_count v) 0 v false false >>= add_folders malloc r.system_time v
