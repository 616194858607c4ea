-- ===== src/Create/Request.antt =====
-- dokan-sys/src/dokany/dokan/create.c: the Create request, the names that DispatchCreate derives from
-- the file's name, and the handler's variables up to line 184. Words of flags are numbers, and a flag is
-- a bit of one.
use crv_virtual_disk.Prelude.{
  ℕ, ◌+◌, ◌-◌, ◌/◌, ◌%◌, ◌^◌, ◌&&◌, ◌||◌, Bool, true, false, List, [], ◌∷◌, Option, none, some, ltb,
  ◌==◌, if◌then◌else◌,
}
use crv_virtual_disk.Event.{backslash, check_file_name}

abbrev pub has_bit : ℕ → ℕ → Bool
has_bit w k = w / 2 ^ k % 2 == 1

abbrev pub set_bit : ℕ → ℕ → ℕ
set_bit k w = if has_bit w k then w else w + 2 ^ k

abbrev pub clear_bit : ℕ → ℕ → ℕ
clear_bit k w = if has_bit w k then w - 2 ^ k else w

-- FILE_DIRECTORY_FILE, FILE_NON_DIRECTORY_FILE and FILE_OPEN_FOR_BACKUP_INTENT, as bits.
abbrev pub directory_file : ℕ
directory_file = 0

abbrev pub non_directory_file : ℕ
non_directory_file = 6

abbrev pub open_for_backup_intent : ℕ
open_for_backup_intent = 14

abbrev pub nt_success : ℕ → Bool
nt_success status = ltb status (2 ^ 31)

abbrev pub status_object_name_collision : ℕ
status_object_name_collision = 0xC0000035

abbrev pub status_object_name_not_found : ℕ
status_object_name_not_found = 0xC0000034

abbrev pub status_access_denied : ℕ
status_access_denied = 0xC0000022

abbrev pub status_invalid_parameter : ℕ
status_invalid_parameter = 0xC000000D

abbrev pub status_not_implemented : ℕ
status_not_implemented = 0xC0000002

-- FILE_SUPERSEDE is 0, FILE_CREATE 2, FILE_OPEN_IF 3, FILE_OVERWRITE 4, FILE_OVERWRITE_IF 5.
unfoldable pub create_succes_status_check : ℕ → ℕ → Bool
create_succes_status_check status disposition =
    nt_success status
    || (status == status_object_name_collision
        && (disposition == 3 || disposition == 0 || disposition == 5))

-- The name up to the last separator that is not at its end.
abbrev pub cut_last : List ℕ → Option (List ℕ)
cut_last [] = none
cut_last (c ∷ []) = none
cut_last (c ∷ d ∷ cs) = elim (cut_last (d ∷ cs)) [
  | some r ↦ some (c ∷ r)
  | none ↦ if c == backslash || c == 0x2f then some [] else none
]

unfoldable pub strip_last : List ℕ → List ℕ
strip_last name = elim (cut_last name) [ some r ↦ r | none ↦ name ]

abbrev pub or_root : List ℕ → List ℕ
or_root [] = backslash ∷ []
or_root (c ∷ cs) = c ∷ cs

unfoldable pub parent_name : List ℕ → List ℕ
unfolding strip_last
parent_name name = or_root (strip_last name)

-- A call of ZwCreateFile, with what it finds in DokanFileInfo, and what it answers. A name may be null.
pub record CreateCall : Type 0 where
  pub name : Option (List ℕ)
  pub desired_access : ℕ
  pub disposition : ℕ
  pub options : ℕ
  pub context : ℕ
  pub is_directory : Bool

pub record CreateAnswer : Type 0 where
  pub status : ℕ
  pub context : ℕ
  pub is_directory : Bool

pub data Action : Type 0 where
  create : CreateCall → Action
  cleanup : Option (List ℕ) → ℕ → Action
  close : Option (List ℕ) → ℕ → Action

abbrev pub Callback : Type 0
Callback = List Action → Option (List ℕ) → ℕ → ℕ

-- The request, and the file system's callbacks. They see the calls that were made before; Cleanup and CloseFile
-- answer the Context that they leave in DokanFileInfo.
pub record CreateRequest : Type 0 where
  pub file_name : List ℕ
  pub create_options : ℕ
  pub open_target_directory : Bool
  pub desired_access : ℕ
  pub zw_create_file : Option (List Action → CreateCall → CreateAnswer)
  pub cleanup_callback : Option Callback
  pub close_file_callback : Option Callback

-- The handler's variables, DokanFileInfo and the EventResult.
pub record Creation : Type 0 where
  pub name : List ℕ
  pub original_name : Option (List ℕ)
  pub options : ℕ
  pub status : ℕ
  pub child_existed : Bool
  pub context : ℕ
  pub is_directory : Bool
  pub information : ℕ
  pub reply_status : ℕ
  pub reply_flags : ℕ
  pub actions : List Action

abbrev pub disposition_of : CreateRequest → ℕ
disposition_of r = r.create_options / 2 ^ 24 % 256

-- Up to line 184: the parent's name and the changed options of SL_OPEN_TARGET_DIRECTORY.
unfoldable pub prepare : CreateRequest → Creation
unfolding check_file_name parent_name
prepare r =
    let name = check_file_name r.file_name in
    let options = r.create_options % 2 ^ 24 in
    let plain : Creation = record {
      name = name;
      original_name = none;
      options = options;
      status = 0xC000009A;
      child_existed = true;
      context = 0;
      is_directory = false;
      information = 0;
      reply_status = 0;
      reply_flags = 0;
      actions = [];
    } in
    if has_bit options directory_file
    then record plain { is_directory = true }
    else if r.open_target_directory
    then record plain {
      name = parent_name name;
      original_name = some name;
      options = clear_bit non_directory_file (set_bit directory_file options);
    }
    else plain
