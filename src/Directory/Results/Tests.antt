-- ===== src/Directory/Results/Tests.antt =====
-- A run of WriteDirectoryResults on a small directory.
use crv_virtual_disk.Prelude.{ℕ, ◌≡◌, ◌<◌, refl, false, List, [], ◌∷◌, none, some, arith}
use crv_virtual_disk.Memory.{ok}
use crv_virtual_disk.Vector.{Vector}
use crv_virtual_disk.Vector.Contents.{Holds}
use crv_virtual_disk.Directory.Entries.{FindData, names, header_size}
use crv_virtual_disk.Directory.Match.Enumeration.{accepted}
use crv_virtual_disk.Directory.Match.{passes, checked_pattern}
use crv_virtual_disk.Directory.Results.{Request, Reply, query_of, write_directory_results}
use crv_virtual_disk.Directory.Results.Statuses.{Written, write_directory_results-Written}

abbrev file : List ℕ → FindData
file name = record {
  file_attributes = 128;
  creation_time = record { low = 1; high = 0 };
  last_access_time = record { low = 2; high = 0 };
  last_write_time = record { low = 3; high = 0 };
  file_size_high = 0;
  file_size_low = 10;
  file_name = name;
}

abbrev two_files : Vector FindData
two_files = record {
  items = some (some (file (97 ∷ [])) ∷ some (file (98 ∷ [])) ∷ none ∷ []);
  item_count = 2;
  item_size = 592;
  max_items = 3;
  is_stack_allocated = false;
}

abbrev request : Request
request = record {
  directory_name = 92 ∷ [];
  buffer_length = 64;
  file_index = 1;
  info_class = names;
  search_pattern = none;
  return_single_entry = false;
  index_specified = false;
  restart_scan = false;
  case_sensitive = false;
  allocation_unit_size = 512;
  extd_size = 88;
  towupper = λ c. c;
  system_time = record { low = 0; high = 0 };
  find_files_with_pattern = none;
  find_files = none;
}

abbrev empty_reply : Reply
empty_reply = record { status = 0; index = 1; buffer_length = 0; buffer = [] }

two_files-Holds : Holds two_files (file (97 ∷ []) ∷ file (98 ∷ []) ∷ [])
two_files-Holds = record {
  spare = none ∷ [];
  filled = refl;
  room = refl;
  count = refl;
  sized = omega arith;
}

checked_run : checked_pattern (query_of request none) none ≡ ok none
unfolding checked_pattern
checked_run = refl

accepted_run :
    accepted (query_of request none) none (file (97 ∷ []) ∷ file (98 ∷ []) ∷ [])
    ≡ ok (file (97 ∷ []) ∷ file (98 ∷ []) ∷ [])
unfolding accepted query_of passes
accepted_run = refl

has_header : 0 < header_size 88 names
unfolding header_size
has_header = omega arith

write_directory_results-Written_example :
    (new : Reply) × (write_directory_results request none two_files empty_reply ≡ ok new)
    × Written request none (file (97 ∷ []) ∷ file (98 ∷ []) ∷ []) empty_reply new
write_directory_results-Written_example =
    write_directory_results-Written request none none two_files
      (file (97 ∷ []) ∷ file (98 ∷ []) ∷ []) (file (97 ∷ []) ∷ file (98 ∷ []) ∷ []) empty_reply
      two_files-Holds checked_run accepted_run has_header
