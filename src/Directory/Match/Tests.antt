-- ===== src/Directory/Match/Tests.antt =====
-- Runs of MatchFiles on a small directory.
use crv_virtual_disk.Prelude.{ℕ, ◌≡◌, ◌≤◌, ◌<◌, refl, true, false, List, [], ◌∷◌, none, some, arith}
use crv_virtual_disk.Memory.{ok}
use crv_virtual_disk.NameExpression.{is_name_in_expression, scan, star_step, letter_step, same_char}
use crv_virtual_disk.Vector.{Vector, get_item, get_count, read_cell}
use crv_virtual_disk.Vector.Contents.{Holds}
use crv_virtual_disk.Directory.Entries.{
  FindData, names, names_info, fill_directory_information, this_entry_size, header_size, fill_entry,
  fill_names_info,
}
use crv_virtual_disk.Directory.Match.{
  Query, Matched, index_to, checked_pattern, passes, place_entry, match_round, match_loop,
  read_items, clear_last, finish, match_files,
}
use crv_virtual_disk.Directory.Match.Enumeration.{accepted}
use crv_virtual_disk.Directory.Match.Answer.{Answer, match_files-Answer}
use crv_virtual_disk.Directory.Match.Layout.{Laid, Terminal, match_files-Laid}

abbrev file : List ℕ → FindData
file name = record {
  file_attributes = 128;
  creation_time = record { low = 1; high = 0 };
  last_access_time = record { low = 2; high = 0 };
  last_write_time = record { low = 3; high = 0 };
  file_size_high = 0;
  file_size_low = 10;
  file_name = name;
}

-- "ab", "c", "ac"
abbrev listing : List FindData
listing = file (97 ∷ 98 ∷ []) ∷ file (99 ∷ []) ∷ file (97 ∷ 99 ∷ []) ∷ []

abbrev directory_list : Vector FindData
directory_list = record {
  items =
      some (
        some (file (97 ∷ 98 ∷ []))
        ∷ some (file (99 ∷ []))
        ∷ some (file (97 ∷ 99 ∷ []))
        ∷ none
        ∷ []);
  item_count = 3;
  item_size = 592;
  max_items = 4;
  is_stack_allocated = false;
}

directory_list-Holds : Holds directory_list listing
directory_list-Holds = record {
  spare = none ∷ [];
  filled = refl;
  room = refl;
  count = refl;
  sized = omega arith;
}

-- The names that match "a*".
abbrev request : Query
request = record {
  buffer_length = 64;
  file_index = 0;
  info_class = names;
  search_pattern = some (97 ∷ 42 ∷ []);
  return_single_entry = false;
  case_sensitive = true;
  has_find_files_with_pattern = false;
  open_info = none;
  allocation_unit_size = 512;
  extd_size = 88;
  towupper = λ c. c;
}

checked_run : checked_pattern request request.search_pattern ≡ ok request.search_pattern
unfolding checked_pattern
checked_run = refl

accepted_run :
    accepted request request.search_pattern listing
    ≡ ok (file (97 ∷ 98 ∷ []) ∷ file (97 ∷ 99 ∷ []) ∷ [])
unfolding accepted passes is_name_in_expression scan star_step letter_step same_char
accepted_run = refl

has_header : 0 < header_size 88 names
unfolding header_size
has_header = omega arith

match_files-Answer_example :
    (m : Matched) × (match_files request directory_list ≡ ok m)
    × Answer request (file (97 ∷ 98 ∷ []) ∷ file (97 ∷ 99 ∷ []) ∷ []) m
match_files-Answer_example =
    match_files-Answer request request.search_pattern directory_list listing
      (file (97 ∷ 98 ∷ []) ∷ file (97 ∷ 99 ∷ []) ∷ []) directory_list-Holds checked_run accepted_run
      has_header

-- The buffer that holds the entries of both names.
abbrev answer : Matched
answer = record {
  result = index_to 2;
  used_length = 48;
  entries =
      record {
        place = 0;
        size = 24;
        next_entry_offset = 24;
        info =
            names_info (record { file_index = 1; file_name_length = 4; file_name = 97 ∷ 98 ∷ [] });
      }
      ∷ record {
        place = 24;
        size = 24;
        next_entry_offset = 0;
        info =
            names_info (record { file_index = 2; file_name_length = 4; file_name = 97 ∷ 99 ∷ [] });
      }
      ∷ [];
}

answer_run : match_files request directory_list ≡ ok answer
unfolding match_files read_items get_item get_count read_cell match_loop passes
    is_name_in_expression scan star_step letter_step same_char match_round place_entry
    fill_directory_information this_entry_size header_size fill_entry fill_names_info finish
    clear_last checked_pattern
answer_run = refl

match_files-Laid_example : Laid Terminal 0 answer.entries 48 × (48 ≤ 64)
match_files-Laid_example = match_files-Laid request directory_list answer answer_run
