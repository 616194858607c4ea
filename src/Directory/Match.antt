-- ===== src/Directory/Match.antt =====
-- dokan-sys/src/dokany/dokan/directory.c: MatchFiles, which writes the entries that match the search
-- pattern to the event's buffer. The directory list is read through the vector's functions; the loop
-- does not change it, and reads its items here before the first round. Counts of entries stay below
-- 2 ^ 31.
pub mod Layout
pub mod Enumeration
pub mod Answer
mod Tests
use crv_virtual_disk.Prelude.{
  ℕ, zero, suc, ◌+◌, ◌-◌, not, Bool, true, false, List, [], ◌∷◌, ◌++◌, Option, none, some, ltb, leb,
  ◌==◌, if◌then◌else◌,
}
use crv_virtual_disk.Memory.{Outcome, ok, fault, ◌>>=◌, map_outcome}
use crv_virtual_disk.Vector.{Vector, get_item, get_count}
use crv_virtual_disk.NameExpression.{asterisk, is_name_in_expression}
use crv_virtual_disk.Pool.Store.{OpenInfo}
use crv_virtual_disk.Directory.Entries.{
  FindData, InfoClass, EntryInfo, Filled, fill_directory_information,
}

-- What MatchFiles reads of the event and of the mount's options. `open_info` is the event's DokanOpenInfo, a
-- pointer that may be null. `extd_size` is sizeof(FILE_ID_EXTD_DIR_INFO), `towupper` the C library's.
pub record Query : Type 0 where
  pub buffer_length : ℕ
  pub file_index : ℕ
  pub info_class : InfoClass
  pub search_pattern : Option (List ℕ)
  pub return_single_entry : Bool
  pub case_sensitive : Bool
  pub has_find_files_with_pattern : Bool
  pub open_info : Option OpenInfo
  pub allocation_unit_size : ℕ
  pub extd_size : ℕ
  pub towupper : ℕ → ℕ

-- wcscmp(s, L"*") == 0
abbrev pub is_asterisk : List ℕ → Bool
is_asterisk (c ∷ []) = c == asterisk
is_asterisk _ = false

-- An entry in the buffer, from byte `place` on.
pub record Placed : Type 0 where
  pub place : ℕ
  pub size : ℕ
  pub next_entry_offset : ℕ
  pub info : EntryInfo

-- The loop's variables: lengthRemaining, currentBuffer as an offset, index, bufferOverFlow, and the
-- entries written.
pub record Progress : Type 0 where
  pub remaining : ℕ
  pub current : ℕ
  pub index : ℕ
  pub overflow : Bool
  pub entries : List Placed

-- The pattern, if FindFilesWithPattern is marked as unimplemented in the event's DOKAN_OPEN_INFO.
unfoldable pub if_unimplemented : List ℕ → Option OpenInfo → Outcome (Option (List ℕ))
if_unimplemented p none = fault
if_unimplemented p (some o) = ok (if o.unimplemented_find_files_with_pattern then some p else none)

-- The pattern that is checked, if `patternCheck` is set.
unfoldable pub checked_pattern : Query → Option (List ℕ) → Outcome (Option (List ℕ))
unfolding if_unimplemented
checked_pattern q none = ok none
checked_pattern q (some p) =
    if is_asterisk p
    then ok none
    else if not q.has_find_files_with_pattern
    then ok (some p)
    else if_unimplemented p q.open_info

unfoldable pub passes : Query → Option (List ℕ) → FindData → Outcome Bool
passes q none f = ok true
passes q (some p) f = is_name_in_expression q.towupper (not q.case_sensitive) p f.file_name

-- Whether the loop goes on or breaks.
pub data Round : Type 0 where
  continue : Progress → Round
  break : Progress → Round

-- A round for an entry that was filled in, or that did not fit.
unfoldable pub place_entry : Query → Progress → Filled → Round
place_entry q p filled =
    if filled.entry_size == 0
    then break (record p { overflow = true })
    else if q.return_single_entry
    then break (record {
      remaining = filled.remaining;
      current = p.current;
      index = suc p.index;
      overflow = p.overflow;
      entries =
          p.entries
          ++ record {
            place = p.current;
            size = filled.entry_size;
            next_entry_offset = 0;
            info = filled.info;
          }
            ∷ [];
    })
    else continue (record {
      remaining = filled.remaining;
      current = p.current + filled.entry_size;
      index = suc p.index;
      overflow = p.overflow;
      entries =
          p.entries
          ++ record {
            place = p.current;
            size = filled.entry_size;
            next_entry_offset = filled.entry_size;
            info = filled.info;
          }
            ∷ [];
    })

unfoldable pub match_round : Query → FindData → Progress → Bool → Round
unfolding place_entry fill_directory_information
match_round q f p passed =
    if not passed
    then continue p
    else if leb q.file_index p.index
    then place_entry q p (
        fill_directory_information q.extd_size q.info_class p.remaining f (p.index + 1)
          q.allocation_unit_size)
    else continue (record p { index = suc p.index })

abbrev pub go_on : Round → (Progress → Outcome Progress) → Outcome Progress
go_on (continue p) k = k p
go_on (break p) k = ok p

unfoldable pub match_loop : Query → Option (List ℕ) → List FindData → Progress → Outcome Progress
unfolding match_round passes
match_loop q pattern [] p = ok p
match_loop q pattern (f ∷ fs) p =
    passes q pattern f >>= λ passed. go_on (match_round q f p passed) (match_loop q pattern fs)

-- The items from index `i` on, `n` of them. A null pointer or a cell that was never written is a
-- fault.
unfoldable pub read_items : ℕ → ℕ → Vector FindData → Outcome (List FindData)
unfolding get_item
read_items zero i v = ok []
read_items (suc n) i v = elim (get_item v i) [
  | some (some f) ↦ map_outcome (λ fs. f ∷ fs) (read_items n (suc i) v)
  | _ ↦ fault
]

unfoldable pub clear_last : List Placed → List Placed
clear_last [] = []
clear_last (e ∷ []) = record e { next_entry_offset = 0 } ∷ []
clear_last (e ∷ e' ∷ es) = e ∷ clear_last (e' ∷ es)

-- The returned LONG: an index, -1 or -2.
pub data MatchResult : Type 0 where
  index_to : ℕ → MatchResult
  no_more_files : MatchResult
  buffer_overflow : MatchResult

pub record Matched : Type 0 where
  pub result : MatchResult
  pub used_length : ℕ
  pub entries : List Placed

unfoldable pub finish : Query → Progress → Matched
unfolding clear_last
finish q p = record {
  result =
      if leb p.index q.file_index
      then (if p.overflow then buffer_overflow else no_more_files)
      else index_to p.index;
  used_length = q.buffer_length - p.remaining;
  entries = clear_last p.entries;
}

abbrev pub started : Query → Progress
started q = record {
  remaining = q.buffer_length;
  current = 0;
  index = 0;
  overflow = false;
  entries = [];
}

unfoldable pub match_files : Query → Vector FindData → Outcome Matched
unfolding checked_pattern match_loop read_items finish get_count
match_files q v = checked_pattern q q.search_pattern >>= λ pattern.
    read_items (get_count v) 0 v >>= λ fs.
    map_outcome (finish q) (match_loop q pattern fs (started q))
