-- ===== src/Directory/Results/Statuses.antt =====
-- dokan-sys/src/dokany/dokan/directory.c: the status and the index of WriteDirectoryResults.
use crv_virtual_disk.Prelude.{
  suc, ◌+◌, ◌≤◌, ◌<◌, ◌≡◌, refl, ℕ, List, [], Option, some, ◌==◌, if◌then◌else◌, length, take, drop,
  get_elem?,
}
use crv_virtual_disk.Memory.{ok}
use crv_virtual_disk.Vector.{Vector}
use crv_virtual_disk.Vector.Contents.{Holds}
use crv_virtual_disk.Pool.Store.{OpenInfo}
use crv_virtual_disk.Directory.Entries.{FindData, header_size, this_entry_size}
use crv_virtual_disk.Directory.Match.{Matched, checked_pattern}
use crv_virtual_disk.Directory.Match.Enumeration.{accepted, number, infos}
use crv_virtual_disk.Directory.Match.Answer.{
  Answer, some_entries, nothing_left, no_room, match_files-Answer,
}
use crv_virtual_disk.Directory.Results.{
  Request, Reply, query_of, write_matched, write_directory_results, status_no_such_file,
  status_no_more_files, status_buffer_overflow,
}

-- What a reply becomes, `all` being the items that pass the pattern.
pub data Written (r : Request) (o : Option OpenInfo) (all : List FindData) (old new : Reply)
    : Type 0 where
  -- Some entries are returned, and the next request goes on behind them.
  entries :
      r.file_index < new.index
      → new.index ≤ length all
      → new.status ≡ old.status
      → infos new.buffer
        ≡ number (query_of r o) (suc r.file_index) (drop r.file_index (take new.index all))
      → Written r o all old new
  -- There is nothing to return, from the start or behind what was returned before.
  no_entry :
      length all ≤ r.file_index
      → new.index ≡ r.file_index
      → new.status ≡ (if r.file_index == 0 then status_no_such_file else status_no_more_files)
      → infos new.buffer ≡ []
      → Written r o all old new
  -- The next item does not fit in the buffer.
  too_small :
      (f : FindData)
      → get_elem? all r.file_index ≡ some f
      → r.buffer_length < new.buffer_length + this_entry_size r.extd_size r.info_class f
      → new.index ≡ r.file_index
      → new.status ≡ status_buffer_overflow
      → infos new.buffer ≡ []
      → Written r o all old new

write_matched-Written :
    (r : Request) (o : Option OpenInfo) (all : List FindData) (old : Reply) (m : Matched)
    → Answer (query_of r o) all m
    → Written r o all old (write_matched r old m)
unfolding write_matched query_of
write_matched-Written r o all old m (some_entries n e above within shown why) =
    simp (e) (entries above within refl shown)
write_matched-Written r o all old m (nothing_left e end shown) =
    simp (e) (no_entry end refl refl shown)
write_matched-Written r o all old m (no_room f e next small shown) =
    simp (e) (too_small f next small refl refl shown)

-- On a list that holds xs, for a known information class, with a DOKAN_OPEN_INFO wherever MatchFiles
-- reads its mark, and for a pattern whose check reads nothing behind the names and accepts the list ys:
-- WriteDirectoryResults does not fault, and stores the status and the index that go with the entries
-- that it returns: the unchanged status and the position behind the last entry, or FileIndex with no
-- such file or no more files where none of ys is left, or FileIndex with a buffer overflow where the
-- next one does not fit.
pub write_directory_results-Written :
    (r : Request) (o : Option OpenInfo) (pattern : Option (List ℕ)) (v : Vector FindData)
    (xs ys : List FindData) (old : Reply)
    → Holds v xs
    → checked_pattern (query_of r o) r.search_pattern ≡ ok pattern
    → accepted (query_of r o) pattern xs ≡ ok ys
    → 0 < header_size r.extd_size r.info_class
    → (new : Reply) × (write_directory_results r o v old ≡ ok new) × Written r o ys old new
unfolding write_directory_results query_of
write_directory_results-Written r o pattern v xs ys old h c acc sized =
    let (m, run, answer) = match_files-Answer (query_of r o) pattern v xs ys h c acc sized in
    (write_matched r old m, rw run refl, write_matched-Written r o ys old m answer)
