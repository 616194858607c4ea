-- ===== src/Directory/Match/Answer.antt =====
-- dokan-sys/src/dokany/dokan/directory.c: the answer of MatchFiles to one request, over the list that the directory's vector holds.
use crv_virtual_disk.Prelude.{
  ℕ, zero, suc, ◌+◌, ◌≤◌, ◌<◌, ◌≡◌, refl, sym, ap, ◌∙◌, true, List, [], ◌∷◌, ◌++◌, Option, some,
  arith, leb, length, take, drop, get_elem?, append-nil, length-append, ◌⊎◌, inl, inr, Bool-cases,
}
use crv_virtual_disk.Memory.{Outcome, ok, fault, map_outcome}
use crv_virtual_disk.Vector.{Vector, get_count}
use crv_virtual_disk.Vector.Contents.{Holds}
use crv_virtual_disk.Vector.Access.{get_item-get_elem?}
use crv_virtual_disk.Directory.Entries.{FindData, this_entry_size, header_size}
use crv_virtual_disk.Directory.Match.{
  Query, Placed, Progress, Matched, index_to, no_more_files, buffer_overflow, match_loop,
  clear_last, finish, read_items, checked_pattern, match_files, started,
}
use crv_virtual_disk.Directory.Match.Enumeration.{
  accepted, number, infos, Shown, Ended, complete, single, full, loop-Ended, drop-end, take-append,
  get_elem?-append,
}

-- `all` are the items that pass the pattern.
pub data Answer (q : Query) (all : List FindData) (m : Matched) : Type 0 where
  -- The entries are those of the items from FileIndex up to the returned index, numbered from
  -- FileIndex + 1. They stop before the last item for a request of one entry, or where the next one
  -- does not fit.
  some_entries :
      (n : ℕ)
      → m.result ≡ index_to n
      → q.file_index < n
      → n ≤ length all
      → infos m.entries ≡ number q (suc q.file_index) (drop q.file_index (take n all))
      → (n ≡ length all)
        ⊎ ((q.return_single_entry ≡ true)
            ⊎ ((f : FindData) × (get_elem? all n ≡ some f)
                × (q.buffer_length < m.used_length + this_entry_size q.extd_size q.info_class f)))
      → Answer q all m
  -- No item is left from FileIndex on.
  nothing_left :
      m.result ≡ no_more_files → length all ≤ q.file_index → infos m.entries ≡ [] → Answer q all m
  -- The item at FileIndex does not fit, and nothing was written.
  no_room :
      (f : FindData)
      → m.result ≡ buffer_overflow
      → get_elem? all q.file_index ≡ some f
      → q.buffer_length < m.used_length + this_entry_size q.extd_size q.info_class f
      → infos m.entries ≡ []
      → Answer q all m

infos-clear_last : (es : List Placed) → infos (clear_last es) ≡ infos es
unfolding clear_last
infos-clear_last [] = refl
infos-clear_last (e ∷ []) = refl
infos-clear_last (e ∷ e' ∷ es) = ap (λ r. e.info ∷ r) (infos-clear_last (e' ∷ es))

take-length {ℓ} : {A : Type ℓ} (n : ℕ) (xs : List A) → n ≡ length xs → take n xs ≡ xs
take-length n xs e = ap (take n) (sym (append-nil xs)) ∙ take-append n xs [] e

drop-get {ℓ} :
    {A : Type ℓ} (i : ℕ) (xs : List A)
    → i < length xs
    → (x : A) × (get_elem? xs i ≡ some x) × (drop i xs ≡ x ∷ drop (suc i) xs)
drop-get i [] h = elim h [ ]
drop-get zero (x ∷ xs) h = (x, refl, refl)
drop-get (suc i) (x ∷ xs) h = drop-get i xs (omega arith)

module _ (q : Query) (all : List FindData) where
  Shown-none :
      (seen : List FindData) (p : Progress)
      → Shown q seen p
      → leb p.index q.file_index ≡ true
      → infos (clear_last p.entries) ≡ []
  Shown-none seen p s h =
      infos-clear_last p.entries
      ∙ s.written
      ∙ ap (number q (suc q.file_index)) (drop-end q.file_index seen (ground (arith, h, s.counted)))

  Shown-entries :
      (seen : List FindData) (p : Progress)
      → Shown q seen p
      → take p.index all ≡ seen
      → infos (clear_last p.entries)
        ≡ number q (suc q.file_index) (drop q.file_index (take p.index all))
  Shown-entries seen p s e = rw e (infos-clear_last p.entries ∙ s.written)

  prefix :
      (seen rest : List FindData) (p : Progress)
      → Shown q seen p
      → all ≡ seen ++ rest
      → take p.index all ≡ seen
  prefix seen rest p s e = rw e (take-append p.index seen rest s.counted)

  -- The answers that belong to the ways in which the loop ends.
  finish-Answer :
      (o : Outcome Progress)
      → Ended q all o
      → (m : Matched) × (map_outcome (finish q) o ≡ ok m) × Answer q all m
  unfolding finish
  finish-Answer (ok p) (complete s o) = elim (Bool-cases (leb p.index q.file_index)) [
    | inl none_ ↦ (
      finish q p,
      refl,
      nothing_left (ground (arith, none_, o)) (ground (arith, none_, s.counted))
          (Shown-none all p s none_),
    )
    | inr some_ ↦ (
      finish q p,
      refl,
      some_entries p.index (ground (arith, some_)) (ground (arith, some_))
          (omega (arith, s.counted)) (Shown-entries all p s (take-length p.index all s.counted))
          (inl s.counted),
    )
  ]
  finish-Answer (ok p) (single seen rest e s o one reached) = (
    finish q p,
    refl,
    some_entries p.index (ground (arith, s.counted, reached)) (omega (arith, s.counted))
        (omega (arith, s.counted, ap length e, length-append seen rest))
        (Shown-entries seen p s (prefix seen rest p s e)) (inr (inl one)),
  )
  finish-Answer (ok p) (full seen rest f e s o reached small) =
      elim (Bool-cases (leb p.index q.file_index)) [
        | inl none_ ↦ (
          finish q p,
          refl,
          no_room f (ground (arith, none_, o))
              (rw e (
                get_elem?-append q.file_index seen rest f
                  (ground (arith, none_, reached, s.counted))))
              (omega (arith, small)) (Shown-none seen p s none_),
        )
        | inr some_ ↦ (
          finish q p,
          refl,
          some_entries p.index (ground (arith, some_)) (ground (arith, some_))
              (omega (arith, s.counted, ap length e, length-append seen (f ∷ rest)))
              (Shown-entries seen p s (prefix seen (f ∷ rest) p s e))
              (inr (
                inr (
                  f,
                  rw e (get_elem?-append p.index seen rest f s.counted),
                  omega (arith, small),
                ))),
        )
      ]
  finish-Answer fault e = elim e [ ]

module _ (v : Vector FindData) (xs : List FindData) (h : Holds v xs) where
  read_items-drop : (n i : ℕ) → n + i ≡ length xs → read_items n i v ≡ ok (drop i xs)
  unfolding read_items
  read_items-drop zero i e = ap ok (sym (drop-end i xs (omega (arith, e))))
  read_items-drop (suc n) i e =
      let (x, at, next) = drop-get i xs (omega (arith, e)) in
      rw
        (
          read_items,
          get_item-get_elem? v xs i h,
          at,
          read_items-drop n (suc i) (omega (arith, e)),
          next,
        )
        refl

  read_items-all : read_items (get_count v) 0 v ≡ ok xs
  unfolding get_count
  read_items-all = simp (h.count) (read_items-drop (length xs) 0 (omega arith))

-- On a vector that holds xs, for a known information class, with a DOKAN_OPEN_INFO wherever MatchFiles
-- reads its mark, and for a pattern whose check reads nothing behind the names and accepts the list ys:
-- MatchFiles does not fault, and its answer is the one that ys gives: the entries of ys from FileIndex
-- up to the returned index with consecutive indices, stopping early only for a single-entry request or
-- where the next entry does not fit; no more files where none is left from FileIndex on; or a buffer
-- overflow, without an entry, where the one at FileIndex does not fit.
pub match_files-Answer :
    (q : Query) (pattern : Option (List ℕ)) (v : Vector FindData) (xs ys : List FindData)
    → Holds v xs
    → checked_pattern q q.search_pattern ≡ ok pattern
    → accepted q pattern xs ≡ ok ys
    → 0 < header_size q.extd_size q.info_class
    → (m : Matched) × (match_files q v ≡ ok m) × Answer q ys m
unfolding match_files
match_files-Answer q pattern v xs ys h c acc sized =
    let nothing : drop {A = FindData} q.file_index [] ≡ [] =
      drop-end q.file_index [] (omega arith) in
    rw (c, read_items-all v xs h)
      (finish-Answer q ys (match_loop q pattern xs (started q)) (
        loop-Ended q pattern sized ys xs (started q) [] ys acc refl
          (record { counted = refl; written = rw (nothing) refl }) refl))
