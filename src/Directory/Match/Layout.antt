-- ===== src/Directory/Match/Layout.antt =====
-- dokan-sys/src/dokany/dokan/directory.c: the layout of the buffer that MatchFiles leaves: a chain of entries, each linked to the next by
-- NextEntryOffset.
use crv_virtual_disk.Prelude.{
  subst, ℕ, ◌+◌, ◌-◌, ◌*◌, ◌/◌, ◌≤◌, ◌≡◌, refl, sym, ◌∙◌, Bool, true, false, List, [], ◌∷◌, ◌++◌,
  Option, arith, ltb, leb, ◌==◌, inl, inr, Bool-cases,
}
use crv_virtual_disk.Memory.{Outcome, ok, fault, ◌>>=◌, map_outcome}
use crv_virtual_disk.Vector.{Vector, get_count}
use crv_virtual_disk.Directory.Entries.{
  FindData, name_bytes, header_size, fill_directory_information, this_entry_size,
}
use crv_virtual_disk.Directory.Match.{
  Query, Placed, Progress, Matched, checked_pattern, passes, place_entry, match_round, go_on,
  match_loop, clear_last, finish, started, read_items, match_files,
}

-- Entries that follow one another from byte `start` to byte `end`, on multiples of eight. All but
-- the last one are linked, and `Last` holds of the last one.
pub data Laid (Last : Placed → Type 0) : ℕ → List Placed → ℕ → Type 0 where
  nothing : {start end : ℕ} → start ≡ end → Laid Last start [] end
  last :
      {start end : ℕ} {e : Placed} (k : ℕ)
      → e.place ≡ start
      → e.size ≡ k * 8
      → start + e.size ≡ end
      → Last e
      → Laid Last start (e ∷ []) end
  linked :
      {start next end : ℕ} {e e' : Placed} {es : List Placed} (k : ℕ)
      → e.place ≡ start
      → e.size ≡ k * 8
      → start + e.size ≡ next
      → e.next_entry_offset ≡ e.size
      → Laid Last next (e' ∷ es) end
      → Laid Last start (e ∷ e' ∷ es) end

abbrev pub Terminal : Placed → Type 0
Terminal e = e.next_entry_offset ≡ 0

abbrev Linked : Placed → Type 0
Linked e = e.next_entry_offset ≡ e.size

Laid-snoc :
    {Last : Placed → Type 0} (es : List Placed) {start mid end : ℕ} (e : Placed) (k : ℕ)
    → Laid Linked start es mid
    → e.place ≡ mid
    → e.size ≡ k * 8
    → mid + e.size ≡ end
    → Last e
    → Laid Last start (es ++ e ∷ []) end
Laid-snoc [] e k (nothing s) p a b l = last k (p ∙ sym s) a (omega (arith, s, b)) l
Laid-snoc (d ∷ []) e k (last j p' a' b' n) p a b l = linked j p' a' b' n (last k p a b l)
Laid-snoc (d ∷ d' ∷ es) e k (linked j p' a' b' n rest) p a b l =
    linked j p' a' b' n (Laid-snoc (d' ∷ es) e k rest p a b l)

Laid-clear_last :
    {Last : Placed → Type 0} (es : List Placed) {start end : ℕ}
    → Laid Last start es end
    → Laid Terminal start (clear_last es) end
unfolding clear_last
Laid-clear_last [] (nothing s) = nothing s
Laid-clear_last (d ∷ []) (last j p a b n) = last j p a b refl
Laid-clear_last (d ∷ d' ∷ []) (linked j p a b n rest) =
    linked j p a b n (Laid-clear_last (d' ∷ []) rest)
Laid-clear_last (d ∷ d' ∷ d'' ∷ es) (linked j p a b n rest) =
    linked j p a b n (Laid-clear_last (d' ∷ d'' ∷ es) rest)

-- The entries so far, and the buffer space behind them.
record Room (q : Query) (p : Progress) : Type 0 where
  laid : Laid Linked 0 p.entries p.current
  left : p.current + p.remaining ≡ q.buffer_length

record Done (q : Query) (p : Progress) : Type 0 where
  end : ℕ
  laid : Laid (λ e. e.place ≡ e.place) 0 p.entries end
  left : end + p.remaining ≡ q.buffer_length

Laid-any :
    (Last : Placed → Type 0) (es : List Placed) {s t : ℕ}
    → Laid Last s es t
    → Laid (λ e. e.place ≡ e.place) s es t
Laid-any Last [] (nothing s) = nothing s
Laid-any Last (d ∷ []) (last j p a b n) = last j p a b refl
Laid-any Last (d ∷ d' ∷ es) (linked j p a b n rest) =
    linked j p a b n (Laid-any Last (d' ∷ es) rest)

-- How the loop leaves the buffer, unless it faults.
data After (q : Query) : Outcome Progress → Type 0 where
  done : {p : Progress} → Done q p → After q (ok p)
  faulted : After q fault

Room-Done : (q : Query) (p : Progress) (b : Bool) → Room q p → Done q (record p { overflow = b })
Room-Done q p b r = record {
  end = p.current;
  laid = Laid-any Linked p.entries r.laid;
  left = r.left;
}

module _ (q : Query) (pattern : Option (List ℕ)) where
  placed-After :
      (f : FindData) (fs : List FindData) (p : Progress)
      → ((p : Progress) → Room q p → After q (match_loop q pattern fs p))
      → Room q p
      → After q (
          go_on
            (place_entry q p (
              fill_directory_information q.extd_size q.info_class p.remaining f
                (p.index + 1)
                q.allocation_unit_size))
            (match_loop q pattern fs))
  unfolding fill_directory_information place_entry this_entry_size
  placed-After f fs p ih r =
      let k = (name_bytes f + header_size q.extd_size q.info_class + 7) / 8 in
      let size = k * 8 in
      elim (Bool-cases (ltb p.remaining size)) [
        | inl no_room ↦ simp (no_room) (done (Room-Done q p true r))
        | inr room ↦
            let fits : size ≤ p.remaining = ground (arith, room) in
            let left : p.current + size + (p.remaining - size) ≡ q.buffer_length =
              omega (arith, fits, r.left) in
            elim (Bool-cases (size == 0)) [
              | inl empty ↦ simp (room, empty) (done (Room-Done q p true r))
              | inr nonzero ↦ elim (Bool-cases q.return_single_entry) [
                | inl one ↦
                    simp (room, nonzero, one)
                      (done (record {
                        end = p.current + size;
                        laid = Laid-snoc p.entries _ k r.laid refl refl refl refl;
                        left = left;
                      }))
                | inr many ↦
                    simp (room, nonzero, many)
                      (ih _ (record {
                        laid = Laid-snoc p.entries _ k r.laid refl refl refl refl;
                        left = left;
                      }))
              ]
            ]
      ]

  round-After :
      (f : FindData) (fs : List FindData) (p : Progress) (b : Bool)
      → ((p : Progress) → Room q p → After q (match_loop q pattern fs p))
      → Room q p
      → After q (go_on (match_round q f p b) (match_loop q pattern fs))
  unfolding match_round
  round-After f fs p false ih r = ih p r
  round-After f fs p true ih r = elim (Bool-cases (leb q.file_index p.index)) [
    | inl h ↦ rw h (placed-After f fs p ih r)
    | inr h ↦ rw h (ih _ (record { laid = r.laid; left = r.left }))
  ]

  loop-After : (fs : List FindData) (p : Progress) → Room q p → After q (match_loop q pattern fs p)
  unfolding match_loop
  loop-After [] p r = done (Room-Done q p p.overflow r)
  loop-After (f ∷ fs) p r = go (passes q pattern f) refl (loop-After fs)
    where
      go :
          (t : Outcome Bool)
          → passes q pattern f ≡ t
          → ((p : Progress) → Room q p → After q (match_loop q pattern fs p))
          → After q (match_loop q pattern (f ∷ fs) p)
      go (ok b) e ih = rw (match_loop, e) (round-After f fs p b ih r)
      go fault e ih = rw (match_loop, e) faulted

  finish-Laid :
      (o : Outcome Progress) (m : Matched)
      → After q o
      → map_outcome (finish q) o ≡ ok m
      → Laid Terminal 0 m.entries m.used_length × (m.used_length ≤ q.buffer_length)
  unfolding finish
  finish-Laid (ok p) m (done d) e =
      let same : finish q p ≡ m = cc in
      let used : q.buffer_length - p.remaining ≡ d.end = omega (arith, d.left) in
      subst
        (λ (n : Matched).
          Laid Terminal 0 n.entries n.used_length × (n.used_length ≤ q.buffer_length))
        same (rw used (Laid-clear_last p.entries d.laid), omega arith)
  finish-Laid fault m a e = cc

-- The buffer of a request that MatchFiles serves: from offset 0 to the used length, which is within
-- the buffer, the entries lie side by side on multiples of eight, each with the offset of the next
-- one, and the last one with the offset 0.
pub match_files-Laid :
    (q : Query) (v : Vector FindData) (m : Matched)
    → match_files q v ≡ ok m
    → Laid Terminal 0 m.entries m.used_length × (m.used_length ≤ q.buffer_length)
unfolding match_files
match_files-Laid q v m e = checked (checked_pattern q q.search_pattern) e
  where
    go :
        (pattern : Option (List ℕ)) (r : Outcome (List FindData))
        → (r >>= λ fs. map_outcome (finish q) (match_loop q pattern fs (started q))) ≡ ok m
        → Laid Terminal 0 m.entries m.used_length × (m.used_length ≤ q.buffer_length)
    go pattern (ok fs) e =
        finish-Laid q pattern (match_loop q pattern fs (started q)) m
          (loop-After q pattern fs (started q) (record { laid = nothing refl; left = omega arith }))
          e
    go pattern fault e = cc

    checked :
        (c : Outcome (Option (List ℕ)))
        → (c >>= λ pattern. read_items (get_count v) 0 v >>= λ fs.
            map_outcome (finish q) (match_loop q pattern fs (started q)))
          ≡ ok m
        → Laid Terminal 0 m.entries m.used_length × (m.used_length ≤ q.buffer_length)
    checked (ok pattern) e = go pattern (read_items (get_count v) 0 v) e
    checked fault e = cc
