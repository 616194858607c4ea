-- ===== src/Directory/Match/Enumeration.antt =====
-- dokan-sys/src/dokany/dokan/directory.c: the items that the loop of MatchFiles has passed, and why it
-- ended.
use crv_virtual_disk.Prelude.{
  ℕ, zero, suc, ◌+◌, ◌≤◌, ◌<◌, ◌≡◌, refl, sym, ap, ◌∙◌, Bool, true, false, List, [], ◌∷◌, ◌++◌, map,
  Option, some, arith, ltb, leb, ◌==◌, if◌then◌else◌, length, take, drop, get_elem?, append-nil,
  append_assoc, length-append, length-drop, inl, inr, Bool-cases,
}
use mathlib.Core.List.{map-append}
use crv_virtual_disk.Memory.{Outcome, ok, fault, ◌>>=◌, map_outcome}
use crv_virtual_disk.Directory.Entries.{
  FindData, EntryInfo, fill_entry, fill_directory_information, this_entry_size, header_size,
}
use crv_virtual_disk.Directory.Match.{
  Query, Placed, Progress, passes, place_entry, match_round, go_on, match_loop,
}

-- The items that pass the check of the pattern.
unfoldable pub accepted : Query → Option (List ℕ) → List FindData → Outcome (List FindData)
unfolding passes
accepted q pattern [] = ok []
accepted q pattern (f ∷ fs) = passes q pattern f >>= λ passed.
    map_outcome (λ ys. if passed then f ∷ ys else ys) (accepted q pattern fs)

-- The entries of a list of items, the first having index `i`.
abbrev pub number : Query → ℕ → List FindData → List EntryInfo
number q i [] = []
number q i (f ∷ fs) = fill_entry q.info_class f i q.allocation_unit_size ∷ number q (suc i) fs

abbrev pub infos : List Placed → List EntryInfo
infos = map λ e. e.info

number-append :
    (q : Query) (i k : ℕ) (xs : List FindData) (f : FindData)
    → i + length xs ≡ k
    → number q i (xs ++ f ∷ [])
      ≡ number q i xs ++ fill_entry q.info_class f k q.allocation_unit_size ∷ []
number-append q i k [] f e = let e' : i ≡ k = omega arith in rw e'
number-append q i k (x ∷ xs) f e =
    ap (λ r. fill_entry q.info_class x i q.allocation_unit_size ∷ r)
      (number-append q (suc i) k xs f (omega arith))

module _ {ℓ} {A : Type ℓ} where
  pub drop-append_le :
      (n : ℕ) (xs ys : List A) → n ≤ length xs → drop n (xs ++ ys) ≡ drop n xs ++ ys
  drop-append_le zero xs ys h = refl
  drop-append_le (suc n) [] ys h = elim h [ ]
  drop-append_le (suc n) (x ∷ xs) ys h = drop-append_le n xs ys (omega arith)

  pub drop-end : (n : ℕ) (xs : List A) → length xs ≤ n → drop n xs ≡ []
  drop-end zero [] h = refl
  drop-end zero (x ∷ xs) h = elim h [ ]
  drop-end (suc n) [] h = refl
  drop-end (suc n) (x ∷ xs) h = drop-end n xs (omega arith)

  pub take-append : (n : ℕ) (xs ys : List A) → n ≡ length xs → take n (xs ++ ys) ≡ xs
  take-append zero [] ys e = refl
  take-append zero (x ∷ xs) ys e = absurd (omega arith)
  take-append (suc n) [] ys e = absurd (omega arith)
  take-append (suc n) (x ∷ xs) ys e = ap (λ r. x ∷ r) (take-append n xs ys (omega arith))

  pub get_elem?-append :
      (n : ℕ) (xs ys : List A) (y : A) → n ≡ length xs → get_elem? (xs ++ y ∷ ys) n ≡ some y
  get_elem?-append zero [] ys y e = refl
  get_elem?-append zero (x ∷ xs) ys y e = absurd (omega arith)
  get_elem?-append (suc n) [] ys y e = absurd (omega arith)
  get_elem?-append (suc n) (x ∷ xs) ys y e = get_elem?-append n xs ys y (omega arith)

-- The state of the loop behind the accepted items `seen`.
pub record Shown (q : Query) (seen : List FindData) (p : Progress) : Type 0 where
  pub counted : p.index ≡ length seen
  pub written : infos p.entries ≡ number q (suc q.file_index) (drop q.file_index seen)

-- Why the loop ended, with the accepted items `rest` to come.
pub data Ended (q : Query) (all : List FindData) : Outcome Progress → Type 0 where
  complete : {p : Progress} → Shown q all p → p.overflow ≡ false → Ended q all (ok p)
  single :
      {p : Progress} (seen rest : List FindData)
      → all ≡ seen ++ rest
      → Shown q seen p
      → p.overflow ≡ false
      → q.return_single_entry ≡ true
      → q.file_index < length seen
      → Ended q all (ok p)
  full :
      {p : Progress} (seen rest : List FindData) (f : FindData)
      → all ≡ seen ++ f ∷ rest
      → Shown q seen p
      → p.overflow ≡ true
      → q.file_index ≤ length seen
      → p.remaining < this_entry_size q.extd_size q.info_class f
      → Ended q all (ok p)

Shown-skip :
    (q : Query) (seen : List FindData) (f : FindData) (p : Progress)
    → Shown q seen p
    → leb q.file_index p.index ≡ false
    → Shown q (seen ++ f ∷ []) (record p { index = suc p.index })
Shown-skip q seen f p s h =
    let short : length seen < q.file_index = ground (arith, h, s.counted) in
    record {
      counted = omega (arith, s.counted, length-append seen (f ∷ []));
      written =
          rw (drop-end q.file_index (seen ++ f ∷ []) (omega (arith, length-append seen (f ∷ []))))
            (rw (drop-end q.file_index seen (omega arith)) at s.written);
    }

-- One more entry in the buffer.
Shown-write :
    (q : Query) (seen : List FindData) (f : FindData) (p p' : Progress) (e : Placed)
    → Shown q seen p
    → leb q.file_index p.index ≡ true
    → p'.index ≡ suc p.index
    → p'.entries ≡ p.entries ++ e ∷ []
    → e.info ≡ fill_entry q.info_class f (p.index + 1) q.allocation_unit_size
    → Shown q (seen ++ f ∷ []) p'
Shown-write q seen f p p' e s h i w n =
    let reached : q.file_index ≤ length seen = ground (arith, h, s.counted) in
    record {
      counted = omega (arith, s.counted, length-append seen (f ∷ []), i);
      written =
          ap infos w
          ∙ map-append (λ (x : Placed). x.info) p.entries (e ∷ [])
          ∙ rw (s.written, n, drop-append_le q.file_index seen (f ∷ []) reached)
              (sym (
                number-append q (suc q.file_index) (p.index + 1) (drop q.file_index seen) f
                  (omega (arith, length-drop q.file_index seen, s.counted))));
    }

map_outcome-ok {ℓ κ} :
    {A : Type ℓ} {B : Type κ} (f : A → B) (m : Outcome A) {b : B}
    → map_outcome f m ≡ ok b
    → (a : A) × (m ≡ ok a) × (f a ≡ b)
map_outcome-ok f (ok a) e = (a, refl, cc)
map_outcome-ok f fault e = cc

snoc-append {ℓ} :
    {A : Type ℓ} (all xs ys zs : List A) (y : A)
    → all ≡ xs ++ zs
    → y ∷ ys ≡ zs
    → all ≡ (xs ++ y ∷ []) ++ ys
snoc-append all xs ys zs y e f = e ∙ ap (◌++◌ xs) (sym f) ∙ sym (append_assoc xs (y ∷ []) ys)

module _ (q : Query) (pattern : Option (List ℕ)) (sized : 0 < header_size q.extd_size q.info_class)
    (all : List FindData) where
  this_entry_size-pos : (f : FindData) → 0 < this_entry_size q.extd_size q.info_class f
  unfolding this_entry_size
  this_entry_size-pos f = omega (arith, sized)

  -- What is asked of the rest of the loop.
  abbrev Rest : List FindData → Type 0
  Rest fs =
      (p : Progress) (seen ys : List FindData)
      → accepted q pattern fs ≡ ok ys
      → all ≡ seen ++ ys
      → Shown q seen p
      → p.overflow ≡ false
      → Ended q all (match_loop q pattern fs p)

  placed-Ended :
      (f : FindData) (fs : List FindData) (p : Progress) (seen ys : List FindData)
      → Rest fs
      → accepted q pattern fs ≡ ok ys
      → all ≡ seen ++ f ∷ ys
      → Shown q seen p
      → p.overflow ≡ false
      → leb q.file_index p.index ≡ true
      → Ended q all (
          go_on
            (place_entry q p (
              fill_directory_information q.extd_size q.info_class p.remaining f
                (p.index + 1)
                q.allocation_unit_size))
            (match_loop q pattern fs))
  unfolding fill_directory_information place_entry
  placed-Ended f fs p seen ys ih acc e s o h =
      let size = this_entry_size q.extd_size q.info_class f in
      let reached : q.file_index ≤ length seen = ground (arith, h, s.counted) in
      elim (Bool-cases (ltb p.remaining size)) [
        | inl no_room ↦ rw (no_room) (
            full seen ys f e (record { counted = s.counted; written = s.written }) refl reached
              (ground (arith, no_room)))
        | inr room ↦
            let nonzero : (size == 0) ≡ false = ground (arith, this_entry_size-pos f) in
            elim (Bool-cases q.return_single_entry) [
              | inl one ↦
                  simp (room, nonzero, one)
                    (single (seen ++ f ∷ []) ys (snoc-append all seen ys (f ∷ ys) f e refl)
                      (Shown-write q seen f p _ _ s h refl refl refl) o one
                      (omega (arith, length-append seen (f ∷ []))))
              | inr many ↦
                  simp (room, nonzero, many)
                    (ih _ (seen ++ f ∷ []) ys acc (snoc-append all seen ys (f ∷ ys) f e refl)
                      (Shown-write q seen f p _ _ s h refl refl refl) o)
            ]
      ]

  round-Ended :
      (f : FindData) (fs : List FindData) (p : Progress) (seen ys zs : List FindData) (b : Bool)
      → Rest fs
      → accepted q pattern fs ≡ ok ys
      → (if b then f ∷ ys else ys) ≡ zs
      → all ≡ seen ++ zs
      → Shown q seen p
      → p.overflow ≡ false
      → Ended q all (go_on (match_round q f p b) (match_loop q pattern fs))
  unfolding match_round
  round-Ended f fs p seen ys zs false ih acc z e s o = ih p seen ys acc (rw z e) s o
  round-Ended f fs p seen ys zs true ih acc z e s o = elim (Bool-cases (leb q.file_index p.index)) [
    | inl h ↦ rw h (placed-Ended f fs p seen ys ih acc (rw z e) s o h)
    | inr h ↦ rw h (
        ih _ (seen ++ f ∷ []) ys acc (snoc-append all seen ys zs f e z) (Shown-skip q seen f p s h)
          o)
  ]

  pub loop-Ended : (fs : List FindData) → Rest fs
  unfolding match_loop accepted
  loop-Ended [] p seen ys acc e s o =
      let z : [] ≡ ys = cc in
      let whole : all ≡ seen = e ∙ ap (◌++◌ seen) (sym z) ∙ append-nil seen in
      complete (rw whole s) o
  loop-Ended (f ∷ fs) p seen ys acc e s o = go (passes q pattern f) refl (loop-Ended fs)
    where
      go :
          (r : Outcome Bool)
          → passes q pattern f ≡ r
          → Rest fs
          → Ended q all (match_loop q pattern (f ∷ fs) p)
      go (ok b) t ih =
          let (xs, a, z) =
            map_outcome-ok (λ (ys : List FindData). if b then f ∷ ys else ys)
              (accepted q pattern fs) (rw (t, accepted) at acc) in
          rw (t, match_loop) (round-Ended f fs p seen xs ys b ih a z e s o)
      go fault t ih = let bad = rw (t, accepted) at acc in absurd (cc)
