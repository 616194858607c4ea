-- ===== src/Event/Close/Waiting.antt =====
-- dokan-sys/src/dokany/dokan/dokan.c and close.c: the steps of a Close request that arrives while other events use
-- the file.
use mathlib.Core.Option
use crv_virtual_disk.Prelude.{
  ℕ, suc, ◌+◌, ◌*◌, ◌^◌, if_true, ◌<◌, ◌≡◌, refl, ap, ◌∙◌, Bool, true, false, List, [], ◌∷◌, ◌++◌,
  Option, none, some, arith, ltb, ◌==◌, length,
}
use crv_virtual_disk.Memory.{Outcome, ok, ◌>>=◌, map_outcome}
use crv_virtual_disk.Pool.Store.{State, OpenInfo}
use crv_virtual_disk.Pool.OpenInfos.{push_file_open_info}
use crv_virtual_disk.Event.{Event, check_file_name}
use crv_virtual_disk.Event.Close.{
  set_open_info, less_one, released, release_at, release_dokan_open_info, dispatch_close,
  after_close, cleared_context, close_call, closing, release_pointer,
}

-- An event that uses `p` and is no Close request.
pub record Uses (p : ℕ) (e : Event) : Type 0 where
  pub refers : e.open_info ≡ some p
  pub plain : e.close_name ≡ none

pub data AllUse (p : ℕ) : List Event → Type 0 where
  done : AllUse p []
  more : {e : Event} {es : List Event} → Uses p e → AllUse p es → AllUse p (e ∷ es)

-- The completions of some events, one behind the other.
unfoldable pub release_all : Bool → (ℕ → Bool) → List Event → State → Outcome (List Event × State)
unfolding release_dokan_open_info
release_all has malloc [] s = ok ([], s)
release_all has malloc (e ∷ es) s = release_dokan_open_info has malloc e s >>= λ r.
    map_outcome (λ q. (r.0 ∷ q.0, q.1)) (release_all has malloc es r.1)

-- `n` uses are left, and the file is to be closed behind them.
pub record Waiting (p n : ℕ) (name : List ℕ) (context : ℕ) (s : State) : Type 0 where
  pub count : (s.open_infos p).open_count ≡ n
  pub name_kept : (s.open_infos p).close_file_name ≡ some name
  pub context_kept : (s.open_infos p).close_user_context ≡ context
  pub no_list : (s.open_infos p).dir_list ≡ none

less_one-suc : (m n : ℕ) → m ≡ suc n → suc n < 2 ^ 32 → less_one m ≡ n
less_one-suc m n e h = omega (arith, e, h)

self : (p : ℕ) → (p == p) ≡ true
self p = ground arith

-- The DOKAN_OPEN_INFO with one use less.
abbrev used : Event → OpenInfo → OpenInfo
used e o = record o { user_context = e.context; open_count = less_one o.open_count }

abbrev closed : List ℕ → Event → OpenInfo → OpenInfo
closed name e o = record o {
  user_context = e.context;
  open_count = less_one (less_one o.open_count);
  close_file_name = some name;
  close_user_context = e.context;
}

released-used :
    (malloc : ℕ → Bool) (e : Event) (o : OpenInfo)
    → e.close_name ≡ none
    → released malloc e o ≡ used e o
unfolding released
released-used malloc e o h = ap (λ n. closing malloc n e.context (used e o)) h

released-closed :
    (malloc : ℕ → Bool) (e : Event) (o : OpenInfo) (name : List ℕ)
    → e.close_name ≡ some name
    → malloc (2 * (length name + 1)) ≡ true
    → released malloc e o ≡ closed name e o
unfolding released
released-closed malloc e o name h g =
    ap (λ n. closing malloc n e.context (used e o)) h
    ∙ ap (λ n. record (closed name e o) { close_file_name = n })
        (if_true (malloc (2 * (length name + 1))) (some name) none g)

-- The event behind the close of the file.
abbrev pub closed_event : Bool → Event → Option (List ℕ) → ℕ → Event
closed_event has e name context = record e {
  open_info = none;
  context = context;
  result_context = cleared_context e.event_result e.result_context;
  calls = e.calls ++ close_call name context has;
}

module _ (has : Bool) (malloc : ℕ → Bool) (p : ℕ) where
  release-at :
      (e : Event) (s : State) (o : OpenInfo)
      → e.open_info ≡ some p
      → released malloc e (s.open_infos p) ≡ o
      → release_dokan_open_info has malloc e s ≡ release_at has malloc e s p o
  unfolding release_dokan_open_info
  release-at e s o h r =
      ap (λ q. release_pointer has malloc q e s) h ∙ ap (release_at has malloc e s p) r

  release_at-early :
      (e : Event) (s : State) (o : OpenInfo) (n : ℕ)
      → o.open_count ≡ suc n
      → release_at has malloc e s p o ≡ ok (e, set_open_info s p o)
  unfolding release_at
  release_at-early e s o n h =
      let positive : ltb 0 o.open_count ≡ true = ground (arith, h) in simp (positive) refl

  release_at-last :
      (e : Event) (s : State) (o : OpenInfo)
      → o.open_count ≡ 0
      → release_at has malloc e s p o
        ≡ map_outcome
            (λ t. (after_close has e o, t))
            (push_file_open_info malloc p (set_open_info s p (record o { close_file_name = none })))
  unfolding release_at
  release_at-last e s o h =
      let zero_left : ltb 0 o.open_count ≡ false = ground (arith, h) in simp (zero_left) refl

  release-Waiting :
      (e : Event) (n : ℕ) (name : List ℕ) (context : ℕ) (s : State)
      → Uses p e
      → Waiting p (suc (suc n)) name context s
      → suc (suc n) < 2 ^ 32
      → (t : State) × (release_dokan_open_info has malloc e s ≡ ok (e, t))
        × (t.live ≡ s.live)
        × (t.pools ≡ s.pools)
        × Waiting p (suc n) name context t
  release-Waiting e n name context s u w h =
      let o = s.open_infos p in
      let one_less : less_one o.open_count ≡ suc n = less_one-suc _ (suc n) w.count h in
      (
        set_open_info s p (used e o),
        release-at e s (used e o) u.refers (released-used malloc e o u.plain)
            ∙ release_at-early e s (used e o) n one_less,
        refl,
        refl,
        record {
          count = simp (self p) one_less;
          name_kept = simp (self p) w.name_kept;
          context_kept = simp (self p) w.context_kept;
          no_list = simp (self p) w.no_list;
        },
      )

  pub release_all-Waiting :
      (es : List Event) (name : List ℕ) (context : ℕ) (s : State)
      → AllUse p es
      → Waiting p (suc (length es)) name context s
      → suc (length es) < 2 ^ 32
      → (t : State) × (release_all has malloc es s ≡ ok (es, t))
        × (t.live ≡ s.live)
        × (t.pools ≡ s.pools)
        × Waiting p 1 name context t
  unfolding release_all
  release_all-Waiting [] name context s done w h = (s, refl, refl, refl, w)
  release_all-Waiting (e ∷ es) name context s (more u us) w h =
      let (t, run, live, pools, w') = release-Waiting e (length es) name context s u w h in
      let (t', run', live', pools', w'') =
        release_all-Waiting es name context t us w' (omega arith) in
      (t', rw (run, run') refl, live' ∙ live, pools' ∙ pools, w'')

  pub close-Waiting :
      (c : Event) (n : ℕ) (name : List ℕ) (s : State)
      → c.open_info ≡ some p
      → c.close_name ≡ some name
      → malloc (2 * (length (check_file_name name) + 1)) ≡ true
      → (s.open_infos p).dir_list ≡ none
      → (s.open_infos p).open_count ≡ suc (suc (suc n))
      → suc (suc (suc n)) < 2 ^ 32
      → (r : Event) × (t : State) × (dispatch_close has malloc c s ≡ ok (r, t))
        × (r.calls ≡ c.calls)
        × (t.live ≡ s.live)
        × (t.pools ≡ s.pools)
        × Waiting p (suc n) (check_file_name name) c.context t
  unfolding dispatch_close
  close-Waiting c n name s refers closes granted no_list count h =
      let o = s.open_infos p in
      let checked = check_file_name name in
      let r = record c { close_name = Option.map check_file_name c.close_name } in
      let one_less : less_one o.open_count ≡ suc (suc n) = less_one-suc _ (suc (suc n)) count h in
      let two_less : less_one (less_one o.open_count) ≡ suc n =
        less_one-suc _ (suc n) one_less (omega arith) in
      (
        r,
        set_open_info s p (closed checked r o),
        release-at r s (closed checked r o) refers
              (released-closed malloc r o checked (ap (Option.map check_file_name) closes) granted)
            ∙ release_at-early r s (closed checked r o) n two_less,
        refl,
        refl,
        refl,
        record {
          count = simp (self p) two_less;
          name_kept = simp (self p) refl;
          context_kept = simp (self p) refl;
          no_list = simp (self p) no_list;
        },
      )

  pub last-release :
      (e : Event) (name : List ℕ) (context : ℕ) (s : State)
      → Uses p e
      → Waiting p 1 name context s
      → (u : State) × (u.live ≡ s.live)
        × (u.pools ≡ s.pools)
        × ((u.open_infos p).dir_list ≡ none)
        × (release_dokan_open_info has malloc e s
            ≡ map_outcome
                (λ w. (closed_event has e (some name) context, w))
                (push_file_open_info malloc p u))
  last-release e name context s u w =
      let o = s.open_infos p in
      let none_left : less_one o.open_count ≡ 0 = less_one-suc _ 0 w.count (omega arith) in
      let after : after_close has e (used e o) ≡ closed_event has e (some name) context =
        ap (λ q. closed_event has e q o.close_user_context) w.name_kept
        ∙ ap (closed_event has e (some name)) w.context_kept in
      (
        set_open_info s p (record (used e o) { close_file_name = none }),
        refl,
        refl,
        simp (self p) w.no_list,
        release-at e s (used e o) u.refers (released-used malloc e o u.plain)
            ∙ release_at-last e s (used e o) none_left
            ∙ ap
                (λ (r : Event).
                  map_outcome (λ t. (r, t))
                    (push_file_open_info malloc p
                      (set_open_info s p (record (used e o) { close_file_name = none }))))
                after,
      )
