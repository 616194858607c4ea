-- ===== src/Create/Context.antt =====
-- dokan-sys/src/dokany/dokan/create.c: what the kernel and the library keep of a Create request.
use crv_virtual_disk.Prelude.{
  subst, ℕ, ◌≤◌, ◌≡◌, refl, Bool, false, Option, none, some, List, arith, ◌==◌, ◌&&◌, inl, inr,
  Bool-cases,
}
use crv_virtual_disk.Memory.{Outcome, ok, fault, ◌>>=◌, map_outcome}
use crv_virtual_disk.Pool.Store.{Sizes, State}
use crv_virtual_disk.Pool.OpenInfos.{pop_file_open_info, push_file_open_info}
use crv_virtual_disk.Create.Request.{
  has_bit, status_access_denied, CreateRequest, CreateCall, CreateAnswer, Action, Creation,
  nt_success, create_succes_status_check, disposition_of, prepare,
}
use crv_virtual_disk.Create.{
  call_create, Created, success_information, succeed, fail, ask_parent, ask_or_drop, parent_answer,
  drop_open_info, end_create, answer_context, create_with, dispatch_create, open_file,
  store_open_info,
}

-- The result's Context is the DOKAN_OPEN_INFO that the library keeps for the file, if it keeps one.
pub data Consistent (d : Created) : Type 0 where
  kept :
      (p : ℕ)
      → d.open_info ≡ some p
      → d.result_context ≡ some p
      → d.creation.reply_status ≡ 0
      → d.creation.information ≤ 3
      → Consistent d
  dropped :
      d.open_info ≡ none
      → d.result_context ≡ none
      → nt_success d.creation.reply_status ≡ false
      → Consistent d

data Ends : Outcome Created → Type 0 where
  returned : {d : Created} → Consistent d → Ends (ok d)
  faulted : Ends fault

success_information-bound : (status disposition : ℕ) → success_information status disposition ≤ 3
unfolding success_information
success_information-bound status disposition = ground arith

unsuccessful :
    (status disposition : ℕ)
    → create_succes_status_check status disposition ≡ false
    → nt_success status ≡ false
unfolding create_succes_status_check
unsuccessful status disposition h = ground (arith, h)

module _ (malloc : ℕ → Bool) (r : CreateRequest) (p : ℕ) (s : State) where
  drop-Ends :
      (c : Creation)
      → nt_success c.reply_status ≡ false
      → Ends (map_outcome answer_context (drop_open_info malloc p s c))
  unfolding drop_open_info answer_context
  drop-Ends c h = go (push_file_open_info malloc p s)
    where
      go :
          (o : Outcome State)
          → Ends (
              map_outcome answer_context (
                map_outcome
                  (λ t. record {
                    creation = c;
                    open_info = none;
                    result_context = some p;
                    state = t;
                  })
                  o))
      go (ok t) = simp (h) (returned (dropped refl refl h))
      go fault = faulted

  parent-Ends :
      (c : Creation)
      → nt_success c.reply_status ≡ false
      → Ends (map_outcome answer_context (parent_answer malloc p s c))
  unfolding answer_context parent_answer
  parent-Ends c h = elim (Bool-cases (c.status == 0)) [
    | inl granted ↦ simp (granted) (returned (kept p refl refl refl (omega arith)))
    | inr refused ↦ simp (refused) (drop-Ends c h)
  ]

  ask-Ends :
      (zw : Option (List Action → CreateCall → CreateAnswer)) (c : Creation)
      → nt_success c.reply_status ≡ false
      → Ends (map_outcome answer_context (ask_or_drop malloc r zw p s c))
  unfolding ask_or_drop drop_open_info ask_parent call_create
  ask-Ends none c h = drop-Ends c h
  ask-Ends (some zw) c h =
      elim (Bool-cases (c.status == status_access_denied && has_bit r.desired_access 16)) [
        | inl asked ↦ simp (asked) (parent-Ends (ask_parent zw r c) h)
        | inr plain ↦ simp (plain) (drop-Ends c h)
      ]

  end_create-Ends : (c : Creation) → Ends (map_outcome answer_context (end_create malloc r p s c))
  unfolding end_create answer_context succeed fail
  end_create-Ends c = elim (Bool-cases (create_succes_status_check c.status (disposition_of r))) [
    | inl good ↦
        simp (good)
          (returned (kept p refl refl refl (success_information-bound c.status (disposition_of r))))
    | inr bad ↦
        simp (bad)
          (ask-Ends r.zw_create_file (fail c) (unsuccessful c.status (disposition_of r) bad))
  ]

-- The result of a Create request that comes to its end is of one of two kinds. On success the library
-- keeps the DOKAN_OPEN_INFO, the kernel gets its pointer as Context, and Information is neither that a
-- file exists nor that none does. Otherwise the status is an error, and neither of them keeps the pointer.
pub dispatch_create-Consistent :
    (sizes : Sizes) (malloc : ℕ → Bool) (r : CreateRequest) (event_id : ℕ)
    (event_context dokan_instance : Option ℕ) (s : State) (d : Created)
    → dispatch_create sizes malloc r event_id event_context dokan_instance s ≡ ok d
    → Consistent d
unfolding dispatch_create create_with
dispatch_create-Consistent sizes malloc r event_id event_context dokan_instance s d e =
    go (pop_file_open_info sizes malloc s) e
  where
    settle : (o : Outcome Created) → Ends o → o ≡ ok d → Consistent d
    settle (ok d') (returned c) e = let same : d' ≡ d = cc in subst Consistent same c
    settle fault faulted e = cc

    go :
        (o : Outcome (Option ℕ × State))
        → (o >>= create_with malloc r event_id event_context dokan_instance) ≡ ok d
        → Consistent d
    go fault e = cc
    go (ok (none, t)) e = cc
    go (ok (some p, t)) e =
        let c = open_file r r.zw_create_file (prepare r) in
        let u = store_open_info p c event_id event_context dokan_instance t in
        settle (map_outcome answer_context (end_create malloc r p u c))
          (end_create-Ends malloc r p u c) e
