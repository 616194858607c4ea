-- ===== src/Irps/Drained.antt =====
-- dokan-sys/src/dokany/sys/notification.c: what ReleasePendingIrp completes.
use crv_virtual_disk.Prelude.{
  same, update, ℕ, zero, suc, min, ◌+◌, ◌≤◌, ◌≡◌, refl, sym, ap, ◌∙◌, inl, inr, Bool, List, [], ◌∷◌,
  ◌++◌, append_assoc, append-nil, Option, none, some, arith, ◌==◌, ==_iff, Bool-cases, replicate,
}
use crv_virtual_disk.Irps.State.{
  State, Routine, Completion, with_status, status_cancelled, irp_mj_cleanup, free_irp_entry,
}
use crv_virtual_disk.Irps.Release.{
  claim, claim_irp, take_or_leave, move_loop, move_irp_list, cancel_irp, cancel_entry,
  cancel_entries, release_pending_irp,
}
use crv_virtual_disk.Irps.Weight.{token, is_irp, when, irps_in}
use crv_virtual_disk.Irps.Loops.{claim-Claimed, move_loop-AllClaimed, sum_in-keep_if}
use crv_virtual_disk.Irps.Payments.{cancel_entries-Paid}

-- What the claim of an entry does to the routine and the completions of an IRP.
record Counted (i : ℕ) (irp : Option ℕ) (s : State) (taken : Bool) (t : State) : Type 0 where
  routine : token (t.cancel_routine i) + when taken (is_irp i irp) ≡ token (s.cancel_routine i)
  taken_if : when taken (is_irp i irp) ≡ min (is_irp i irp) (token (s.cancel_routine i))
  completions : t.completions ≡ s.completions

take_or_leave-Counted :
    (e i j : ℕ) (o : Option Routine) (s : State)
    → s.cancel_routine j ≡ o
    → Counted i (some j) s (take_or_leave e j o s).0 (take_or_leave e j o s).1
take_or_leave-Counted e i j none s h = elim (Bool-cases (j == i)) [
  | inl p ↦ record {
    routine = omega arith;
    taken_if = omega (arith, ap (λ o. token o) (ap s.cancel_routine (sym ((==_iff j i).0 p)) ∙ h));
    completions = refl;
  }
  | inr p ↦ record { routine = omega arith; taken_if = simp p (omega arith); completions = refl }
]
take_or_leave-Counted e i j (some r) s h = elim (Bool-cases (j == i)) [
  | inl p ↦
      let q = ap (λ o. token o) (ap s.cancel_routine (sym ((==_iff j i).0 p)) ∙ h) in
      record {
        routine = simp p (omega (arith, q));
        taken_if = simp p (omega (arith, q));
        completions = refl;
      }
  | inr p ↦ record {
    routine = simp p (omega arith);
    taken_if = simp p (omega arith);
    completions = refl;
  }
]

claim_irp-Counted :
    (e i : ℕ) (o : Option ℕ) (s : State) → Counted i o s (claim_irp e o s).0 (claim_irp e o s).1
claim_irp-Counted e i none s = record {
  routine = omega arith;
  taken_if = omega arith;
  completions = refl;
}
claim_irp-Counted e i (some j) s = take_or_leave-Counted e i j (s.cancel_routine j) s refl

claim-Counted : (e i : ℕ) (s : State) → Counted i (s.entries e).irp s (claim e s).0 (claim e s).1
unfolding claim
claim-Counted e i s = claim_irp-Counted e i (s.entries e).irp s

-- An IRP is taken once if it has a routine, however often it is in the list.
move_loop-count :
    (i : ℕ) (es : List ℕ) (s : State)
    → irps_in i s.entries (move_loop es s).0
      ≡ min (irps_in i s.entries es) (token (s.cancel_routine i))
unfolding move_loop
move_loop-count i [] s = omega arith
move_loop-count i (e ∷ es) s = omega (
  arith,
  sum_in-keep_if (λ x. is_irp i (s.entries x).irp) (claim e s).0 e (move_loop es (claim e s).1).0,
  (claim-Counted e i s).routine,
  (claim-Counted e i s).taken_if,
  ap (λ f. irps_in i f (move_loop es (claim e s).1).0) (claim-Claimed e s).shrinks.entries,
  ap (λ f. irps_in i f es) (claim-Claimed e s).shrinks.entries,
  move_loop-count i es (claim e s).1,
  token_le (s.cancel_routine i),
  is_irp_le (s.entries e).irp,
)
  where
    token_le : (o : Option Routine) → token o ≤ 1
    token_le none = omega arith
    token_le (some r) = omega arith

    is_irp_le : (o : Option ℕ) → is_irp i o ≤ 1
    is_irp_le none = omega arith
    is_irp_le (some j) = ground arith

move_loop-completions : (es : List ℕ) (s : State) → (move_loop es s).1.completions ≡ s.completions
unfolding move_loop
move_loop-completions [] s = refl
move_loop-completions (e ∷ es) s =
    move_loop-completions es (claim e s).1 ∙ (claim-Counted e 0 s).completions

abbrev pub cancelled : ℕ → List Completion
cancelled n = replicate n (with_status status_cancelled)

cancel_irp-completions :
    (e major i : ℕ) (o : Option ℕ) (s : State)
    → (cancel_irp e major o s).completions i ≡ s.completions i ++ cancelled (is_irp i o)
cancel_irp-completions e major i none s = sym (append-nil (s.completions i))
cancel_irp-completions e major i (some j) s = elim (Bool-cases (major == irp_mj_cleanup)) [
  | inl p ↦ simp p (cleaned (record s { cleanups = s.cleanups ++ j ∷ [] }))
  | inr p ↦ simp p (cleaned s)
]
  where
    cleaned :
        (t : State)
        → update t.completions j (t.completions j ++ with_status status_cancelled ∷ []) i
          ≡ t.completions i ++ cancelled (same j i)
    cleaned t = elim (Bool-cases (j == i)) [
      | inl p ↦
          simp p (ap (λ k. t.completions k ++ with_status status_cancelled ∷ []) ((==_iff j i).0 p))
      | inr p ↦ simp p (sym (append-nil (t.completions i)))
    ]

replicate_add {ℓ} :
    {A : Type ℓ} (m n : ℕ) (x : A) → replicate m x ++ replicate n x ≡ replicate (m + n) x
replicate_add zero n x = ap (λ k. replicate k x) (add_zero n)
  where
    add_zero : (k : ℕ) → k ≡ 0 + k
    add_zero k = omega arith
replicate_add (suc m) n x =
    ap (λ l. x ∷ l) (replicate_add m n x) ∙ ap (λ k. replicate k x) (suc_add m n)
  where
    suc_add : (j k : ℕ) → suc (j + k) ≡ suc j + k
    suc_add j k = omega arith

cancel_entries-completions :
    (i : ℕ) (es : List ℕ) (s : State)
    → (cancel_entries es s).completions i ≡ s.completions i ++ cancelled (irps_in i s.entries es)
unfolding cancel_entries cancel_entry
cancel_entries-completions i [] s = sym (append-nil (s.completions i))
cancel_entries-completions i (e ∷ es) s =
    cancel_entries-completions i es (cancel_entry e s)
    ∙ ap (λ l. l ++ cancelled (irps_in i (cancel_entry e s).entries es))
        (cancel_irp-completions e (s.entries e).major_function i (s.entries e).irp
          (free_irp_entry e s))
    ∙ append_assoc (s.completions i) (cancelled (is_irp i (s.entries e).irp))
        (cancelled (irps_in i (cancel_entry e s).entries es))
    ∙ ap (λ l. s.completions i ++ l)
        (replicate_add (is_irp i (s.entries e).irp) (irps_in i (cancel_entry e s).entries es)
          (with_status status_cancelled))
    ∙ ap (λ f. s.completions i ++ cancelled (is_irp i (s.entries e).irp + irps_in i f es))
        (cancel_entries-Paid (e ∷ []) s).shrinks.entries

-- Once the pending IRPs were released, the list is empty, and an IRP of the list whose cancel routine
-- was not taken has been completed once more, with STATUS_CANCELLED; one whose cancel routine was taken
-- is left to it, and no other IRP is completed.
pub release_drains :
    (i : ℕ) (s : State)
    → ((release_pending_irp s).pending ≡ [])
      × ((release_pending_irp s).completions i
          ≡ s.completions i
            ++ cancelled (min (irps_in i s.entries s.pending) (token (s.cancel_routine i))))
unfolding release_pending_irp move_irp_list
release_drains i s =
    let (dest, t) = move_loop s.pending s in
    (
      (cancel_entries-Paid dest (record t { pending = [] })).pending,
      cancel_entries-completions i dest (record t { pending = [] })
          ∙ ap (λ f. f i ++ cancelled (irps_in i t.entries dest))
              (move_loop-completions s.pending s)
          ∙ ap (λ f. s.completions i ++ cancelled (irps_in i f dest))
              (move_loop-AllClaimed s.pending s).shrinks.entries
          ∙ ap (λ n. s.completions i ++ cancelled n) (move_loop-count i s.pending s),
    )
