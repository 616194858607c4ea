-- ===== src/Irps/Registers.antt =====
-- dokan-sys/src/dokany/sys/event.c: the registration of an IRP and the invariant.
use crv_virtual_disk.Prelude.{
  sum_in, sum_in-append, sum_in_mono, sum_in-update, same, update, update_self, update_cases, ℕ,
  ◌+◌, ◌≤◌, ◌≡◌, refl, sym, ap, ◌∙◌, inl, inr, false, [], ◌∷◌, ◌++◌, Option, none, some, arith,
  ◌==◌, ==_iff, Bool-cases, if◌then◌else◌, length,
}
use crv_virtual_disk.Irps.State.{State, Entry, Routine, free_irp_entry}
use crv_virtual_disk.Irps.Register.{
  Registration, routine_of, new_entry, next_serial, counted, insert_entry, register_entry,
  register_with, register_pending_irp_main,
}
use crv_virtual_disk.Irps.Weight.{
  canceled_in, no_irp, null_irp, token, is_irp, forced, forced_in, irps_in,
}
use crv_virtual_disk.Irps.Steps.{Valid, NewIrp, FreshEntry}

forced-is_irp : (i : ℕ) (entry : Entry) → forced i entry ≤ is_irp i entry.irp
forced-is_irp i entry = elim (Bool-cases entry.forced_canceled) [
  | inl p ↦ simp p (omega arith)
  | inr p ↦ simp p (omega arith)
]

module _ (r : Registration) (e : ℕ) (entry : Entry) (s : State) where
  not_forced-total :
      (i : ℕ)
      → entry.forced_canceled ≡ false
      → FreshEntry e s
      → forced_in i (update s.entries e entry) (s.pending ++ e ∷ [])
        ≤ forced_in i s.entries s.pending
  not_forced-total i f h = omega (
    arith,
    h.not_pending,
    sum_in-update (forced i) s.entries e entry 0 s.pending (simp f (omega arith)),
    sum_in-append (λ x. forced i (update s.entries e entry x)) s.pending (e ∷ []),
    new,
  )
    where
      new : forced i (update s.entries e entry e) ≡ 0
      new = ap (λ y. forced i y) (update_self s.entries e entry) ∙ simp f refl

  with_routine-total :
      (i : ℕ) (v : Routine)
      → NewIrp r.irp s
      → Valid s
      → token (update s.cancel_routine r.irp (some v) i)
          + token (s.canceling i)
          + length (s.completions i)
          + forced_in i s.entries s.pending
        ≤ 1
  with_routine-total i w n v = elim (Bool-cases (r.irp == i)) [
    | inl p ↦
        let q = (==_iff r.irp i).0 p in
        simp p (
          omega (
            arith,
            ap (λ k. token (s.canceling k)) q,
            ap (λ o. token o) n.not_canceling,
            ap (λ k. length (s.completions k)) q,
            ap (λ cs. length cs) n.not_completed,
            ap (λ k. irps_in k s.entries s.pending) q,
            n.not_pending,
            sum_in_mono (λ x. forced i (s.entries x)) (λ x. is_irp i (s.entries x).irp) s.pending
                (λ x. forced-is_irp i (s.entries x)),
          ))
    | inr p ↦ simp p (v.totals i)
  ]

  append-no_duplicates :
      (x : ℕ) → FreshEntry e s → Valid s → sum_in (same x) (s.pending ++ e ∷ []) ≤ 1
  append-no_duplicates x h v = elim (Bool-cases (x == e)) [
    | inl p ↦ omega (
      arith,
      sum_in-append (same x) s.pending (e ∷ []),
      ap (λ y. sum_in (same y) s.pending) ((==_iff x e).0 p),
      h.not_pending,
      same_le x e,
    )
    | inr p ↦ omega (
      arith,
      sum_in-append (same x) s.pending (e ∷ []),
      v.no_duplicates x,
      ap {B = ℕ} (λ b. if b then 1 else 0) p,
    )
  ]
    where
      same_le : (a b : ℕ) → same a b ≤ 1
      same_le a b = ground arith

  append-canceled :
      entry.irp ≡ some r.irp
      → FreshEntry e s
      → Valid s
      → canceled_in (update s.entries e entry) (s.pending ++ e ∷ []) ≡ 0
  append-canceled o h v = omega (
    arith,
    h.not_pending,
    v.not_canceled,
    sum_in-update (λ y. no_irp y) s.entries e entry 0 s.pending
        (omega (arith, ap (λ y. null_irp y) o)),
    sum_in-append (λ x. no_irp (update s.entries e entry x)) s.pending (e ∷ []),
    ap (λ y. no_irp y) (update_self s.entries e entry),
    ap (λ y. null_irp y) o,
  )

  new_owner :
      (i x : ℕ) (w : Routine)
      → entry.irp ≡ some r.irp
      → FreshEntry e s
      → Valid s
      → 1 ≤ token (update s.cancel_routine r.irp (some w) i) + token (s.canceling i)
      → update s.linked r.irp (some e) i ≡ some x
      → (update s.entries e entry x).irp ≡ some i
  new_owner i x w o h v l p = elim (Bool-cases (r.irp == i)) [
    | inl q ↦
        update_cases (λ y. y.irp ≡ some i) s.entries e entry x
          (λ u. o ∙ ap some ((==_iff r.irp i).0 q))
          (λ u. grind (arith, simp q at p, (==_iff e x).1))
    | inr q ↦
        update_cases (λ y. y.irp ≡ some i) s.entries e entry x
          (λ u. grind (arith, simp q at l, h.not_used i ((simp q at p) ∙ ap some (sym u))))
          (λ u. v.owners i x (simp q at l) (simp q at p))
  ]

  insert_entry-Valid :
      entry.forced_canceled ≡ false
      → entry.irp ≡ some r.irp
      → NewIrp r.irp s
      → FreshEntry e s
      → Valid s
      → Valid (insert_entry r e entry s).0
  insert_entry-Valid f o n h v = record {
    totals = λ i.
        omega
          (arith, not_forced-total i f h, with_routine-total i (routine_of r.major_function) n v);
    no_duplicates = λ x. append-no_duplicates x h v;
    not_canceled = append-canceled o h v;
    owners = λ i x l p. new_owner i x (routine_of r.major_function) o h v l p;
  }

counted-Valid : (r : Registration) (s : State) → Valid s → Valid (counted r s)
counted-Valid r s v = elim (Bool-cases r.has_event_context) [
  | inl p ↦ simp p (record {
    totals = v.totals;
    no_duplicates = v.no_duplicates;
    not_canceled = v.not_canceled;
    owners = v.owners;
  })
  | inr p ↦ simp p v
]

free_irp_entry-Valid : (e : ℕ) (s : State) → Valid s → Valid (free_irp_entry e s)
free_irp_entry-Valid e s v = record {
  totals = v.totals;
  no_duplicates = v.no_duplicates;
  not_canceled = v.not_canceled;
  owners = v.owners;
}

counted-NewIrp : (r : Registration) (i : ℕ) (s : State) → NewIrp i s → NewIrp i (counted r s)
counted-NewIrp r i s n = elim (Bool-cases r.has_event_context) [
  | inl p ↦ simp p (record {
    routine = n.routine;
    not_canceling = n.not_canceling;
    not_completed = n.not_completed;
    not_pending = n.not_pending;
  })
  | inr p ↦ simp p n
]

counted-FreshEntry :
    (r : Registration) (e : ℕ) (s : State) → FreshEntry e s → FreshEntry e (counted r s)
counted-FreshEntry r e s h = elim (Bool-cases r.has_event_context) [
  | inl p ↦ simp p (record { not_pending = h.not_pending; not_used = h.not_used })
  | inr p ↦ simp p h
]

register_entry-Valid :
    (r : Registration) (e : ℕ) (s : State)
    → r.forced_canceled ≡ false
    → NewIrp r.irp s
    → FreshEntry e s
    → Valid s
    → Valid (register_entry r e s).0
unfolding register_entry
register_entry-Valid r e s f n h v = elim (Bool-cases (s.cancel r.irp)) [
  | inl p ↦ simp p (free_irp_entry-Valid e (counted r s) (counted-Valid r s v))
  | inr p ↦ simp p (
      insert_entry-Valid r e (new_entry r (next_serial r s)) (counted r s) f refl
        (counted-NewIrp r r.irp s n) (counted-FreshEntry r e s h) (counted-Valid r s v))
]

register_with-Valid :
    (r : Registration) (o : Option ℕ) (s : State)
    → r.forced_canceled ≡ false
    → NewIrp r.irp s
    → ((e : ℕ) → o ≡ some e → FreshEntry e s)
    → Valid s
    → Valid (register_with r o s).0
unfolding register_with
register_with-Valid r none s f n h v = v
register_with-Valid r (some e) s f n h v = elim (Bool-cases r.unmounting_locked) [
  | inl p ↦ simp p (free_irp_entry-Valid e s v)
  | inr p ↦ simp p (register_entry-Valid r e s f n (h e refl) v)
]

pub register_pending_irp_main-Valid :
    (r : Registration) (s : State)
    → r.forced_canceled ≡ false
    → NewIrp r.irp s
    → ((e : ℕ) → r.entry ≡ some e → FreshEntry e s)
    → Valid s
    → Valid (register_pending_irp_main r s).0
unfolding register_pending_irp_main
register_pending_irp_main-Valid r s f n h v = elim (Bool-cases r.unmounting) [
  | inl p ↦ simp p v
  | inr p ↦ simp p (register_with-Valid r r.entry s f n h v)
]
