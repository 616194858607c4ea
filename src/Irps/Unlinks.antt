-- ===== src/Irps/Unlinks.antt =====
-- dokan-sys/src/dokany/sys/event.c: DokanIrpCancelRoutine and the invariant.
use crv_virtual_disk.Prelude.{
  sum_in_mono, sum_in-remove, sum_in-remove_one, sum_in-update, same, update, remove, update_cases,
  ℕ, ◌≤◌, ◌≡◌, refl, sym, ap, ◌∙◌, inl, inr, false, Option, none, some, arith, ◌==◌, ==_iff,
  Bool-cases,
}
use crv_virtual_disk.Irps.State.{
  State, Entry, Routine, Completion, with_status, status_cancelled, irp_mj_write, irp_mj_cleanup,
  complete_irp_request,
}
use crv_virtual_disk.Irps.Cancel.{unlink_entry}
use crv_virtual_disk.Irps.Weight.{no_irp, token, forced, forced_in, weight}
use crv_virtual_disk.Irps.Payments.{complete_irp_request-weight}
use crv_virtual_disk.Irps.Cancels.{end_canceling, end_canceling-spent, end_canceling-routines}
use crv_virtual_disk.Irps.Steps.{Valid, routines}

abbrev without_irp : Entry → Entry
without_irp entry = record entry { irp = none }

-- What the removal of the entry `e` of the IRP `i` leaves, but for memory, events and cleanups.
record Unlinked (i e : ℕ) (s t : State) : Type 0 where
  entries : t.entries ≡ update s.entries e (without_irp (s.entries e))
  pending : t.pending ≡ remove e s.pending
  linked : t.linked ≡ update s.linked i none
  cancel_routine : t.cancel_routine ≡ s.cancel_routine
  canceling : t.canceling ≡ s.canceling
  completions : t.completions ≡ s.completions

unlink_entry-Unlinked : (i e : ℕ) (s : State) → Unlinked i e s (unlink_entry i (some e) s)
unlink_entry-Unlinked i e s = elim (Bool-cases ((s.entries e).major_function == irp_mj_write)) [
  | inl p ↦ simp p (record {
    entries = refl;
    pending = refl;
    linked = refl;
    cancel_routine = refl;
    canceling = refl;
    completions = refl;
  })
  | inr p ↦ elim (Bool-cases ((s.entries e).major_function == irp_mj_cleanup)) [
    | inl q ↦
        simp (p, q)
          (record {
            entries = refl;
            pending = refl;
            linked = refl;
            cancel_routine = refl;
            canceling = refl;
            completions = refl;
          })
    | inr q ↦
        simp (p, q)
          (record {
            entries = refl;
            pending = refl;
            linked = refl;
            cancel_routine = refl;
            canceling = refl;
            completions = refl;
          })
  ]
]

forced_in-Unlinked :
    (i e j : ℕ) (s t : State)
    → Unlinked i e s t
    → forced_in j t.entries t.pending ≤ forced_in j s.entries s.pending
forced_in-Unlinked i e j s t u =
    rw (u.entries, u.pending)
      (omega (
        arith,
        sum_in-remove (λ x. forced j (s.entries x)) e s.pending,
        sum_in_mono (λ x. forced j (update s.entries e (without_irp (s.entries e)) x))
            (λ x. forced j (s.entries x)) (remove e s.pending)
            (λ x.
              update_cases (λ y. forced j y ≤ forced j (s.entries x)) s.entries e
                (without_irp (s.entries e)) x
                (λ p. grind (arith, Bool-cases (s.entries e).forced_canceled)) (λ p. omega arith)),
      ))

answered_entry-Valid :
    (i e : ℕ) (c : Completion) (s t : State) {r : Routine}
    → s.canceling i ≡ some r
    → s.linked i ≡ some e
    → Unlinked i e (end_canceling i s) t
    → Valid s
    → Valid (complete_irp_request i c t)
answered_entry-Valid i e c s t h k u v = record {
  totals = λ j. omega (
    arith,
    v.totals j,
    end_canceling-spent i j s h,
    complete_irp_request-weight i j c t,
    forced_in-Unlinked i e j (end_canceling i s) t u,
    same_weight j,
  );
  no_duplicates =
      λ x. rw u.pending (omega (arith, v.no_duplicates x, sum_in-remove (same x) e s.pending));
  not_canceled =
      rw (u.entries, u.pending)
        (omega (
          arith,
          v.not_canceled,
          sum_in-remove (λ x. no_irp (s.entries x)) e s.pending,
          sum_in-remove_one e s.pending (v.no_duplicates e),
          sum_in-update (λ y. no_irp y) s.entries e (without_irp (s.entries e)) 1
              (remove e s.pending) (omega arith),
        ));
  owners = λ j x l p. owners j x (live j l) (ap (λ f. f j) (sym u.linked) ∙ p);
}
  where
    same_weight : (j : ℕ) → weight j t ≡ weight j (end_canceling i s)
    same_weight j = rw (u.cancel_routine, u.canceling, u.completions) refl

    owner : (s.entries e).irp ≡ some i
    owner = v.owners i e (omega (arith, ap (λ o. token o) h)) k

    live :
        (j : ℕ) → 1 ≤ routines j (complete_irp_request i c t) → 1 ≤ routines j (end_canceling i s)
    live j l =
        omega (arith, l, ap (λ f. token (f j)) u.cancel_routine, ap (λ f. token (f j)) u.canceling)

    linked_other :
        (j x : ℕ) → update s.linked i none j ≡ some x → ((i == j) ≡ false) × (s.linked j ≡ some x)
    linked_other j x =
        update_cases (λ o. o ≡ some x → ((i == j) ≡ false) × (s.linked j ≡ some x)) s.linked i none
          j (λ q. cc) (λ q p. (q, p))

    owned :
        (j x : ℕ)
        → 1 ≤ routines j (end_canceling i s)
        → update s.linked i none j ≡ some x
        → (s.entries x).irp ≡ some j
    owned j x l p =
        v.owners j x (omega (arith, l, end_canceling-routines i j s)) (linked_other j x p).1

    distinct : (j x : ℕ) → (i == j) ≡ false → (s.entries x).irp ≡ some j → e ≡ x → none ≡ some j
    distinct j x n o q =
        grind (arith, sym owner ∙ ap (λ y. (s.entries y).irp) q ∙ o, (==_iff i j).1)

    owners :
        (j x : ℕ)
        → 1 ≤ routines j (end_canceling i s)
        → update s.linked i none j ≡ some x
        → (t.entries x).irp ≡ some j
    owners j x l p = rw u.entries (
        update_cases (λ y. y.irp ≡ some j) s.entries e (without_irp (s.entries e)) x
          (λ q. distinct j x (linked_other j x p).0 (owned j x l p) q) (λ q. owned j x l p))

pub run_irp_cancel_routine-Valid :
    (i : ℕ) (o : Option ℕ) (s : State) {r : Routine}
    → s.canceling i ≡ some r
    → s.linked i ≡ o
    → Valid s
    → Valid (
        complete_irp_request i
          (with_status status_cancelled)
          (unlink_entry i o (end_canceling i s)))
run_irp_cancel_routine-Valid i (some e) s h k v =
    answered_entry-Valid i e (with_status status_cancelled) s
      (unlink_entry i (some e) (end_canceling i s)) h k
      (unlink_entry-Unlinked i e (end_canceling i s)) v
run_irp_cancel_routine-Valid i none s h k v = record {
  totals = λ j. omega (
    arith,
    v.totals j,
    end_canceling-spent i j s h,
    complete_irp_request-weight i j (with_status status_cancelled) (end_canceling i s),
  );
  no_duplicates = v.no_duplicates;
  not_canceled = v.not_canceled;
  owners = λ j e l. v.owners j e (omega (arith, l, end_canceling-routines i j s));
}
