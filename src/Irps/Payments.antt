-- ===== src/Irps/Payments.antt =====
-- dokan-sys/src/dokany/sys/notification.c, timeout.c and event.c: what the loops that complete claimed
-- entries leave of the IRPs.
use crv_virtual_disk.Prelude.{
  sum_in-append, same, update, ℕ, ◌+◌, ◌≤◌, ◌≡◌, refl, sym, ap, ◌∙◌, inl, inr, true, List, [], ◌∷◌,
  ◌++◌, Option, none, some, arith, ◌==◌, ==_iff, leb, Bool-cases, if_cases, length, length-append,
}
use crv_virtual_disk.Irps.State.{
  State, Reply, Completion, with_status, replied, status_cancelled, irp_mj_cleanup,
  complete_irp_request, execute_cleanup, free_irp_entry, status_pending,
}
use crv_virtual_disk.Irps.Release.{cancel_irp, cancel_entry, cancel_entries}
use crv_virtual_disk.Irps.Timeout.{timeout_completion, complete_entry, complete_timed_out}
use crv_virtual_disk.Irps.Complete.{
  Batch, completed_status, dispatch_completion, complete_at, next_offset, complete_loop,
}
use crv_virtual_disk.Irps.Weight.{is_irp, irps_in, weight}
use crv_virtual_disk.Irps.Loops.{Shrinks, Shrinks-refl, Shrinks-memory, Shrinks-trans}

-- The completion of claimed entries.
pub record Paid (dest : List ℕ) (s t : State) : Type 0 where
  pub shrinks : Shrinks s t
  pub pending : t.pending ≡ s.pending
  pub weights : (i : ℕ) → weight i t ≤ weight i s + irps_in i s.entries dest

pub Paid-append : {xs ys : List ℕ} {s t u : State} → Paid xs s t → Paid ys t u → Paid (xs ++ ys) s u
Paid-append {xs} {ys} {s} {t} {u} h k = record {
  shrinks = Shrinks-trans h.shrinks k.shrinks;
  pending = k.pending ∙ h.pending;
  weights = λ i.
      omega (arith, h.weights i, rest i, sum_in-append (λ e. is_irp i (s.entries e).irp) xs ys);
}
  where
    rest : (i : ℕ) → weight i u ≤ weight i t + irps_in i s.entries ys
    rest i = rw (sym h.shrinks.entries) (k.weights i)

pub Paid-nothing : (es : List ℕ) (s : State) → Paid es s s
Paid-nothing es s = record { shrinks = Shrinks-refl s; pending = refl; weights = λ i. omega arith }

pub complete_irp_request-weight :
    (j i : ℕ) (c : Completion) (s : State)
    → weight i (complete_irp_request j c s) ≤ weight i s + same j i
complete_irp_request-weight j i c s = elim (Bool-cases (j == i)) [
  | inl p ↦ simp p (
      omega (
        arith,
        length-append (s.completions j) (c ∷ []),
        ap (λ k. length (s.completions k)) ((==_iff j i).0 p),
      ))
  | inr p ↦ simp p (omega arith)
]

execute_cleanup-Paid : (major j : ℕ) (s : State) → Paid [] s (execute_cleanup major j s)
execute_cleanup-Paid major j s = elim (Bool-cases (major == irp_mj_cleanup)) [
  | inl p ↦ simp p (record {
    shrinks =
        Shrinks-memory s s.freed s.cancel_routine_free_memory s.completions (s.cleanups ++ j ∷ []);
    pending = refl;
    weights = λ i. omega arith;
  })
  | inr p ↦ simp p (record { shrinks = Shrinks-refl s; pending = refl; weights = λ i. omega arith })
]

pub free_irp_entry-Paid : (e : ℕ) (s : State) → Paid [] s (free_irp_entry e s)
free_irp_entry-Paid e s = record {
  shrinks =
      Shrinks-memory s (update s.freed e true) s.cancel_routine_free_memory s.completions
        s.cleanups;
  pending = refl;
  weights = λ i. omega arith;
}

pub complete_irp_request-Paid :
    (e j : ℕ) (c : Completion) (s : State)
    → (s.entries e).irp ≡ some j
    → Paid (e ∷ []) s (complete_irp_request j c s)
complete_irp_request-Paid e j c s h = record {
  shrinks =
      Shrinks-memory s s.freed s.cancel_routine_free_memory
        (update s.completions j (s.completions j ++ c ∷ [])) s.cleanups;
  pending = refl;
  weights = λ i. omega (arith, complete_irp_request-weight j i c s, ap (λ o. is_irp i o) h);
}

-- A cleanup and the completion of the IRP of an entry.
pub cleanup_and_complete-Paid :
    (e major j : ℕ) (c : Completion) (s : State)
    → (s.entries e).irp ≡ some j
    → Paid (e ∷ []) s (complete_irp_request j c (execute_cleanup major j s))
cleanup_and_complete-Paid e major j c s h = Paid-append (execute_cleanup-Paid major j s) (
    complete_irp_request-Paid e j c (execute_cleanup major j s)
      (ap (λ f. (f e).irp) (execute_cleanup-Paid major j s).shrinks.entries ∙ h))

cancel_irp-Paid :
    (e major : ℕ) (o : Option ℕ) (s : State)
    → (s.entries e).irp ≡ o
    → Paid (e ∷ []) s (cancel_irp e major o s)
cancel_irp-Paid e major none s h = Paid-nothing (e ∷ []) s
cancel_irp-Paid e major (some j) s h =
    cleanup_and_complete-Paid e major j (with_status status_cancelled) s h

pub cancel_entries-Paid : (es : List ℕ) (s : State) → Paid es s (cancel_entries es s)
unfolding cancel_entries cancel_entry
cancel_entries-Paid [] s = Paid-nothing [] s
cancel_entries-Paid (e ∷ es) s =
    Paid-append
      (Paid-append (free_irp_entry-Paid e s) (
        cancel_irp-Paid e (s.entries e).major_function (s.entries e).irp (free_irp_entry e s) refl))
      (cancel_entries-Paid es (cancel_entry e s))

complete_entry-Paid :
    (e : ℕ) (o : Option ℕ) (s : State)
    → (s.entries e).irp ≡ o
    → Paid (e ∷ []) s (complete_entry (s.entries e) o s)
complete_entry-Paid e none s h = Paid-nothing (e ∷ []) s
complete_entry-Paid e (some j) s h =
    cleanup_and_complete-Paid e (s.entries e).major_function j (timeout_completion (s.entries e)) s
      h

pub complete_timed_out-Paid : (es : List ℕ) (s : State) → Paid es s (complete_timed_out es s)
unfolding complete_timed_out
complete_timed_out-Paid [] s = Paid-nothing [] s
complete_timed_out-Paid (e ∷ es) s =
    let t = complete_entry (s.entries e) (s.entries e).irp s in
    Paid-append
      (Paid-append (complete_entry-Paid e (s.entries e).irp s refl) (free_irp_entry-Paid e t))
      (complete_timed_out-Paid es (free_irp_entry e t))

dispatch_completion-Paid :
    (b : Batch) (e major j : ℕ) (r : Reply) (s : State)
    → (s.entries e).irp ≡ some j
    → Paid (e ∷ []) s (dispatch_completion b major j r s)
dispatch_completion-Paid b e major j r s h =
    if_cases (λ (t : State). Paid (e ∷ []) s t) (completed_status b major j r == status_pending)
      (execute_cleanup major j s) (complete_irp_request j (replied r) (execute_cleanup major j s))
      (λ p.
        Paid-append (execute_cleanup-Paid major j s)
          (Paid-nothing (e ∷ []) (execute_cleanup major j s)))
      (λ p. cleanup_and_complete-Paid e major j (replied r) s h)

complete_at-Paid :
    (b : Batch) (offset e major : ℕ) (o : Option ℕ) (s : State)
    → (s.entries e).irp ≡ o
    → Paid (e ∷ []) s (complete_at b offset major o s)
complete_at-Paid b offset e major none s h = Paid-nothing (e ∷ []) s
complete_at-Paid b offset e major (some j) s h =
    if_cases (λ (t : State). Paid (e ∷ []) s t) (leb b.buffer_length offset)
      (complete_irp_request j (with_status status_cancelled) s)
      (dispatch_completion b major j (b.reply_at offset) s)
      (λ p. complete_irp_request-Paid e j (with_status status_cancelled) s h)
      (λ p. dispatch_completion-Paid b e major j (b.reply_at offset) s h)

pub complete_loop-Paid :
    (b : Batch) (offset : ℕ) (es : List ℕ) (s : State) → Paid es s (complete_loop b offset es s).1
unfolding complete_loop
complete_loop-Paid b offset [] s = Paid-nothing [] s
complete_loop-Paid b offset (e ∷ es) s = elim (Bool-cases s.unmount_pending) [
  | inl p ↦ simp p (Paid-nothing (e ∷ es) s)
  | inr p ↦
      let t = complete_at b offset (s.entries e).major_function (s.entries e).irp s in
      simp p (
        Paid-append
          (Paid-append
            (complete_at-Paid b offset e (s.entries e).major_function (s.entries e).irp s refl)
            (free_irp_entry-Paid e t))
          (complete_loop-Paid b (next_offset b offset (s.entries e).major_function) es
            (free_irp_entry e t)))
]
