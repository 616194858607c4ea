-- ===== src/Irps/Preserves.antt =====
-- dokan-sys/src/dokany/sys/notification.c, timeout.c and event.c: the operations that complete pending
-- IRPs and the invariant.
use crv_virtual_disk.Prelude.{
  sum_in, same, ℕ, ◌+◌, ◌≤◌, ◌≡◌, refl, sym, ap, inl, inr, Bool, true, false, not, ◌&&◌, ltb, List,
  [], arith, Bool-cases,
}
use crv_virtual_disk.Irps.State.{State}
use crv_virtual_disk.Irps.Release.{move_irp_list, move_loop, release_pending_irp, event_release}
use crv_virtual_disk.Irps.Timeout.{
  Sorted, is_nil, timeout_loop, end_timeout, complete_timed_out, release_timeout_pending_irp,
}
use crv_virtual_disk.Irps.Complete.{
  Batch, Found, Search, search_loop, complete_loop, end_completion, complete_found, first_search,
  complete_irp,
}
use crv_virtual_disk.Irps.Weight.{token, no_irp, forced_in, irps_in, weight, total}
use crv_virtual_disk.Irps.Loops.{
  Shrinks, Shrinks-refl, Shrinks-trans, AllClaimed, move_loop-AllClaimed,
}
use crv_virtual_disk.Irps.Payments.{
  Paid, cancel_entries-Paid, complete_timed_out-Paid, complete_loop-Paid,
}
use crv_virtual_disk.Irps.Selections.{
  Holds, Holds-map, Selected, TimeoutSelected, timeout_loop-Selected,
}
use crv_virtual_disk.Irps.Searches.{FoundSelected, search_loop-Selected}
use crv_virtual_disk.Irps.Steps.{Valid}

-- Nothing is gained from `s` to `t`.
pub record Leads (s t : State) : Type 0 where
  pub shrinks : Shrinks s t
  pub counts : (f : ℕ → ℕ) → sum_in f t.pending ≤ sum_in f s.pending
  pub totals : (i : ℕ) → total i t ≤ total i s

pub Leads-refl : (s : State) → Leads s s
Leads-refl s = record {
  shrinks = Shrinks-refl s;
  counts = λ f. omega arith;
  totals = λ i. omega arith;
}

pub Leads-trans : {s t u : State} → Leads s t → Leads t u → Leads s u
Leads-trans h k = record {
  shrinks = Shrinks-trans h.shrinks k.shrinks;
  counts = λ f. omega (arith, h.counts f, k.counts f);
  totals = λ i. omega (arith, h.totals i, k.totals i);
}

pub Leads-Valid : {s t : State} → Leads s t → Valid s → Valid t
Leads-Valid {s} {t} h v = record {
  totals = λ i. omega (arith, h.totals i, v.totals i);
  no_duplicates = λ e. omega (arith, h.counts (same e), v.no_duplicates e);
  not_canceled =
      rw h.shrinks.entries (omega (arith, h.counts (λ e. no_irp (s.entries e)), v.not_canceled));
  owners = λ i e l p. rw (h.shrinks.entries) (
      v.owners i e
        (omega (arith, l, h.shrinks.routines i, ap (λ o. token o) (h.shrinks.canceling i)))
        (h.shrinks.links i e p));
}

-- A pass over the list, and the completion of what it took.
finish-Leads :
    {kept complete : List ℕ} {s t u : State}
    → Selected s.pending s kept complete t
    → Paid complete (record t { pending = kept }) u
    → Leads s u
finish-Leads {kept} {complete} {s} {t} {u} h k = record {
  shrinks = Shrinks-trans (Shrinks-trans h.shrinks keep) k.shrinks;
  counts = λ f. rw k.pending (h.counts f);
  totals = λ i. rw (k.pending, k.shrinks.entries) (omega (arith, h.weights i, paid i, forced_eq i));
}
  where
    keep : Shrinks t (record t { pending = kept })
    keep = record {
      entries = refl;
      canceling = λ i. refl;
      routines = λ i. omega arith;
      links = λ i e l. l;
    }

    paid : (i : ℕ) → weight i u ≤ weight i t + irps_in i s.entries complete
    paid i = rw (sym h.shrinks.entries) (k.weights i)

    forced_eq : (i : ℕ) → forced_in i t.entries kept ≡ forced_in i s.entries kept
    forced_eq i = ap (λ f. forced_in i f kept) h.shrinks.entries

AllClaimed-Selected :
    {dest : List ℕ} {s t : State} (es : List ℕ) → AllClaimed dest s t → Selected es s [] dest t
AllClaimed-Selected es h = record {
  shrinks = h.shrinks;
  counts = λ f. omega arith;
  weights = λ i. omega (arith, h.weights i);
}

pub release_pending_irp-Leads : (s : State) → Leads s (release_pending_irp s)
unfolding release_pending_irp move_irp_list
release_pending_irp-Leads s =
    let (dest, t) = move_loop s.pending s in
    finish-Leads (AllClaimed-Selected s.pending (move_loop-AllClaimed s.pending s))
      (cancel_entries-Paid dest (record t { pending = [] }))

unmount-Leads : (s : State) → Leads s (record s { unmount_pending = true })
unmount-Leads s = record {
  shrinks = record {
    entries = refl;
    canceling = λ i. refl;
    routines = λ i. omega arith;
    links = λ i e l. l;
  };
  counts = λ f. omega arith;
  totals = λ i. omega arith;
}

pub event_release-Leads : (s : State) → Leads s (event_release s)
unfolding event_release
event_release-Leads s = elim (Bool-cases s.unmount_pending) [
  | inl p ↦ simp p (Leads-refl s)
  | inr p ↦ simp p (
      Leads-trans (unmount-Leads s)
        (release_pending_irp-Leads (record s { unmount_pending = true })))
]

end_timeout-Leads :
    (keepalive : Bool) (s : State) (d : Sorted)
    → TimeoutSelected s.pending s d
    → Leads s (end_timeout keepalive d)
unfolding end_timeout
end_timeout-Leads keepalive s d h = elim (Bool-cases (not keepalive && not (is_nil d.complete))) [
  | inl p ↦ simp p (Leads-trans done (event_release-Leads t))
  | inr p ↦ simp p done
]
  where
    t : State
    t = complete_timed_out d.complete (record (d.state) { pending = d.kept })

    done : Leads s t
    done =
        finish-Leads h (complete_timed_out-Paid d.complete (record (d.state) { pending = d.kept }))

pub release_timeout_pending_irp-Leads :
    (ticks : ℕ) (keepalive : Bool) (s : State)
    → Holds (Leads s) (release_timeout_pending_irp ticks keepalive s)
unfolding release_timeout_pending_irp
release_timeout_pending_irp-Leads ticks keepalive s =
    Holds-map (TimeoutSelected s.pending s) (Leads s) (end_timeout keepalive)
      (timeout_loop ticks s.pending s) (end_timeout-Leads keepalive s)
      (timeout_loop-Selected ticks s.pending s)

end_completion-Leads :
    (c : Search) (s : State) (r : Bool × State) → Leads s r.1 → Leads s (end_completion c r).1
unfolding end_completion
end_completion-Leads c s (false, t) h = h
end_completion-Leads c s (true, t) h = elim (Bool-cases c.bad_usage) [
  | inl p ↦ simp p (Leads-trans h (event_release-Leads t))
  | inr p ↦ simp p h
]

complete_found-Leads :
    (b : Batch) (s : State) (f : Found)
    → FoundSelected s.pending s f
    → Leads s (complete_found b f).1
unfolding complete_found
complete_found-Leads b s f h =
    let t : State = record (f.state) { pending = f.kept } in
    end_completion-Leads f.search s (complete_loop b 0 f.complete t)
      (finish-Leads h (complete_loop-Paid b 0 f.complete t))

pub complete_irp-Leads : (b : Batch) (s : State) → Holds (λ r. Leads s r.1) (complete_irp b s)
unfolding complete_irp
complete_irp-Leads b s = elim (Bool-cases s.unmount_pending) [
  | inl p ↦ simp p (Leads-refl s)
  | inr p ↦ elim (Bool-cases (ltb b.buffer_length b.info_size)) [
    | inl q ↦ simp (p, q) (Leads-refl s)
    | inr q ↦
        simp (p, q)
          (Holds-map (FoundSelected s.pending s) (λ r. Leads s r.1) (complete_found b)
            (search_loop b s.pending first_search s) (complete_found-Leads b s)
            (search_loop-Selected b s.pending first_search s))
  ]
]
