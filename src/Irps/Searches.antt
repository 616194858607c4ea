-- ===== src/Irps/Searches.antt =====
-- dokan-sys/src/dokany/sys/event.c: what the search of DokanCompleteIrp leaves of the pending entries
-- and their IRPs.
use crv_virtual_disk.Prelude.{
  ℕ, ◌≡◌, refl, inl, inr, Bool, true, false, not, ltb, List, [], ◌∷◌, Option, none, some, ◌==◌,
  Bool-cases,
}
use crv_virtual_disk.Memory.{Outcome, map_outcome}
use crv_virtual_disk.Irps.State.{State, Routine}
use crv_virtual_disk.Irps.Release.{take_or_leave}
use crv_virtual_disk.Irps.Timeout.{unlink_if}
use crv_virtual_disk.Irps.Complete.{
  Batch, Search, Next, stop, continue, Found, match_irp, take_irp, go_on, after_match, advance,
  keep_entry, add_found, search_loop,
}
use crv_virtual_disk.Irps.Loops.{take_or_leave-Claimed}
use crv_virtual_disk.Irps.Selections.{
  Holds, Holds-map, Holds-bind, Selected, Selected-nothing, Selected-keep, Selected-take, Taken,
  Claimed-Taken, unlink_if-Taken,
}

abbrev pub FoundSelected : List ℕ → State → Found → Type 0
FoundSelected es s f = Selected es s f.kept f.complete f.state

-- The claim of DokanCompleteIrp is that of MoveIrpList, with the entry's slot cleared.
take_irp-take_or_leave :
    (e i : ℕ) (o : Option Routine) (s : State)
    → take_irp e i o s ≡ (
      (take_or_leave e i o s).0,
      unlink_if (take_or_leave e i o s).0 (some i) (take_or_leave e i o s).1,
    )
take_irp-take_or_leave e i none s = refl
take_irp-take_or_leave e i (some r) s = refl

pub match_irp-Taken :
    (e : ℕ) (o : Option ℕ) (s : State)
    → (s.entries e).irp ≡ o
    → Holds (λ r. Taken (s.entries e) s r.0 r.1) (match_irp e o s)
match_irp-Taken e none s h = tt
match_irp-Taken e (some i) s h = rw (take_irp-take_or_leave e i (s.cancel_routine i) s) (
    unlink_if-Taken (take_or_leave e i (s.cancel_routine i) s).0 (some i)
      (Claimed-Taken (rw h (take_or_leave-Claimed e i (s.cancel_routine i) s refl))))

add_found-Selected :
    (e : ℕ) (taken : Bool) {es : List ℕ} {s t : State} (f : Found)
    → Taken (s.entries e) s taken t
    → FoundSelected es t f
    → FoundSelected (e ∷ es) s (add_found taken e f)
add_found-Selected e true f h k = Selected-take e true h k
add_found-Selected e false f h k = Selected-take e false h k

go_on-Selected :
    (n : Next) (es : List ℕ) (s : State) (k : Search → Outcome Found)
    → ((c : Search) → Holds (FoundSelected es s) (k c))
    → Holds (FoundSelected es s) (go_on n es s k)
go_on-Selected (stop c) es s k h = Selected-nothing es s
go_on-Selected (continue c) es s k h = h c

pub search_loop-Selected :
    (b : Batch) (es : List ℕ) (c : Search) (s : State)
    → Holds (FoundSelected es s) (search_loop b es c s)
unfolding search_loop
search_loop-Selected b [] c s = Selected-nothing [] s
search_loop-Selected b (e ∷ es) c s =
    let reply = b.reply_at c.offset in
    let d : Search = record c { last_serial_number = reply.serial_number } in
    let next = after_match b reply (advance b (s.entries e).major_function reply d) in
    elim (Bool-cases (ltb reply.serial_number c.last_serial_number)) [
      | inl p ↦ simp p (Selected-nothing (e ∷ es) s)
      | inr p ↦ elim (Bool-cases (not ((s.entries e).serial_number == reply.serial_number))) [
        | inl q ↦
            simp (p, q)
              (Holds-map (FoundSelected es s) (FoundSelected (e ∷ es) s) (keep_entry e)
                (search_loop b es d s) (λ f h. Selected-keep e h) (search_loop-Selected b es d s))
        | inr q ↦
            simp (p, q)
              (Holds-bind (λ r. Taken (s.entries e) s r.0 r.1) (FoundSelected (e ∷ es) s)
                (λ r.
                  map_outcome (add_found r.0 e) (go_on next es r.1 (λ c'. search_loop b es c' r.1)))
                (match_irp e (s.entries e).irp s)
                (λ r h.
                  Holds-map (FoundSelected es r.1) (FoundSelected (e ∷ es) s) (add_found r.0 e)
                    (go_on next es r.1 (λ c'. search_loop b es c' r.1))
                    (λ f k. add_found-Selected e r.0 f h k)
                    (go_on-Selected next es r.1 (λ c'. search_loop b es c' r.1)
                      (λ c'. search_loop-Selected b es c' r.1)))
                (match_irp-Taken e (s.entries e).irp s refl))
      ]
    ]
