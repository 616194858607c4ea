-- ===== src/Irps/Progress.antt =====
-- dokan-sys/src/dokany/sys/timeout.c and event.c: the two operations that read the IRP of an entry, and
-- their results.
use crv_virtual_disk.Prelude.{
  ℕ, ◌≡◌, refl, inl, inr, Bool, not, ltb, List, [], ◌∷◌, Option, none, some, arith, ◌==◌,
  Bool-cases,
}
use crv_virtual_disk.Memory.{Outcome, ok, fault, ◌>>=◌, map_outcome}
use crv_virtual_disk.Irps.State.{State}
use crv_virtual_disk.Irps.Timeout.{
  claim_forced, claim_timed_out, is_waiting, keep_waiting, add_complete, unlink_if, timeout_loop,
  end_timeout, release_timeout_pending_irp,
}
use crv_virtual_disk.Irps.Complete.{
  Batch, Search, Next, stop, continue, Found, match_irp, go_on, after_match, advance, keep_entry,
  add_found, search_loop, complete_found, first_search, complete_irp,
}
use crv_virtual_disk.Irps.Weight.{null_irp, no_irp, canceled_in}
use crv_virtual_disk.Irps.Selections.{Holds, Taken, unlink_if-Taken, claim_timed_out-Taken}
use crv_virtual_disk.Irps.Searches.{match_irp-Taken}
use crv_virtual_disk.Irps.Steps.{Valid}

-- There is a result.
abbrev pub Ends {ℓ} : {A : Type ℓ} → Outcome A → Type 0
Ends (ok x) = Unit
Ends fault = ⊥

pub Ends-result {ℓ} : {A : Type ℓ} (o : Outcome A) → Ends o → (x : A) × (o ≡ ok x)
Ends-result (ok x) h = (x, refl)
Ends-result fault h = absurd h

Ends-map {ℓ κ} :
    {A : Type ℓ} {B : Type κ} (f : A → B) (o : Outcome A) → Ends o → Ends (map_outcome f o)
Ends-map f (ok x) h = tt
Ends-map f fault h = h

Ends-bind {ℓ κ} :
    {A : Type ℓ} {B : Type κ} (P : A → Type 0) (o : Outcome A) (f : A → Outcome B)
    → Ends o
    → Holds P o
    → ((x : A) → P x → Ends (f x))
    → Ends (o >>= f)
Ends-bind P (ok x) f h p k = k x p
Ends-bind P fault f h p k = h

match_irp-Ends : (e : ℕ) (o : Option ℕ) (s : State) → null_irp o ≡ 0 → Ends (match_irp e o s)
match_irp-Ends e none s h = omega (arith, h)
match_irp-Ends e (some i) s h = tt

claim_forced-Ends : (o : Option ℕ) (s : State) → null_irp o ≡ 0 → Ends (claim_forced o s)
claim_forced-Ends none s h = omega (arith, h)
claim_forced-Ends (some i) s h = tt

claim_timed_out-Ends : (e : ℕ) (s : State) → no_irp (s.entries e) ≡ 0 → Ends (claim_timed_out e s)
unfolding claim_timed_out
claim_timed_out-Ends e s h = elim (Bool-cases (s.entries e).forced_canceled) [
  | inl p ↦ simp p (claim_forced-Ends (s.entries e).irp s h)
  | inr p ↦ simp p tt
]

timeout_loop-Ends :
    (ticks : ℕ) (es : List ℕ) (s : State)
    → canceled_in s.entries es ≡ 0
    → Ends (timeout_loop ticks es s)
unfolding timeout_loop
timeout_loop-Ends ticks [] s h = tt
timeout_loop-Ends ticks (e ∷ es) s h = elim (Bool-cases (is_waiting ticks (s.entries e))) [
  | inl p ↦ simp p (
      Ends-map (keep_waiting e) (timeout_loop ticks es s)
        (timeout_loop-Ends ticks es s (omega (arith, h))))
  | inr p ↦ simp p (
      Ends-bind (λ r. Taken (s.entries e) s r.0 r.1) (claim_timed_out e s)
        (λ r.
          map_outcome (add_complete r.0 e)
            (timeout_loop ticks es (unlink_if r.0 (s.entries e).irp r.1)))
        (claim_timed_out-Ends e s (omega (arith, h))) (claim_timed_out-Taken e s)
        (λ r k.
          let t = unlink_if r.0 (s.entries e).irp r.1 in
          Ends-map (add_complete r.0 e) (timeout_loop ticks es t) (
            timeout_loop-Ends ticks es t
              (rw (unlink_if-Taken r.0 (s.entries e).irp k).shrinks.entries (omega (arith, h))))))
]

search_loop-Ends :
    (b : Batch) (es : List ℕ) (c : Search) (s : State)
    → canceled_in s.entries es ≡ 0
    → Ends (search_loop b es c s)
unfolding search_loop
search_loop-Ends b [] c s h = tt
search_loop-Ends b (e ∷ es) c s h =
    let reply = b.reply_at c.offset in
    let d : Search = record c { last_serial_number = reply.serial_number } in
    let next = after_match b reply (advance b (s.entries e).major_function reply d) in
    elim (Bool-cases (ltb reply.serial_number c.last_serial_number)) [
      | inl p ↦ simp p tt
      | inr p ↦ elim (Bool-cases (not ((s.entries e).serial_number == reply.serial_number))) [
        | inl q ↦
            simp (p, q)
              (Ends-map (keep_entry e) (search_loop b es d s)
                (search_loop-Ends b es d s (omega (arith, h))))
        | inr q ↦
            simp (p, q)
              (Ends-bind (λ r. Taken (s.entries e) s r.0 r.1) (match_irp e (s.entries e).irp s)
                (λ r.
                  map_outcome (add_found r.0 e) (go_on next es r.1 (λ c'. search_loop b es c' r.1)))
                (match_irp-Ends e (s.entries e).irp s (omega (arith, h)))
                (match_irp-Taken e (s.entries e).irp s refl)
                (λ r k.
                  Ends-map (add_found r.0 e) (go_on next es r.1 (λ c'. search_loop b es c' r.1)) (
                    go_on-Ends next es r.1 (λ c'. search_loop b es c' r.1)
                      (λ c'.
                        search_loop-Ends b es c' r.1 (rw k.shrinks.entries (omega (arith, h)))))))
      ]
    ]
  where
    go_on-Ends :
        (n : Next) (es : List ℕ) (s : State) (k : Search → Outcome Found)
        → ((c : Search) → Ends (k c))
        → Ends (go_on n es s k)
    go_on-Ends (stop c) es s k h = tt
    go_on-Ends (continue c) es s k h = h c

pub release_timeout_pending_irp-Ends :
    (ticks : ℕ) (keepalive : Bool) (s : State)
    → Valid s
    → Ends (release_timeout_pending_irp ticks keepalive s)
unfolding release_timeout_pending_irp
release_timeout_pending_irp-Ends ticks keepalive s v =
    Ends-map (end_timeout keepalive) (timeout_loop ticks s.pending s)
      (timeout_loop-Ends ticks s.pending s v.not_canceled)

pub complete_irp-Ends : (b : Batch) (s : State) → Valid s → Ends (complete_irp b s)
unfolding complete_irp
complete_irp-Ends b s v = elim (Bool-cases s.unmount_pending) [
  | inl p ↦ simp p tt
  | inr p ↦ elim (Bool-cases (ltb b.buffer_length b.info_size)) [
    | inl q ↦ simp (p, q) tt
    | inr q ↦
        simp (p, q)
          (Ends-map (complete_found b) (search_loop b s.pending first_search s)
            (search_loop-Ends b s.pending first_search s v.not_canceled))
  ]
]
