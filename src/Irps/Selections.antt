-- ===== src/Irps/Selections.antt =====
-- dokan-sys/src/dokany/sys/timeout.c and event.c: what the loops that go over the pending list leave of
-- its entries and IRPs.
use crv_virtual_disk.Prelude.{
  sum_in, update, update_cases, ℕ, ◌+◌, ◌≤◌, ◌≡◌, refl, sym, inl, inr, Bool, true, false, List, [],
  ◌∷◌, Option, none, some, arith, Bool-cases,
}
use crv_virtual_disk.Memory.{Outcome, ok, fault, ◌>>=◌, map_outcome}
use crv_virtual_disk.Irps.State.{State, Entry}
use crv_virtual_disk.Irps.Release.{keep_if}
use crv_virtual_disk.Irps.Timeout.{
  Sorted, unlink_if, claim_forced, claim_timed_out, is_waiting, keep_waiting, add_complete,
  timeout_loop,
}
use crv_virtual_disk.Irps.Weight.{is_irp, when, forced, irps_in, forced_in, weight}
use crv_virtual_disk.Irps.Loops.{
  Shrinks, Shrinks-refl, Shrinks-trans, Claimed, claim-Claimed, sum_in-keep_if,
  set_routine-none-Shrinks, set_routine-none-token,
}

-- A property of the result, if there is one.
abbrev pub Holds {ℓ} : {A : Type ℓ} → (A → Type 0) → Outcome A → Type 0
Holds P (ok x) = P x
Holds P fault = Unit

pub Holds-map {ℓ κ} :
    {A : Type ℓ} {B : Type κ} (P : A → Type 0) (Q : B → Type 0) (f : A → B) (o : Outcome A)
    → ((x : A) → P x → Q (f x))
    → Holds P o
    → Holds Q (map_outcome f o)
Holds-map P Q f (ok x) k h = k x h
Holds-map P Q f fault k h = tt

pub Holds-bind {ℓ κ} :
    {A : Type ℓ} {B : Type κ} (P : A → Type 0) (Q : B → Type 0) (f : A → Outcome B) (o : Outcome A)
    → ((x : A) → P x → Holds Q (f x))
    → Holds P o
    → Holds Q (o >>= f)
Holds-bind P Q f (ok x) k h = k x h
Holds-bind P Q f fault k h = tt

-- The entries `es` were sorted into those that are kept and those that are to be completed.
pub record Selected (es : List ℕ) (s : State) (kept complete : List ℕ) (t : State) : Type 0 where
  pub shrinks : Shrinks s t
  pub counts : (f : ℕ → ℕ) → sum_in f kept ≤ sum_in f es
  pub weights :
      (i : ℕ)
      → weight i t + irps_in i s.entries complete + forced_in i s.entries kept
        ≤ weight i s + forced_in i s.entries es

pub Selected-nothing : (es : List ℕ) (s : State) → Selected es s es [] s
Selected-nothing es s = record {
  shrinks = Shrinks-refl s;
  counts = λ f. omega arith;
  weights = λ i. omega arith;
}

pub Selected-keep :
    (e : ℕ) {es kept complete : List ℕ} {s t : State}
    → Selected es s kept complete t
    → Selected (e ∷ es) s (e ∷ kept) complete t
Selected-keep e h = record {
  shrinks = h.shrinks;
  counts = λ f. omega (arith, h.counts f);
  weights = λ i. omega (arith, h.weights i);
}

-- A taken IRP is paid for with its cancel routine, or with its forced entry.
pub record Taken (entry : Entry) (s : State) (taken : Bool) (t : State) : Type 0 where
  pub shrinks : Shrinks s t
  pub weights : (i : ℕ) → weight i t + when taken (is_irp i entry.irp) ≤ weight i s + forced i entry

pub Selected-take :
    (e : ℕ) {es kept complete : List ℕ} {s t u : State} (taken : Bool)
    → Taken (s.entries e) s taken t
    → Selected es t kept complete u
    → Selected (e ∷ es) s kept (keep_if taken e complete) u
Selected-take e {es} {kept} {complete} {s} {t} {u} taken h k = record {
  shrinks = Shrinks-trans h.shrinks k.shrinks;
  counts = λ f. omega (arith, k.counts f);
  weights = λ i. omega (
    arith,
    h.weights i,
    rest i,
    sum_in-keep_if (λ x. is_irp i (s.entries x).irp) taken e complete,
  );
}
  where
    rest :
        (i : ℕ)
        → weight i u + irps_in i s.entries complete + forced_in i s.entries kept
          ≤ weight i t + forced_in i s.entries es
    rest i = rw (sym h.shrinks.entries) (k.weights i)

pub Claimed-Taken :
    {entry : Entry} {s t : State} {taken : Bool}
    → Claimed entry.irp s taken t
    → Taken entry s taken t
Claimed-Taken h = record { shrinks = h.shrinks; weights = λ i. omega (arith, h.weights i) }

unlink_some-Shrinks : (j : ℕ) (s : State) → Shrinks s (record s { linked = update s.linked j none })
unlink_some-Shrinks j s = record {
  entries = refl;
  canceling = λ i. refl;
  routines = λ i. omega arith;
  links = λ i e.
      update_cases (λ o. o ≡ some e → s.linked i ≡ some e) s.linked j none i (λ p. cc) (λ p h. h);
}

pub unlink_if-Taken :
    {entry : Entry} {s t : State} (taken : Bool) (o : Option ℕ)
    → Taken entry s taken t
    → Taken entry s taken (unlink_if taken o t)
unlink_if-Taken false o h = h
unlink_if-Taken true none h = h
unlink_if-Taken {t = t} true (some j) h = record {
  shrinks = Shrinks-trans h.shrinks (unlink_some-Shrinks j t);
  weights = h.weights;
}

claim_forced-Taken :
    (entry : Entry) (o : Option ℕ) (s : State)
    → entry.irp ≡ o
    → entry.forced_canceled ≡ true
    → Holds (λ r. Taken entry s r.0 r.1) (claim_forced o s)
claim_forced-Taken entry none s p q = tt
claim_forced-Taken entry (some j) s p q = record {
  shrinks = set_routine-none-Shrinks j s;
  weights = λ i. simp q (omega (arith, set_routine-none-token j i s));
}

pub claim_timed_out-Taken :
    (e : ℕ) (s : State) → Holds (λ r. Taken (s.entries e) s r.0 r.1) (claim_timed_out e s)
unfolding claim_timed_out
claim_timed_out-Taken e s = elim (Bool-cases (s.entries e).forced_canceled) [
  | inl p ↦ simp p (claim_forced-Taken (s.entries e) (s.entries e).irp s refl p)
  | inr p ↦ simp p (Claimed-Taken (claim-Claimed e s))
]

abbrev pub TimeoutSelected : List ℕ → State → Sorted → Type 0
TimeoutSelected es s d = Selected es s d.kept d.complete d.state

pub timeout_loop-Selected :
    (ticks : ℕ) (es : List ℕ) (s : State) → Holds (TimeoutSelected es s) (timeout_loop ticks es s)
unfolding timeout_loop
timeout_loop-Selected ticks [] s = Selected-nothing [] s
timeout_loop-Selected ticks (e ∷ es) s = elim (Bool-cases (is_waiting ticks (s.entries e))) [
  | inl p ↦ simp p (
      Holds-map (TimeoutSelected es s) (TimeoutSelected (e ∷ es) s) (keep_waiting e)
        (timeout_loop ticks es s) (λ d h. Selected-keep e h) (timeout_loop-Selected ticks es s))
  | inr p ↦ simp p (
      Holds-bind (λ r. Taken (s.entries e) s r.0 r.1) (TimeoutSelected (e ∷ es) s)
        (λ r.
          map_outcome (add_complete r.0 e)
            (timeout_loop ticks es (unlink_if r.0 (s.entries e).irp r.1)))
        (claim_timed_out e s)
        (λ r h.
          Holds-map (TimeoutSelected es (unlink_if r.0 (s.entries e).irp r.1))
            (TimeoutSelected (e ∷ es) s) (add_complete r.0 e)
            (timeout_loop ticks es (unlink_if r.0 (s.entries e).irp r.1))
            (λ d k. Selected-take e r.0 (unlink_if-Taken r.0 (s.entries e).irp h) k)
            (timeout_loop-Selected ticks es (unlink_if r.0 (s.entries e).irp r.1)))
        (claim_timed_out-Taken e s))
]
