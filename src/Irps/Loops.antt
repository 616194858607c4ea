-- ===== src/Irps/Loops.antt =====
-- dokan-sys/src/dokany/sys/notification.c: what the loops that claim and complete entries of the pending
-- list leave of the IRPs.
use crv_virtual_disk.Prelude.{
  sum_in, same, update, update_cases, ℕ, ◌+◌, ◌≤◌, ◌≡◌, refl, sym, ap, ◌∙◌, inl, inr, Bool, true,
  false, List, [], ◌∷◌, Option, none, some, arith, ◌==◌, ==_iff, Bool-cases,
}
use crv_virtual_disk.Irps.State.{State, Routine, Completion, set_routine}
use crv_virtual_disk.Irps.Release.{claim, claim_irp, take_or_leave, keep_if, move_loop}
use crv_virtual_disk.Irps.Weight.{token, is_irp, when, irps_in, weight}

-- No IRP gets a cancel routine, and no entry changes.
pub record Shrinks (s t : State) : Type 0 where
  pub entries : t.entries ≡ s.entries
  pub canceling : (i : ℕ) → t.canceling i ≡ s.canceling i
  pub routines : (i : ℕ) → token (t.cancel_routine i) ≤ token (s.cancel_routine i)
  pub links : (i e : ℕ) → t.linked i ≡ some e → s.linked i ≡ some e

pub Shrinks-refl : (s : State) → Shrinks s s
Shrinks-refl s = record {
  entries = refl;
  canceling = λ i. refl;
  routines = λ i. omega arith;
  links = λ i e h. h;
}

pub Shrinks-memory :
    (s : State) (f g : ℕ → Bool) (cs : ℕ → List Completion) (is : List ℕ)
    → Shrinks s
        (record s { freed = f; cancel_routine_free_memory = g; completions = cs; cleanups = is })
Shrinks-memory s f g cs is = record {
  entries = refl;
  canceling = λ i. refl;
  routines = λ i. omega arith;
  links = λ i e h. h;
}

pub Shrinks-trans : {s t u : State} → Shrinks s t → Shrinks t u → Shrinks s u
Shrinks-trans h k = record {
  entries = k.entries ∙ h.entries;
  canceling = λ i. k.canceling i ∙ h.canceling i;
  routines = λ i. omega (arith, h.routines i, k.routines i);
  links = λ i e l. h.links i e (k.links i e l);
}

pub set_routine-none-token :
    (j i : ℕ) (s : State) → token (update s.cancel_routine j none i) ≤ token (s.cancel_routine i)
set_routine-none-token j i s =
    update_cases (λ o. token o ≤ token (s.cancel_routine i)) s.cancel_routine j none i
      (λ p. omega arith) (λ p. omega arith)

pub set_routine-none-Shrinks : (j : ℕ) (s : State) → Shrinks s (set_routine j none s)
set_routine-none-Shrinks j s = record {
  entries = refl;
  canceling = λ i. refl;
  routines = λ i. set_routine-none-token j i s;
  links = λ i e h. h;
}

pub set_routine-none-weight :
    (j i : ℕ) (s : State) {r : Routine}
    → s.cancel_routine j ≡ some r
    → weight i (set_routine j none s) + same j i ≤ weight i s
set_routine-none-weight j i s h = elim (Bool-cases (j == i)) [
  | inl p ↦ simp (p, ap s.cancel_routine (sym ((==_iff j i).0 p)) ∙ h) (omega arith)
  | inr p ↦ simp p (omega arith)
]

-- An entry and what the claim of it gave: a taken IRP is paid for with its cancel routine.
pub record Claimed (irp : Option ℕ) (s : State) (taken : Bool) (t : State) : Type 0 where
  pub shrinks : Shrinks s t
  pub weights : (i : ℕ) → weight i t + when taken (is_irp i irp) ≤ weight i s

pub take_or_leave-Claimed :
    (e j : ℕ) (o : Option Routine) (s : State)
    → s.cancel_routine j ≡ o
    → Claimed (some j) s (take_or_leave e j o s).0 (take_or_leave e j o s).1
take_or_leave-Claimed e j none s h = record {
  shrinks =
      Shrinks-memory s s.freed (update s.cancel_routine_free_memory e true) s.completions
        s.cleanups;
  weights = λ i. omega arith;
}
take_or_leave-Claimed e j (some r) s h = record {
  shrinks = set_routine-none-Shrinks j s;
  weights = λ i. set_routine-none-weight j i s h;
}

claim_irp-Claimed :
    (e : ℕ) (o : Option ℕ) (s : State) → Claimed o s (claim_irp e o s).0 (claim_irp e o s).1
claim_irp-Claimed e none s = record {
  shrinks =
      Shrinks-memory s (update s.freed e true) s.cancel_routine_free_memory s.completions
        s.cleanups;
  weights = λ i. omega arith;
}
claim_irp-Claimed e (some j) s = take_or_leave-Claimed e j (s.cancel_routine j) s refl

pub claim-Claimed : (e : ℕ) (s : State) → Claimed (s.entries e).irp s (claim e s).0 (claim e s).1
unfolding claim
claim-Claimed e s = claim_irp-Claimed e (s.entries e).irp s

pub sum_in-keep_if :
    (f : ℕ → ℕ) (taken : Bool) (e : ℕ) (es : List ℕ)
    → sum_in f (keep_if taken e es) ≡ when taken (f e) + sum_in f es
sum_in-keep_if f true e es = refl
sum_in-keep_if f false e es = omega arith

-- The entries `dest` were claimed on the way from `s` to `t`.
pub record AllClaimed (dest : List ℕ) (s t : State) : Type 0 where
  pub shrinks : Shrinks s t
  pub weights : (i : ℕ) → weight i t + irps_in i s.entries dest ≤ weight i s

pub AllClaimed-refl : (s : State) → AllClaimed [] s s
AllClaimed-refl s = record { shrinks = Shrinks-refl s; weights = λ i. omega arith }

pub AllClaimed-step :
    (e : ℕ) {dest : List ℕ} {s t u : State} (taken : Bool)
    → Claimed (s.entries e).irp s taken t
    → AllClaimed dest t u
    → AllClaimed (keep_if taken e dest) s u
AllClaimed-step e {dest} {s} {t} {u} taken h k = record {
  shrinks = Shrinks-trans h.shrinks k.shrinks;
  weights = λ i.
      omega
        (arith, h.weights i, rest i, sum_in-keep_if (λ x. is_irp i (s.entries x).irp) taken e dest);
}
  where
    rest : (i : ℕ) → weight i u + irps_in i s.entries dest ≤ weight i t
    rest i = rw (sym h.shrinks.entries) (k.weights i)

pub move_loop-AllClaimed :
    (es : List ℕ) (s : State) → AllClaimed (move_loop es s).0 s (move_loop es s).1
unfolding move_loop
move_loop-AllClaimed [] s = AllClaimed-refl s
move_loop-AllClaimed (e ∷ es) s =
    AllClaimed-step e (claim e s).0 (claim-Claimed e s) (move_loop-AllClaimed es (claim e s).1)
