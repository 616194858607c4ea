-- ===== src/Fcb/InUse.antt =====
-- dokan-sys/src/dokany/sys/util/fcb.c: the FCBs that a pass collects.
use crv_virtual_disk.Prelude.{
  sum_in, same, ℕ, ◌+◌, ◌≤◌, ◌≡◌, ap, subst, inl, inr, Bool, List, [], ◌∷◌, ◌++◌, arith, ◌==◌,
  Bool-cases,
}
use crv_virtual_disk.Memory.{Outcome, ok}
use crv_virtual_disk.Fcb.State.{Fcb, TableOps, Volume}
use crv_virtual_disk.Fcb.Garbage.{delete_fcb_garbage_and_get_remaining_count}
use crv_virtual_disk.Fcb.Free.{release_last}
use crv_virtual_disk.Fcb.Passes.{Misses, IsDistinct, select, due, aged}
use crv_virtual_disk.Fcb.Sweeps.{pass-Swept}
use crv_virtual_disk.Fcb.Unused.{Unused, Sound}
use crv_virtual_disk.Fcb.Collections.{pass-Shrunk}
use crv_virtual_disk.Fcb.Lookups.{
  SoundResult, count_down-Sound, release_last-Sound, rename_fcb-Sound, force-Shrunk,
}
use crv_virtual_disk.Fcb.Openings.{get_fcb-Sound}
use crv_virtual_disk.Fcb.Steps.{
  Step, get, count, release, pass, forced, rename, Reachable, here, next,
}

abbrev pub AllUnused : (ℕ → Fcb) → List ℕ → Type 0
AllUnused f [] = Unit
AllUnused f (p ∷ ps) = Unused (f p) × AllUnused f ps

absent-Misses : (p : ℕ) (ps : List ℕ) → sum_in (same p) ps ≡ 0 → Misses p ps
absent-Misses p [] h = tt
absent-Misses p (q ∷ ps) h = elim (Bool-cases (p == q)) [
  | inl e ↦ absurd (one_not_zero (simp e at h))
  | inr e ↦ (e, absent-Misses p ps (omega (arith, simp e at h)))
]
  where
    one_not_zero : 1 + sum_in (same p) ps ≡ 0 → ⊥
    one_not_zero z = omega (arith, z)

IsDistinct-SoundOf : (ps : List ℕ) → ((p : ℕ) → sum_in (same p) ps ≤ 1) → IsDistinct ps
IsDistinct-SoundOf [] h = tt
IsDistinct-SoundOf (p ∷ ps) h = (
  absent-Misses p ps (omega (arith, h p, same_one p)),
  IsDistinct-SoundOf ps (λ q. omega (arith, h q)),
)
  where
    same_one : (q : ℕ) → same q q ≡ 1
    same_one q = ground arith

select-AllUnused :
    (f : ℕ → Fcb) (t : ℕ → Bool) (ps : List ℕ)
    → ((p : ℕ) → 1 ≤ sum_in (same p) ps → Unused (f p))
    → AllUnused f (select t ps)
select-AllUnused f t [] h = tt
select-AllUnused f t (p ∷ ps) h =
    let rest = select-AllUnused f t ps (λ q l. h q (omega (arith, l))) in
    elim (Bool-cases (t p)) [
      | inl e ↦ simp e (h p (omega (arith, same_one p)), rest)
      | inr e ↦ simp e rest
    ]
  where
    same_one : (q : ℕ) → same q q ≡ 1
    same_one q = ground arith

module _ {T : Type 0} (ops : TableOps T) where
  result-Sound : (o : Outcome (Volume T)) {w : Volume T} → o ≡ ok w → SoundResult ops o → Sound w
  result-Sound o e h = subst (λ x. SoundResult ops x) e h

  Step-Sound : {v w : Volume T} → Step ops v w → Sound v → Sound w
  Step-Sound (get supply name v y z) h = get_fcb-Sound ops supply name v h y z
  Step-Sound (count is_vcb p v o) h = count_down-Sound ops is_vcb p v o h
  Step-Sound (release p v e) h =
      result-Sound (release_last ops p v) e (release_last-Sound ops p v h)
  Step-Sound (pass force v) h = (pass-Shrunk ops force v h).sound
  Step-Sound (forced v) h = (force-Shrunk ops v h).sound
  Step-Sound (rename p name v) h = rename_fcb-Sound ops p name v h

  Reachable-Sound : {v w : Volume T} → Reachable ops v w → Sound v → Sound w
  Reachable-Sound here h = h
  Reachable-Sound (next r s) h = Step-Sound s (Reachable-Sound r h)

empty-Sound : {T : Type 0} (v : Volume T) → v.garbage ≡ [] → Sound v
empty-Sound v e = record {
  unused = λ p l. absurd (none_listed p l);
  distinct = λ p. rw e (omega arith);
  off = λ c. e;
}
  where
    none_listed : (p : ℕ) → 1 ≤ sum_in (same p) v.garbage → ⊥
    none_listed p l = omega (arith, l, ap (λ g. sum_in (same p) g) e)

-- From a volume with an empty garbage list, whatever sequence of lookups, which get memory
-- outside of the garbage list, of halves of DokanFreeFCB, the first by who has opened the FCB, of
-- passes and of renames follows: a pass frees only FCBs that are not freed yet, that nobody has
-- open, and that no rename has replaced.
pub collects_unused :
    {T : Type 0} (ops : TableOps T) (v w : Volume T)
    → v.garbage ≡ []
    → Reachable ops v w
    → (force : Bool)
    → ((delete_fcb_garbage_and_get_remaining_count ops force w).1.freed
        ≡ w.freed ++ aged force w w.garbage)
      × AllUnused w.fcbs (aged force w w.garbage)
collects_unused ops v w e r force =
    let h = Reachable-Sound ops r (empty-Sound v e) in
    (
      (pass-Swept ops force w (IsDistinct-SoundOf w.garbage h.distinct)).freed,
      select-AllUnused w.fcbs (λ p. due force (w.fcbs p)) w.garbage h.unused,
    )
