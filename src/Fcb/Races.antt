-- ===== src/Fcb/Races.antt =====
-- dokan-sys/src/dokany/sys/util/fcb.c: two threads in DokanFreeFCB.
use crv_virtual_disk.Prelude.{
  if_true, if_false, ◌∙◌, ◌==◌, update_self, ℕ, ◌≡◌, refl, ap, false, not, inl,
}
use crv_virtual_disk.Memory.{ok, fault}
use crv_virtual_disk.Fcb.State.{fcb, freed_fcb, TableOps, Volume}
use crv_virtual_disk.Fcb.Garbage.{delete_fcb}
use crv_virtual_disk.Fcb.Free.{is_fcb, release_last, unless_scheduled}
use crv_virtual_disk.Fcb.Collections.{refused}

module _ {T : Type 0} (ops : TableOps T) where
  release_last-delete :
      (p : ℕ) (v : Volume T)
      → v.collector_thread ≡ false
      → (v.fcbs p).identifier ≡ fcb
      → (v.fcbs p).open_count ≡ 0
      → release_last ops p v ≡ ok (delete_fcb ops p (not (v.fcbs p).replaced_by_rename) v)
  unfolding release_last unless_scheduled
  release_last-delete p v c i o =
      if_false (not (is_fcb (v.fcbs p).identifier)) _ _ (ap (λ x. not (is_fcb x)) i)
      ∙ if_true ((v.fcbs p).open_count == 0) _ _ (ap (λ n. n == 0) o)
      ∙ ap (λ r. ok (unless_scheduled ops p r)) (refused ops p v (inl c))

  release_last-freed :
      (p : ℕ) (v : Volume T) → (v.fcbs p).identifier ≡ freed_fcb → release_last ops p v ≡ fault
  unfolding release_last
  release_last-freed p v i = simp i refl

  -- With garbage collection switched off, and two threads that have both counted the OpenCount of an FCB down to zero: the
  -- first one to get the volume's lock deletes the FCB, and the second one reads the freed FCB.
  pub second_release :
      (p : ℕ) (v : Volume T)
      → v.collector_thread ≡ false
      → (v.fcbs p).identifier ≡ fcb
      → (v.fcbs p).open_count ≡ 0
      → (w : Volume T) × ((release_last ops p v ≡ ok w) × (release_last ops p w ≡ fault))
  unfolding delete_fcb
  second_release p v c i o =
      let w = delete_fcb ops p (not (v.fcbs p).replaced_by_rename) v in
      (
        w,
        (
          release_last-delete p v c i o,
          release_last-freed p w (ap (λ f. f.identifier) (update_self v.fcbs p _)),
        ),
      )
