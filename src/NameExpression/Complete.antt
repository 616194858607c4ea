-- ===== src/NameExpression/Complete.antt =====
-- dokan-sys/src/dokany/dokan/directory.c: DokanIsNameInExpression on a name that an expression of
-- letters, `*` and `?` matches.
use crv_virtual_disk.Prelude.{
  ℕ, suc, ◌≡◌, ◌≢◌, refl, Bool, true, false, List, [], ◌∷◌, ◌==◌, arith, length, leb, Bool-cases,
  inl, inr, le→leb, ◌∙◌, sym, ap,
}
use crv_virtual_disk.Memory.{Outcome, ok, fault}
use crv_virtual_disk.NameExpression.{
  asterisk, question, dos_star, dos_qm, dos_dot, char_at, scan, star_loop, star_step, letter_step,
  same_char,
}
use crv_virtual_disk.NameExpression.Matches.{
  Matches, one, letter, leave, take, IsPlain, plain, Suffix, here, there, At, start, At-next,
  At-length, At-drop, char_at-cons, Suffix-tail, Suffix-trans, star_suffix,
}

module _ (towupper : ℕ → ℕ) (ignore_case : Bool) where
  -- How the scan goes on at a character that is no DOS wildcard.
  pub scan-asterisk :
      (e : ℕ) (es name : List ℕ) (ni : ℕ)
      → (e == asterisk) ≡ true
      → scan towupper ignore_case (e ∷ es) name ni
        ≡ star_step (scan towupper ignore_case es) es name ni
  unfolding scan
  scan-asterisk e es name ni h = rw h

  module _ (e : ℕ) (es name : List ℕ) (ni : ℕ) (n : (e == asterisk) ≡ false)
      (s : (e == dos_star) ≡ false) (q : (e == dos_qm) ≡ false) (d : (e == dos_dot) ≡ false) where
    pub scan-question :
        (e == question) ≡ true
        → scan towupper ignore_case (e ∷ es) name ni ≡ scan towupper ignore_case es name (suc ni)
    unfolding scan
    scan-question h = rw (n, s, q, d, h)

    pub scan-letter :
        (e == question) ≡ false
        → scan towupper ignore_case (e ∷ es) name ni
          ≡ letter_step towupper ignore_case (scan towupper ignore_case es) e name ni
    unfolding scan
    scan-letter h = rw (n, s, q, d, h)

  -- A match of some suffix is never lost to a read behind the name, and a match of the whole rest is
  -- found.
  abbrev Found : List ℕ → List ℕ → ℕ → List ℕ → List ℕ → Type 0
  Found es name ni rest s =
      (scan towupper ignore_case es name ni ≢ fault)
      × (s ≡ rest → scan towupper ignore_case es name ni ≡ ok true)

  abbrev Finds : List ℕ → Type 0
  Finds es =
      (name : List ℕ) (ni : ℕ) (rest s : List ℕ)
      → At name ni rest
      → Suffix s rest
      → Matches (same_char towupper ignore_case) es s
      → Found es name ni rest s

  star_loop-Finds :
      (es : List ℕ)
      → Finds es
      → (name : List ℕ) (ni : ℕ) (rest s : List ℕ) → At name ni rest
      → Suffix s rest
      → Matches (same_char towupper ignore_case) es s
      → star_loop (scan towupper ignore_case es) name ni rest ≡ ok true
  unfolding star_loop
  star_loop-Finds es f name ni [] s a here m = (f name ni [] [] a here m).1 refl
  star_loop-Finds es f name ni (c ∷ r) s a here m =
      rw ((f (c ∷ r) 0 (c ∷ r) (c ∷ r) start here m).1 refl)
  star_loop-Finds es f name ni (c ∷ r) s a (there u) m =
      go (scan towupper ignore_case es (c ∷ r) 0) refl
        (star_loop-Finds es f name (suc ni) r s (At-next a) u m)
    where
      go :
          (o : Outcome Bool)
          → scan towupper ignore_case es (c ∷ r) 0 ≡ o
          → star_loop (scan towupper ignore_case es) name (suc ni) r ≡ ok true
          → star_loop (scan towupper ignore_case es) name ni (c ∷ r) ≡ ok true
      go (ok true) e ih = rw e
      go (ok false) e ih = rw e ih
      go fault e ih = absurd ((f (c ∷ r) 0 (c ∷ r) s start (there u) m).0 e)

  star_step-Finds :
      (c : ℕ) (es : List ℕ)
      → Finds es
      → (c == asterisk) ≡ true
      → (name : List ℕ) (ni : ℕ) (rest s : List ℕ) → At name ni rest
      → Suffix s rest
      → Matches (same_char towupper ignore_case) (c ∷ es) s
      → star_step (scan towupper ignore_case es) es name ni ≡ ok true
  unfolding star_step
  star_step-Finds c [] f h name ni rest s a u m = refl
  star_step-Finds c (e ∷ es) f h name ni rest s a u m =
      let (s', v, n) = star_suffix h m in
      let inside : leb ni (length name) ≡ true = le→leb _ _ (omega (arith, At-length a)) in
      rw (inside, At-drop a) (star_loop-Finds (e ∷ es) f name ni rest s' a (Suffix-trans v u) n)

  true-Found :
      (es name : List ℕ) (ni : ℕ) (rest s : List ℕ)
      → scan towupper ignore_case es name ni ≡ ok true
      → Found es name ni rest s
  true-Found es name ni rest s e = (λ f. cc, λ _. e)

  nil-Found : (name : List ℕ) (ni : ℕ) (rest : List ℕ) → At name ni rest → Found [] name ni rest []
  unfolding scan
  nil-Found name ni rest a = (λ f. cc, λ e. let z = ap length e in ground (arith, z, At-length a))

  module _ (c : ℕ) (es : List ℕ) (finds : Finds es) (n : (c == asterisk) ≡ false)
      (ds : (c == dos_star) ≡ false) (dq : (c == dos_qm) ≡ false)
      (dd : (c == dos_dot) ≡ false) where
    one-Found :
        (name : List ℕ) (ni x d : ℕ) (r t : List ℕ)
        → (c == question) ≡ true
        → At name ni (x ∷ r)
        → Suffix (d ∷ t) (x ∷ r)
        → Matches (same_char towupper ignore_case) es t
        → Found (c ∷ es) name ni (x ∷ r) (d ∷ t)
    one-Found name ni x d r t h a u m =
        let e = scan-question c es name ni n ds dq dd h in
        let (sound, whole) = finds name (suc ni) r t (At-next a) (Suffix-tail u) m in
        (λ f. sound (sym e ∙ f), λ same. e ∙ whole (cc))

    letter-Found :
        (name : List ℕ) (ni x d : ℕ) (r t : List ℕ)
        → (c == question) ≡ false
        → same_char towupper ignore_case c d ≡ true
        → At name ni (x ∷ r)
        → Suffix (d ∷ t) (x ∷ r)
        → Matches (same_char towupper ignore_case) es t
        → Found (c ∷ es) name ni (x ∷ r) (d ∷ t)
    unfolding letter_step
    letter-Found name ni x d r t h eq a u m =
        let e = scan-letter c es name ni n ds dq dd h in
        let (sound, whole) = finds name (suc ni) r t (At-next a) (Suffix-tail u) m in
        let at : char_at name ni ≡ ok x = char_at-cons a refl in
        elim (Bool-cases (same_char towupper ignore_case c x)) [
          | inl y ↦
              let step : scan towupper ignore_case (c ∷ es) name ni
                  ≡ scan towupper ignore_case es name (suc ni) =
                e ∙ rw (at, letter_step, y) in
              (λ f. sound (sym step ∙ f), λ same. step ∙ whole (cc))
          | inr z ↦
              let step : scan towupper ignore_case (c ∷ es) name ni ≡ ok false =
                e ∙ rw (at, letter_step, z) in
              (
                λ f. cc,
                λ same. absurd (
                    let q : d ≡ x = cc in
                    let w : same_char towupper ignore_case c x ≡ true = rw q at eq in cc),
              )
        ]

    rest-Finds : Finds (c ∷ es)
    rest-Finds name ni [] (d ∷ t) a u m = elim u [ ]
    rest-Finds name ni (x ∷ r) (d ∷ t) a u (one h m) = one-Found name ni x d r t h a u m
    rest-Finds name ni (x ∷ r) (d ∷ t) a u (letter _ h eq m) =
        letter-Found name ni x d r t h eq a u m
    rest-Finds name ni rest t a u (leave h m) = absurd (ground (arith, n, h))
    rest-Finds name ni rest t a u (take h m) = absurd (ground (arith, n, h))

  pub scan-Finds : (es : List ℕ) → IsPlain es → Finds es
  scan-Finds [] p name ni rest [] a u m = nil-Found name ni rest a
  scan-Finds [] p name ni rest (_ ∷ _) a u m = elim m [ ]
  scan-Finds (c ∷ es) (plain _ s q d p) name ni rest t a u m = elim (Bool-cases (c == asterisk)) [
    | inl h ↦ true-Found (c ∷ es) name ni rest t (
        scan-asterisk c es name ni h
        ∙ star_step-Finds c es (scan-Finds es p) h name ni rest t a u m)
    | inr n ↦ rest-Finds c es (scan-Finds es p) n s q d name ni rest t a u m
  ]
