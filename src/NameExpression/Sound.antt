-- ===== src/NameExpression/Sound.antt =====
-- dokan-sys/src/dokany/dokan/directory.c: the names on which DokanIsNameInExpression answers true, for an
-- expression of letters, `*` and `?`.
use crv_virtual_disk.Prelude.{
  ℕ, suc, ◌<◌, ◌≡◌, ◌≢◌, refl, Bool, true, false, List, [], ◌∷◌, ◌==◌, arith, length, leb,
  Bool-cases, inl, inr, le→leb, ◌∙◌, sym, ◌⊎◌,
}
use crv_virtual_disk.Memory.{Outcome, ok, fault, ◌>>=◌}
use crv_virtual_disk.NameExpression.{
  asterisk, question, char_at, scan, star_loop, star_step, letter_step, same_char,
}
use crv_virtual_disk.NameExpression.Matches.{
  Matches, one, letter, empty, char_at-cons, char_at-end, take, IsPlain, plain, EndsOpen, last_two,
  later, here, At, start, At-next, At-length, At-drop, char_at-past, Matches-all, Matches-suffix,
}
use crv_virtual_disk.NameExpression.Complete.{scan-asterisk, scan-question, scan-letter}

module _ (towupper : ℕ → ℕ) (ignore_case : Bool) where
  -- A bind that ends in a value had a value.
  bind-ok :
      (m : Outcome ℕ) (f : ℕ → Outcome Bool) {b : Bool}
      → (m >>= f) ≡ ok b
      → (x : ℕ) × (m ≡ ok x) × (f x ≡ ok b)
  bind-ok (ok x) f e = (x, refl, e)
  bind-ok fault f e = cc

  past_leb : (name : List ℕ) (ni : ℕ) → length name < ni → leb ni (length name) ≡ false
  past_leb name ni past = ground (arith, past)

  past_star :
      (q c : ℕ) (es : List ℕ)
      → (q == question) ≡ true
      → (c == asterisk) ≡ true
      → (name : List ℕ) (ni : ℕ) → length name < ni
      → star_step (scan towupper ignore_case es) es name ni ≡ ok true
      → EndsOpen (q ∷ c ∷ es)
  unfolding star_step
  past_star q c [] h star name ni past e = last_two h star
  past_star q c (d ∷ es) h star name ni past e =
      let f : leb ni (length name) ≡ false = past_leb name ni past in let g = rw f at e in cc

  past_letter :
      (c : ℕ) (es name : List ℕ) (ni : ℕ)
      → length name < ni
      → letter_step towupper ignore_case (scan towupper ignore_case es) c name ni ≢ ok true
  unfolding letter_step
  past_letter c es name ni past e =
      let f : char_at name ni ≡ fault = char_at-past name ni (past_leb name ni past) in
      let g = rw (f, letter_step) at e in cc

  -- Behind the name's end the scan still answers true on question marks and a last asterisk.
  past_end :
      (q : ℕ) (es : List ℕ)
      → IsPlain es
      → (q == question) ≡ true
      → (name : List ℕ) (ni : ℕ) → length name < ni
      → scan towupper ignore_case es name ni ≡ ok true
      → EndsOpen (q ∷ es)
  unfolding scan
  past_end q [] p h name ni past e = absurd (ground (arith, e))
  past_end q (c ∷ es) (plain _ ds dq dd p) h name ni past e = elim (Bool-cases (c == asterisk)) [
    | inl star ↦
        past_star q c es h star name ni past
          (sym (scan-asterisk towupper ignore_case c es name ni star) ∙ e)
    | inr n ↦ elim (Bool-cases (c == question)) [
      | inl qm ↦ later (
          past_end c es p qm name (suc ni) (omega arith)
            (sym (scan-question towupper ignore_case c es name ni n ds dq dd qm) ∙ e))
      | inr l ↦ absurd (
          past_letter c es name ni past
            (sym (scan-letter towupper ignore_case c es name ni n ds dq dd l) ∙ e))
    ]
  ]

  abbrev Sound : List ℕ → Type 0
  Sound es =
      (name : List ℕ) (ni : ℕ) (rest : List ℕ)
      → At name ni rest
      → scan towupper ignore_case es name ni ≡ ok true
      → EndsOpen es ⊎ Matches (same_char towupper ignore_case) es rest

  star_loop-Sound :
      (c : ℕ) (es : List ℕ)
      → Sound es
      → (c == asterisk) ≡ true
      → (name : List ℕ) (ni : ℕ) (rest : List ℕ) → At name ni rest
      → star_loop (scan towupper ignore_case es) name ni rest ≡ ok true
      → EndsOpen (c ∷ es) ⊎ Matches (same_char towupper ignore_case) (c ∷ es) rest
  unfolding star_loop
  star_loop-Sound c es f h name ni [] a e = elim (f name ni [] a e) [
    | inl o ↦ inl (later o)
    | inr m ↦ inr (Matches-suffix h here m)
  ]
  star_loop-Sound c es f h name ni (d ∷ r) a e =
      go (scan towupper ignore_case es (d ∷ r) 0) refl
        (star_loop-Sound c es f h name (suc ni) r (At-next a))
    where
      go :
          (o : Outcome Bool)
          → scan towupper ignore_case es (d ∷ r) 0 ≡ o
          → (star_loop (scan towupper ignore_case es) name (suc ni) r ≡ ok true
              → EndsOpen (c ∷ es) ⊎ Matches (same_char towupper ignore_case) (c ∷ es) r)
          → EndsOpen (c ∷ es) ⊎ Matches (same_char towupper ignore_case) (c ∷ es) (d ∷ r)
      go (ok true) q ih = elim (f (d ∷ r) 0 (d ∷ r) start q) [
        | inl o ↦ inl (later o)
        | inr m ↦ inr (Matches-suffix h here m)
      ]
      go (ok false) q ih = elim (ih (rw q at e)) [ inl o ↦ inl o | inr m ↦ inr (take h m) ]
      go fault q ih = let g = rw q at e in absurd (cc)

  star_step-Sound :
      (c : ℕ) (es : List ℕ)
      → Sound es
      → (c == asterisk) ≡ true
      → (name : List ℕ) (ni : ℕ) (rest : List ℕ) → At name ni rest
      → star_step (scan towupper ignore_case es) es name ni ≡ ok true
      → EndsOpen (c ∷ es) ⊎ Matches (same_char towupper ignore_case) (c ∷ es) rest
  unfolding star_step
  star_step-Sound c [] f h name ni rest a e = inr (Matches-all h refl rest)
  star_step-Sound c (d ∷ es) f h name ni rest a e =
      let inside : leb ni (length name) ≡ true = le→leb _ _ (omega (arith, At-length a)) in
      star_loop-Sound c (d ∷ es) f h name ni rest a (rw (inside, At-drop a) at e)

  module _ (letters : (c : ℕ) → 0 < c → same_char towupper ignore_case c 0 ≡ false) where
    letter-Sound :
        (c : ℕ) (es : List ℕ)
        → Sound es
        → 0 < c
        → (c == asterisk) ≡ false
        → (c == question) ≡ false
        → (name : List ℕ) (ni : ℕ) (rest : List ℕ) → At name ni rest
        → letter_step towupper ignore_case (scan towupper ignore_case es) c name ni ≡ ok true
        → EndsOpen (c ∷ es) ⊎ Matches (same_char towupper ignore_case) (c ∷ es) rest
    unfolding letter_step
    letter-Sound c es f z n l name ni [] a e =
        let at : char_at name ni ≡ ok 0 = char_at-end a refl in
        let g = rw (at, letter_step, letters c z) at e in absurd (cc)
    letter-Sound c es f z n l name ni (d ∷ r) a e =
        let at : char_at name ni ≡ ok d = char_at-cons a refl in
        elim (Bool-cases (same_char towupper ignore_case c d)) [
          | inl y ↦ elim (f name (suc ni) r (At-next a) (rw (at, letter_step, y) at e)) [
            | inl o ↦ inl (later o)
            | inr m ↦ inr (letter n l y m)
          ]
          | inr w ↦ let g = rw (at, letter_step, w) at e in absurd (cc)
        ]

    question-Sound :
        (c : ℕ) (es : List ℕ)
        → IsPlain es
        → Sound es
        → (c == question) ≡ true
        → (name : List ℕ) (ni : ℕ) (rest : List ℕ) → At name ni rest
        → scan towupper ignore_case es name (suc ni) ≡ ok true
        → EndsOpen (c ∷ es) ⊎ Matches (same_char towupper ignore_case) (c ∷ es) rest
    question-Sound c es p f q name ni [] a e =
        inl (past_end c es p q name (suc ni) (omega (arith, At-length a)) e)
    question-Sound c es p f q name ni (d ∷ r) a e = elim (f name (suc ni) r (At-next a) e) [
      | inl o ↦ inl (later o)
      | inr m ↦ inr (one q m)
    ]

    nil-Sound : Sound []
    unfolding scan
    nil-Sound name ni [] a e = inr empty
    nil-Sound name ni (d ∷ r) a e = absurd (ground (arith, e, At-length a))

    pub scan-Sound : (es : List ℕ) → IsPlain es → Sound es
    scan-Sound [] p name ni rest a e = nil-Sound name ni rest a e
    scan-Sound (c ∷ es) (plain z ds dq dd p) name ni rest a e = elim (Bool-cases (c == asterisk)) [
      | inl star ↦
          star_step-Sound c es (scan-Sound es p) star name ni rest a
            (sym (scan-asterisk towupper ignore_case c es name ni star) ∙ e)
      | inr n ↦ elim (Bool-cases (c == question)) [
        | inl qm ↦
            question-Sound c es p (scan-Sound es p) qm name ni rest a
              (sym (scan-question towupper ignore_case c es name ni n ds dq dd qm) ∙ e)
        | inr l ↦
            letter-Sound c es (scan-Sound es p) z n l name ni rest a
              (sym (scan-letter towupper ignore_case c es name ni n ds dq dd l) ∙ e)
      ]
    ]
