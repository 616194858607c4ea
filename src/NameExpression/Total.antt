-- ===== src/NameExpression/Total.antt =====
-- dokan-sys/src/dokany/dokan/directory.c: DokanIsNameInExpression for expressions without a question mark, which
-- stays inside of the name.
use crv_virtual_disk.Prelude.{
  ℕ, zero, suc, ◌+◌, ◌≤◌, ◌<◌, ◌≡◌, refl, ap, Bool, true, false, List, [], ◌∷◌, ◌==◌, ◌⊎◌, inl, inr,
  arith, length, drop, length-drop, le→leb, if◌then◌else◌, Bool-cases,
}
use crv_virtual_disk.Memory.{Outcome, ok, fault, ◌>>=◌}
use crv_virtual_disk.NameExpression.{
  asterisk, question, char_at, Match, star_loop, star_step, letter_step, same_char, scan,
}
use crv_virtual_disk.NameExpression.Matches.{IsPlain, plain, EndsOpen, last_two, later}
use crv_virtual_disk.NameExpression.Complete.{scan-asterisk, scan-letter}

pub data HasNoQuestion : List ℕ → Type 0 where
  done : HasNoQuestion []
  other :
      {c : ℕ} {es : List ℕ} → (c == question) ≡ false → HasNoQuestion es → HasNoQuestion (c ∷ es)

pub HasNoQuestion-closed : (es : List ℕ) → HasNoQuestion es → ¬ EndsOpen es
HasNoQuestion-closed [] h o = elim o [ ]
HasNoQuestion-closed (c ∷ d ∷ []) (other n h) (last_two q a) = absurd (ground (arith, n, q))
HasNoQuestion-closed (c ∷ es) (other n h) (later o) = HasNoQuestion-closed es h o

pub data Returned : Outcome Bool → Type 0 where
  returned : (b : Bool) → Returned (ok b)

pub Returned-ok : {o : Outcome Bool} → Returned o → (b : Bool) × (o ≡ ok b)
Returned-ok (returned b) = (b, refl)

pub ok-injective : {a b : Bool} → ok a ≡ ok b → a ≡ b
ok-injective e = cc

-- The match faults at no place of a name.
abbrev pub Steady : Match → Type 0
Steady k = (name : List ℕ) (ni : ℕ) → ni ≤ length name → Returned (k name ni)

then_next :
    (m next : Outcome Bool)
    → Returned m
    → Returned next
    → Returned (m >>= λ found. if found then ok true else next)
then_next (ok true) next h k = returned true
then_next (ok false) next h k = k
then_next fault next h k = elim h [ ]

star_loop-Returned :
    (k : Match) (name : List ℕ) (ni : ℕ) (rest : List ℕ)
    → Steady k
    → ni + length rest ≡ length name
    → Returned (star_loop k name ni rest)
unfolding star_loop
star_loop-Returned k name ni [] h e = h name ni (omega (arith, e))
star_loop-Returned k name ni (c ∷ rest) h e =
    then_next (k (c ∷ rest) 0) (star_loop k name (suc ni) rest) (h (c ∷ rest) 0 (omega arith))
      (star_loop-Returned k name (suc ni) rest h (omega (arith, e)))

star_step-Returned :
    (k : Match) (es name : List ℕ) (ni : ℕ)
    → Steady k
    → ni ≤ length name
    → Returned (star_step k es name ni)
unfolding star_step
star_step-Returned k [] name ni h l = returned true
star_step-Returned k (e ∷ es) name ni h l =
    rw (le→leb ni (length name) l)
      (star_loop-Returned k name ni (drop ni name) h (omega (arith, l, length-drop ni name)))

-- A character of the name, or its null.
char_at-inside :
    (name : List ℕ) (ni : ℕ)
    → ni ≤ length name
    → (c : ℕ) × (char_at name ni ≡ ok c) × ((suc ni ≤ length name) ⊎ (c ≡ 0))
unfolding char_at
char_at-inside [] zero l = (0, refl, inr refl)
char_at-inside [] (suc ni) l = absurd (omega (arith, l))
char_at-inside (c ∷ cs) zero l = (c, refl, inl (omega arith))
char_at-inside (c ∷ cs) (suc ni) l =
    let (d, e, o) = char_at-inside cs ni (omega (arith, l)) in
    (d, e, elim o [ inl n ↦ inl (omega (arith, n)) | inr z ↦ inr z ])

module _ (towupper : ℕ → ℕ) (ignore_case : Bool) where
  letter_step-Returned :
      (k : Match) (e : ℕ) (name : List ℕ) (ni : ℕ)
      → Steady k
      → same_char towupper ignore_case e 0 ≡ false
      → ni ≤ length name
      → Returned (letter_step towupper ignore_case k e name ni)
  unfolding letter_step
  letter_step-Returned k e name ni h null l =
      let (c, read, o) = char_at-inside name ni l in
      rw read (elim (Bool-cases (same_char towupper ignore_case e c)) [
        | inl s ↦ rw s (elim o [
          | inl n ↦ h name (suc ni) n
          | inr z ↦ let t = ap (same_char towupper ignore_case e) z in absurd (cc)
        ])
        | inr d ↦ rw d (returned false)
      ])

  pub scan-Returned :
      ((c : ℕ) → 0 < c → same_char towupper ignore_case c 0 ≡ false)
      → (es : List ℕ) → IsPlain es
      → HasNoQuestion es
      → Steady (scan towupper ignore_case es)
  unfolding scan
  scan-Returned null [] p n name ni l = returned (ni == length name)
  scan-Returned null (c ∷ es) (plain pos ds dq dd p) (other q n) name ni l =
      elim (Bool-cases (c == asterisk)) [
        | inl star ↦ rw (scan-asterisk towupper ignore_case c es name ni star) (
            star_step-Returned (scan towupper ignore_case es) es name ni (scan-Returned null es p n)
              l)
        | inr a ↦ rw (scan-letter towupper ignore_case c es name ni a ds dq dd q) (
            letter_step-Returned (scan towupper ignore_case es) c name ni
              (scan-Returned null es p n) (null c pos) l)
      ]
