-- ===== src/NameExpression/Matches.antt =====
-- What an expression of letters, `*` and `?` stands for, and positions in a name.
use crv_virtual_disk.Prelude.{
  ℕ, zero, suc, ◌+◌, ◌≡◌, ◌<◌, refl, Bool, true, false, List, [], ◌∷◌, ◌==◌, arith, length, drop,
  leb,
}
use crv_virtual_disk.Memory.{ok, fault}
use crv_virtual_disk.NameExpression.{asterisk, question, dos_star, dos_qm, dos_dot, char_at}

-- `same` compares a letter of the expression with one of the name.
pub data Matches (same : ℕ → ℕ → Bool) : List ℕ → List ℕ → Type 0 where
  empty : Matches same [] []
  one :
      {c d : ℕ} {es s : List ℕ}
      → (c == question) ≡ true
      → Matches same es s
      → Matches same (c ∷ es) (d ∷ s)
  letter :
      {c d : ℕ} {es s : List ℕ}
      → (c == asterisk) ≡ false
      → (c == question) ≡ false
      → same c d ≡ true
      → Matches same es s
      → Matches same (c ∷ es) (d ∷ s)
  leave :
      {c : ℕ} {es s : List ℕ} → (c == asterisk) ≡ true → Matches same es s → Matches same (c ∷ es) s
  take :
      {c d : ℕ} {es s : List ℕ}
      → (c == asterisk) ≡ true
      → Matches same (c ∷ es) s
      → Matches same (c ∷ es) (d ∷ s)

-- No character of the expression is null or one of the three DOS wildcards.
pub data IsPlain : List ℕ → Type 0 where
  done : IsPlain []
  plain :
      {c : ℕ} {es : List ℕ}
      → 0 < c
      → (c == dos_star) ≡ false
      → (c == dos_qm) ≡ false
      → (c == dos_dot) ≡ false
      → IsPlain es
      → IsPlain (c ∷ es)

-- The expression's last two characters are a question mark and an asterisk.
pub data EndsOpen : List ℕ → Type 0 where
  last_two : {c d : ℕ} → (c == question) ≡ true → (d == asterisk) ≡ true → EndsOpen (c ∷ d ∷ [])
  later : {c : ℕ} {es : List ℕ} → EndsOpen es → EndsOpen (c ∷ es)

pub data Suffix (s : List ℕ) : List ℕ → Type 0 where
  here : Suffix s s
  there : {c : ℕ} {t : List ℕ} → Suffix s t → Suffix s (c ∷ t)

-- `rest` is the name from index `ni` on.
pub data At : List ℕ → ℕ → List ℕ → Type 0 where
  start : {rest : List ℕ} → At rest zero rest
  skip : {c ni : ℕ} {name rest : List ℕ} → At name ni rest → At (c ∷ name) (suc ni) rest

pub At-next : {d ni : ℕ} {name rest : List ℕ} → At name ni (d ∷ rest) → At name (suc ni) rest
At-next start = skip start
At-next (skip a) = skip (At-next a)

pub At-length : {ni : ℕ} {name rest : List ℕ} → At name ni rest → ni + length rest ≡ length name
At-length start = omega arith
At-length (skip a) = omega (arith, At-length a)

pub At-drop : {ni : ℕ} {name rest : List ℕ} → At name ni rest → drop ni name ≡ rest
At-drop start = refl
At-drop (skip a) = At-drop a

pub char_at-end :
    {ni : ℕ} {name rest : List ℕ} → At name ni rest → rest ≡ [] → char_at name ni ≡ ok 0
unfolding char_at
char_at-end {rest = []} start e = refl
char_at-end {rest = c ∷ r} start e = cc
char_at-end (skip a) e = char_at-end a e

pub char_at-cons :
    {d ni : ℕ} {name r rest : List ℕ} → At name ni rest → rest ≡ d ∷ r → char_at name ni ≡ ok d
unfolding char_at
char_at-cons {rest = []} start e = cc
char_at-cons {rest = c ∷ s} start e = cc
char_at-cons (skip a) e = char_at-cons a e

pub char_at-past : (name : List ℕ) (i : ℕ) → leb i (length name) ≡ false → char_at name i ≡ fault
unfolding char_at
char_at-past [] zero h = ground (arith, h)
char_at-past [] (suc i) h = refl
char_at-past (c ∷ cs) zero h = ground (arith, h)
char_at-past (c ∷ cs) (suc i) h = char_at-past cs i (ground (arith, h))

pub Suffix-tail : {c : ℕ} {s : List ℕ} {d : ℕ} {t : List ℕ} → Suffix (c ∷ s) (d ∷ t) → Suffix s t
Suffix-tail here = here
Suffix-tail {t = []} (there u) = elim u [ ]
Suffix-tail {t = e ∷ t} (there u) = there (Suffix-tail u)

pub Suffix-trans : {s t u : List ℕ} → Suffix s t → Suffix t u → Suffix s u
Suffix-trans a here = a
Suffix-trans a (there b) = there (Suffix-trans a b)

module _ {same : ℕ → ℕ → Bool} {c : ℕ} {es : List ℕ} (h : (c == asterisk) ≡ true) where
  pub Matches-all : (es ≡ []) → (s : List ℕ) → Matches same (c ∷ es) s
  Matches-all e [] = leave h (rw e empty)
  Matches-all e (d ∷ s) = take h (Matches-all e s)

  pub Matches-suffix : {s t : List ℕ} → Suffix s t → Matches same es s → Matches same (c ∷ es) t
  Matches-suffix here m = leave h m
  Matches-suffix (there u) m = take h (Matches-suffix u m)

  -- An asterisk matches by leaving some suffix to the rest of the expression.
  pub star_suffix :
      {t : List ℕ} → Matches same (c ∷ es) t → (s : List ℕ) × Suffix s t × Matches same es s
  star_suffix {t} (leave _ m) = (t, here, m)
  star_suffix (take _ m) = let (s, u, n) = star_suffix m in (s, there u, n)
  star_suffix (one q m) = absurd (ground (arith, h, q))
  star_suffix (letter n _ _ _) = absurd (ground (arith, h, n))
