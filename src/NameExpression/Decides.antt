-- ===== src/NameExpression/Decides.antt =====
-- dokan-sys/src/dokany/dokan/directory.c: DokanIsNameInExpression and the documented meaning of the
-- wildcards.
use crv_virtual_disk.Prelude.{
  ℕ, zero, suc, ◌<◌, ◌≡◌, ◌↔◌, refl, sym, ap, ◌∙◌, Bool, true, false, List, [], ◌∷◌, ◌++◌, arith,
  length, replicate, leb, inl, inr,
}
use crv_virtual_disk.Memory.{ok}
use crv_virtual_disk.NameExpression.{
  asterisk, question, scan, same_char, is_name_in_expression, star_step, has_dot, last_dot,
  dos_star, dos_star_step, dos_star_loop,
}
use crv_virtual_disk.NameExpression.Matches.{
  Matches, IsPlain, EndsOpen, here, start, one, letter, leave, take,
}
use crv_virtual_disk.NameExpression.Complete.{scan-Finds}
use crv_virtual_disk.NameExpression.Sound.{scan-Sound}
use crv_virtual_disk.NameExpression.Total.{
  HasNoQuestion, HasNoQuestion-closed, Returned-ok, ok-injective, scan-Returned,
}

module _ (towupper : ℕ → ℕ) (ignore_case : Bool) where
  same_char-null :
      towupper 0 ≡ 0
      → ((c : ℕ) → 0 < c → 0 < towupper c)
      → (c : ℕ) → 0 < c
      → same_char towupper ignore_case c 0 ≡ false
  unfolding same_char
  same_char-null null kept c p = ground (arith, null, kept c p)

  -- For expressions of letters (any characters but null and the DOS wildcards), `*` and `?` that do
  -- not end in `?*`, and a towupper that maps null, and only null, to null: DokanIsNameInExpression
  -- answers TRUE without a read behind the name's null on the names that the expression matches and
  -- on no other; a read behind the null, as `?` can cause, counts as no answer.
  pub is_name_in_expression_iff :
      (expression name : List ℕ)
      → towupper 0 ≡ 0
      → ((c : ℕ) → 0 < c → 0 < towupper c)
      → IsPlain expression
      → ¬ EndsOpen expression
      → (is_name_in_expression towupper ignore_case expression name ≡ ok true)
        ↔ Matches (same_char towupper ignore_case) expression name
  unfolding is_name_in_expression
  is_name_in_expression_iff expression name null kept p closed = (
    λ e.
        elim (scan-Sound towupper ignore_case (same_char-null null kept) expression p name 0 name
          start e) [ inl o ↦ absurd (closed o) | inr m ↦ m ],
    λ m. (scan-Finds towupper ignore_case expression p name 0 name name start here m).1 refl,
  )

  -- For expressions of letters (any characters but null and the DOS wildcards) and `*`, and a
  -- towupper that maps null, and only null, to null: DokanIsNameInExpression reads nothing behind the
  -- name's null, and answers TRUE on the names that the expression matches and FALSE on all others.
  pub is_name_in_expression_decides :
      (expression name : List ℕ)
      → towupper 0 ≡ 0
      → ((c : ℕ) → 0 < c → 0 < towupper c)
      → IsPlain expression
      → HasNoQuestion expression
      → (b : Bool) × (is_name_in_expression towupper ignore_case expression name ≡ ok b)
        × ((b ≡ true) ↔ Matches (same_char towupper ignore_case) expression name)
  unfolding is_name_in_expression
  is_name_in_expression_decides expression name null kept p n =
      let (b, e) = Returned-ok (
        scan-Returned towupper ignore_case (same_char-null null kept) expression p n name 0
          (omega arith)) in
      let (sound, complete) =
        is_name_in_expression_iff expression name null kept p (HasNoQuestion-closed expression n) in
      (b, e, (λ t. sound (e ∙ ap ok t), λ m. ok-injective (sym e ∙ complete m)))

  scan-questions :
      (k : ℕ) (name : List ℕ) (ni : ℕ)
      → scan towupper ignore_case (replicate k question ++ asterisk ∷ []) name ni ≡ ok true
  unfolding scan star_step
  scan-questions zero name ni = refl
  scan-questions (suc k) name ni = scan-questions k name (suc ni)

  questions-length :
      (k : ℕ) (name : List ℕ)
      → length name < k
      → ¬ Matches (same_char towupper ignore_case) (replicate k question ++ asterisk ∷ []) name
  questions-length zero name h m = elim h [ ]
  questions-length (suc k) [] h (leave q m) = cc
  questions-length (suc k) (d ∷ name) h (one q m) = questions-length k name (omega arith) m
  questions-length (suc k) (d ∷ name) h (letter n q s m) = cc
  questions-length (suc k) (d ∷ name) h (leave q m) = cc
  questions-length (suc k) (d ∷ name) h (take q m) = cc

  -- An expression of k question marks and an asterisk is answered with true for a name of fewer than
  -- k characters, which it does not match.
  pub question_marks_overrun :
      (k : ℕ) (name : List ℕ)
      → length name < k
      → (is_name_in_expression towupper ignore_case (replicate k question ++ asterisk ∷ []) name
          ≡ ok true)
        × ¬ Matches (same_char towupper ignore_case) (replicate k question ++ asterisk ∷ []) name
  unfolding is_name_in_expression
  question_marks_overrun k name h = (scan-questions k name 0, questions-length k name h)

  last_dot-none : (rest : List ℕ) (p : ℕ) → has_dot rest ≡ false → last_dot rest p 0 ≡ 0
  unfolding has_dot last_dot
  last_dot-none [] p h = refl
  last_dot-none (c ∷ rest) p h = ground (arith, last_dot-none rest (suc p))

  -- The documented meaning of DOS_STAR lets it take the whole of a name that has no dot. The
  -- function answers false on every such name that is not empty, for the expression of a DOS_STAR
  -- alone.
  pub dos_star_without_dot :
      (c : ℕ) (name : List ℕ)
      → has_dot (c ∷ name) ≡ false
      → is_name_in_expression towupper ignore_case (dos_star ∷ []) (c ∷ name) ≡ ok false
  unfolding is_name_in_expression dos_star_step dos_star_loop
  dos_star_without_dot c name h =
      let inside : leb 0 (suc (length name)) ≡ true = ground arith in
      rw (last_dot-none (c ∷ name) 0 h, inside) (ground arith)
