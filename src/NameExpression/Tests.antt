-- ===== src/NameExpression/Tests.antt =====
-- Runs of DokanIsNameInExpression on small names.
use crv_virtual_disk.Prelude.{
  ℕ, ◌≡◌, ◌↔◌, refl, Bool, true, false, List, [], ◌∷◌, ◌++◌, arith, replicate,
}
use crv_virtual_disk.Memory.{ok, fault}
use crv_virtual_disk.NameExpression.{
  asterisk, question, dos_star, has_dot, same_char, is_name_in_expression, scan, star_step,
}
use crv_virtual_disk.NameExpression.Matches.{
  Matches, IsPlain, EndsOpen, done, plain, last_two, later,
}
use crv_virtual_disk.NameExpression.Total.{HasNoQuestion, other, done}
use crv_virtual_disk.NameExpression.Decides.{
  is_name_in_expression_iff, is_name_in_expression_decides, question_marks_overrun,
  dos_star_without_dot,
}

-- towupper, on the letters of ASCII.
abbrev same_case : ℕ → ℕ
same_case c = c

-- "a*b"
abbrev expression : List ℕ
expression = 97 ∷ 42 ∷ 98 ∷ []

expression-IsPlain : IsPlain expression
expression-IsPlain =
    plain (omega arith) refl refl refl
      (plain (omega arith) refl refl refl (plain (omega arith) refl refl refl done))

expression-HasNoQuestion : HasNoQuestion expression
expression-HasNoQuestion = other refl (other refl (other refl done))

expression-closed : ¬ EndsOpen expression
expression-closed (later (last_two q d)) = cc
expression-closed (later (later (later e))) = elim e [ ]

is_name_in_expression_iff_example :
    (is_name_in_expression same_case true expression (97 ∷ 120 ∷ 98 ∷ []) ≡ ok true)
    ↔ Matches (same_char same_case true) expression (97 ∷ 120 ∷ 98 ∷ [])
is_name_in_expression_iff_example =
    is_name_in_expression_iff same_case true expression (97 ∷ 120 ∷ 98 ∷ []) refl (λ c p. p)
      expression-IsPlain expression-closed

is_name_in_expression_decides_example :
    (b : Bool) × (is_name_in_expression same_case true expression (97 ∷ 120 ∷ []) ≡ ok b)
    × ((b ≡ true) ↔ Matches (same_char same_case true) expression (97 ∷ 120 ∷ []))
is_name_in_expression_decides_example =
    is_name_in_expression_decides same_case true expression (97 ∷ 120 ∷ []) refl (λ c p. p)
      expression-IsPlain expression-HasNoQuestion

-- The model faults where the function reads behind the name's null.
overrun_test :
    is_name_in_expression same_case true (question ∷ question ∷ asterisk ∷ 98 ∷ []) (97 ∷ [])
    ≡ fault
unfolding is_name_in_expression scan star_step
overrun_test = refl

question_marks_overrun_example :
    (is_name_in_expression same_case true (replicate 2 question ++ asterisk ∷ []) (97 ∷ [])
      ≡ ok true)
    × ¬ Matches (same_char same_case true) (replicate 2 question ++ asterisk ∷ []) (97 ∷ [])
question_marks_overrun_example = question_marks_overrun same_case true 2 (97 ∷ []) (omega arith)

dos_star_without_dot_example :
    is_name_in_expression same_case true (dos_star ∷ []) (97 ∷ 98 ∷ []) ≡ ok false
unfolding has_dot
dos_star_without_dot_example = dos_star_without_dot same_case true 97 (98 ∷ []) refl
