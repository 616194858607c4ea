-- ===== src/NameExpression.antt =====
-- dokan-sys/src/dokany/dokan/directory.c: DokanIsNameInExpression. A string is the list of its
-- characters without the final null. `towupper` is the C library's, and `fault` is a read of the name
-- behind its final null.
pub mod Matches
pub mod Complete
pub mod Sound
pub mod Total
pub mod Decides
mod Tests
use crv_virtual_disk.Prelude.{
  ℕ, zero, suc, Bool, true, false, List, [], ◌∷◌, ltb, leb, ◌==◌, if◌then◌else◌, length, drop, not,
  ◌&&◌,
}
use crv_virtual_disk.Memory.{Outcome, ok, fault, ◌>>=◌}

abbrev pub asterisk : ℕ
asterisk = b'*'

abbrev pub question : ℕ
question = b'?'

abbrev pub dot : ℕ
dot = b'.'

abbrev pub dos_star : ℕ
dos_star = b'<'

abbrev pub dos_qm : ℕ
dos_qm = b'>'

-- The quotation mark.
abbrev pub dos_dot : ℕ
dos_dot = 0x22

-- Name[i].
unfoldable pub char_at : List ℕ → ℕ → Outcome ℕ
char_at [] zero = ok 0
char_at [] (suc i) = fault
char_at (c ∷ cs) zero = ok c
char_at (c ∷ cs) (suc i) = char_at cs i

-- The match of what is left of the expression, on a name and an index into it.
abbrev pub Match : Type 0
Match = List ℕ → ℕ → Outcome Bool

-- The loop behind an asterisk: `rest` is the name from `ni` on.
unfoldable pub star_loop : Match → List ℕ → ℕ → List ℕ → Outcome Bool
star_loop k name ni [] = k name ni
star_loop k name ni (c ∷ rest) =
    let next = star_loop k name (suc ni) rest in
    k (c ∷ rest) 0 >>= λ found. if found then ok true else next

unfoldable pub star_step : Match → List ℕ → List ℕ → ℕ → Outcome Bool
unfolding star_loop
star_step k [] name ni = ok true
star_step k (e ∷ es) name ni =
    if leb ni (length name) then star_loop k name ni (drop ni name) else fault

-- The index of the last dot, `rest` being the name from `p` on; `last` if there is none.
pub last_dot : List ℕ → ℕ → ℕ → ℕ
last_dot [] p last = last
last_dot (c ∷ rest) p last = last_dot rest (suc p) (if c == dot then p else last)

pub dos_star_loop : Match → ℕ → List ℕ → ℕ → List ℕ → Outcome Bool
dos_star_loop k last name ni [] = k name ni
dos_star_loop k last name ni (c ∷ rest) =
    let next = dos_star_loop k last name (suc ni) rest in
    if ni == last then k name ni else k (c ∷ rest) 0 >>= λ found. if found then ok true else next

pub dos_star_step : Match → List ℕ → ℕ → Outcome Bool
unfolding dos_star_loop last_dot
dos_star_step k name ni =
    if leb ni (length name)
    then dos_star_loop k (last_dot (drop ni name) ni 0) name ni (drop ni name)
    else fault

pub has_dot : List ℕ → Bool
has_dot [] = false
has_dot (c ∷ rest) = if c == dot then true else has_dot rest

pub dos_qm_step : Match → List ℕ → ℕ → Outcome Bool
unfolding char_at has_dot
dos_qm_step k name ni = char_at name ni >>= λ c.
    if not (c == dot)
    then k name (suc ni)
    else if has_dot (drop (suc ni) name)
    then k name (suc ni)
    else k name ni

pub dos_dot_step : Match → List ℕ → ℕ → Outcome Bool
unfolding char_at
dos_dot_step k name ni = char_at name ni >>= λ c. if c == dot then k name (suc ni) else k name ni

module _ (towupper : ℕ → ℕ) (ignore_case : Bool) where
  unfoldable pub same_char : ℕ → ℕ → Bool
  same_char e c = if ignore_case then towupper e == towupper c else e == c

  unfoldable pub letter_step : Match → ℕ → List ℕ → ℕ → Outcome Bool
  unfolding char_at same_char
  letter_step k e name ni =
      char_at name ni >>= λ c. if same_char e c then k name (suc ni) else ok false

  -- The outer loop, from the expression's and the name's current positions.
  unfoldable pub scan : List ℕ → List ℕ → ℕ → Outcome Bool
  unfolding star_step dos_star_step dos_qm_step dos_dot_step letter_step
  scan [] name ni = ok (ni == length name)
  scan (e ∷ es) name ni =
      if e == asterisk
      then star_step (scan es) es name ni
      else if e == dos_star
      then dos_star_step (scan es) name ni
      else if e == dos_qm
      then dos_qm_step (scan es) name ni
      else if e == dos_dot
      then dos_dot_step (scan es) name ni
      else if e == question
      then scan es name (suc ni)
      else letter_step (scan es) e name ni

  unfoldable pub is_name_in_expression : List ℕ → List ℕ → Outcome Bool
  unfolding scan
  is_name_in_expression expression name = scan expression name 0
