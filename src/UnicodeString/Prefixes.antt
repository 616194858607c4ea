-- ===== src/UnicodeString/Prefixes.antt =====
-- dokan-sys/src/dokany/sys/util/str.c: StartsWith as the test for a prefix.
use crv_virtual_disk.Prelude.{
  ℕ, zero, suc, ◌*◌, ◌≤◌, ◌<◌, ◌≡◌, refl, sym, ap, ◌∙◌, inl, inr, Bool, true, false, List, [], ◌∷◌,
  ◌++◌, some, arith, ltb, ltb→lt, ◌==◌, ==_iff, Bool-cases, if_cases, if◌then◌else◌, length, take,
}
use crv_virtual_disk.Memory.{ok}
use crv_virtual_disk.UnicodeString.{Counted, compare_characters, starts_with}

abbrev pub is_prefix : List ℕ → List ℕ → Bool
is_prefix [] ss = true
is_prefix (p ∷ ps) [] = false
is_prefix (p ∷ ps) (s ∷ ss) = let rest = is_prefix ps ss in if p == s then rest else false

-- No character is null.
abbrev pub IsText : List ℕ → Type 0
IsText [] = Unit
IsText (p ∷ ps) = (0 < p) × IsText ps

compare-is_prefix :
    (ps ss : List ℕ)
    → IsText ps
    → length ps ≤ length ss
    → compare_characters (ps ++ 0 ∷ []) ss ≡ ok (is_prefix ps ss)
unfolding compare_characters
compare-is_prefix [] ss t l = refl
compare-is_prefix (zero ∷ ps) ss t l = absurd (positive t.0)
  where
    positive : 0 < 0 → ⊥
    positive h = omega (arith, h)
compare-is_prefix (suc p ∷ ps) [] t l = absurd (too_long l)
  where
    too_long : suc (length ps) ≤ 0 → ⊥
    too_long h = omega (arith, h)
compare-is_prefix (suc p ∷ ps) (s ∷ ss) t l = elim (Bool-cases (suc p == s)) [
  | inl e ↦ simp e (compare-is_prefix ps ss t.1 (omega (arith, l)))
  | inr e ↦ simp e refl
]

is_prefix-take :
    (n : ℕ) (ps ss : List ℕ) → length ps ≤ n → is_prefix ps (take n ss) ≡ is_prefix ps ss
is_prefix-take n [] ss l = refl
is_prefix-take zero (p ∷ ps) ss l = absurd (too_long l)
  where
    too_long : suc (length ps) ≤ 0 → ⊥
    too_long h = omega (arith, h)
is_prefix-take (suc n) (p ∷ ps) [] l = refl
is_prefix-take (suc n) (p ∷ ps) (s ∷ ss) l =
    ap (λ b. if p == s then b else false) (is_prefix-take n ps ss (omega (arith, l)))

is_prefix-short : (n : ℕ) (ps ss : List ℕ) → n < length ps → is_prefix ps (take n ss) ≡ false
is_prefix-short n [] ss l = absurd (negative l)
  where
    negative : n < 0 → ⊥
    negative h = omega (arith, h)
is_prefix-short zero (p ∷ ps) ss l = refl
is_prefix-short (suc n) (p ∷ ps) [] l = refl
is_prefix-short (suc n) (p ∷ ps) (s ∷ ss) l = elim (Bool-cases (p == s)) [
  | inl e ↦ simp e (is_prefix-short n ps ss (omega (arith, l)))
  | inr e ↦ simp e refl
]

-- For a prefix that is stored with a null character behind it and has none inside, and a string whose length is even and inside
-- of its buffer, StartsWith reads inside of both buffers only, and answers whether the characters of the
-- prefix are the first ones of the string.
pub starts_with-is_prefix :
    (str prefix : Counted) (ps : List ℕ) (n : ℕ)
    → IsText ps
    → prefix.buffer ≡ ps ++ 0 ∷ []
    → prefix.length ≡ length ps * 2
    → str.length ≡ n * 2
    → n ≤ length str.buffer
    → starts_with (some str) (some prefix) ≡ ok (is_prefix ps (take n str.buffer))
unfolding starts_with
starts_with-is_prefix str prefix ps n t b l m k =
    if_cases (λ r. r ≡ ok (is_prefix ps (take n str.buffer))) (prefix.length == 0) (ok true) _
      (λ z. ap ok (empty ps (omega (arith, l, (==_iff prefix.length 0).0 z))))
      (λ z.
        if_cases (λ r. r ≡ ok (is_prefix ps (take n str.buffer))) (ltb str.length prefix.length)
          (ok false) _
          (λ s. ap ok (
            sym (
              is_prefix-short n ps str.buffer
                (omega (arith, ltb→lt str.length prefix.length s, l, m)))))
          (λ s.
            ap (λ qs. compare_characters qs str.buffer) b
            ∙ compare-is_prefix ps str.buffer t (omega (arith, long s, l, m, k))
            ∙ ap ok (sym (is_prefix-take n ps str.buffer (omega (arith, long s, l, m))))))
  where
    empty : (qs : List ℕ) → length qs ≡ 0 → true ≡ is_prefix qs (take n str.buffer)
    empty [] h = refl
    empty (q ∷ qs) h = absurd (not_empty h)
      where
        not_empty : suc (length qs) ≡ 0 → ⊥
        not_empty e = omega (arith, e)

    long : ltb str.length prefix.length ≡ false → prefix.length ≤ str.length
    long s = ground (arith, s)
