-- ===== src/UnicodeString.antt =====
-- dokan-sys/src/dokany/sys/util/str.c: counted strings. A read outside of a buffer is `fault`.
use crv_virtual_disk.Prelude.{
  ℕ, zero, suc, ◌+◌, ◌*◌, ◌/◌, ◌%◌, ◌^◌, Bool, true, false, ◌&&◌, ◌||◌, List, [], ◌∷◌, ◌++◌, Option,
  none, some, ltb, ◌==◌, if◌then◌else◌, get_elem?,
}
use crv_virtual_disk.Memory.{Outcome, ok, fault, ◌>>=◌, map_outcome}
pub mod Prefixes
mod Tests

-- UNICODE_STRING: the characters of its buffer, and its sizes in bytes.
pub record Counted : Type 0 where
  pub buffer : List ℕ
  pub length : ℕ
  pub maximum_length : ℕ

-- The loop of StartsWith, over a prefix that ends in a null character.
unfoldable pub compare_characters : List ℕ → List ℕ → Outcome Bool
compare_characters [] ss = fault
compare_characters (zero ∷ ps) ss = ok true
compare_characters (suc p ∷ ps) [] = fault
compare_characters (suc p ∷ ps) (s ∷ ss) =
    let rest = compare_characters ps ss in if suc p == s then rest else ok false

-- StartsWith; a null pointer is `none`.
unfoldable pub starts_with : Option Counted → Option Counted → Outcome Bool
unfolding compare_characters
starts_with str none = ok true
starts_with none (some prefix) = if prefix.length == 0 then ok true else ok false
starts_with (some str) (some prefix) =
    if prefix.length == 0
    then ok true
    else if ltb str.length prefix.length
    then ok false
    else compare_characters prefix.buffer str.buffer

-- The loop of DokanSearchStringChar, over `n` characters from the index `i` on; no index is -1.
unfoldable pub search_characters : ℕ → List ℕ → ℕ → ℕ → Outcome (Option ℕ)
search_characters zero xs char i = ok none
search_characters (suc n) [] char i = fault
search_characters (suc n) (x ∷ xs) char i =
    let rest = search_characters n xs char (i + 1) in if x == char then ok (some i) else rest

-- DokanSearchStringChar
unfoldable pub search_string_char : List ℕ → ℕ → ℕ → Outcome (Option ℕ)
unfolding search_characters
search_string_char string length char = search_characters (length / 2) string char 0

-- DokanSearchUnicodeStringChar
unfoldable pub search_unicode_string_char : Counted → ℕ → Outcome (Option ℕ)
unfolding search_string_char
search_unicode_string_char s char = search_string_char s.buffer s.length char

-- The end of the search for a character from its end: the position behind it, if it is to be ignored.
abbrev pub found_at : ℕ → Bool → ℕ
found_at i ignore = if ignore then i + 1 else i

abbrev pub check_character : Option ℕ → ℕ → Bool → ℕ → Outcome ℕ → Outcome ℕ
check_character none target ignore i rest = fault
check_character (some x) target ignore i rest = if x == target then ok (found_at i ignore) else rest

-- The loop of DokanSearchWcharinUnicodeStringWithUlong, from the offset down.
unfoldable pub search_back : List ℕ → ℕ → Bool → ℕ → Outcome ℕ
search_back xs target ignore zero = ok 0
search_back xs target ignore (suc i) =
    check_character (get_elem? xs i) target ignore i (search_back xs target ignore i)

-- DokanSearchWcharinUnicodeStringWithUlong
unfoldable pub search_wchar_in_unicode_string : Counted → ℕ → ℕ → Bool → Outcome ℕ
unfolding search_back
search_wchar_in_unicode_string s target offset ignore =
    search_back s.buffer target ignore (if ltb s.maximum_length offset then s.length else offset)
