-- ===== src/UnicodeString/Tests.antt =====
-- dokan-sys/src/dokany/sys/util/str.c: runs on short strings.
use crv_virtual_disk.Prelude.{◌≡◌, refl, ◌∷◌, [], true, some, arith, take}
use crv_virtual_disk.Memory.{ok, fault}
use crv_virtual_disk.UnicodeString.{
  Counted, starts_with, search_unicode_string_char, search_string_char, search_characters,
  search_wchar_in_unicode_string, search_back,
}
use crv_virtual_disk.UnicodeString.Prefixes.{is_prefix, starts_with-is_prefix}

-- "\??\" and "\??\C:", the second without a null character.
abbrev object_manager_prefix : Counted
object_manager_prefix = record {
  buffer = 92 ∷ 63 ∷ 63 ∷ 92 ∷ 0 ∷ [];
  length = 8;
  maximum_length = 10;
}

abbrev drive : Counted
drive = record { buffer = 92 ∷ 63 ∷ 63 ∷ 92 ∷ 67 ∷ 58 ∷ []; length = 12; maximum_length = 12 }

starts_with-is_prefix_example :
    starts_with (some drive) (some object_manager_prefix)
    ≡ ok (is_prefix (92 ∷ 63 ∷ 63 ∷ 92 ∷ []) (take 6 drive.buffer))
starts_with-is_prefix_example =
    starts_with-is_prefix drive object_manager_prefix (92 ∷ 63 ∷ 63 ∷ 92 ∷ []) 6
      (omega arith, (omega arith, (omega arith, (omega arith, tt)))) refl refl refl (omega arith)

search_test : search_unicode_string_char drive 67 ≡ ok (some 4)
unfolding search_unicode_string_char search_string_char search_characters
search_test = refl

search_back_test : search_wchar_in_unicode_string drive 92 5 true ≡ ok 4
unfolding search_wchar_in_unicode_string search_back
search_back_test = refl

-- An offset behind the maximum length is replaced by the length in bytes.
search_back_fault_test : search_wchar_in_unicode_string drive 92 13 true ≡ fault
unfolding search_wchar_in_unicode_string search_back
search_back_fault_test = refl
