-- ===== src/StringHelper/Chars.antt =====
-- The character classes of src/StringHelper.cpp, `getBool` and `normalizePathSlashes`.
use schema_code_gen.Base.{
  ℕ, ◌+◌, ◌-◌, Bool, true, false, ◌&&◌, ◌||◌, Option, none, some, [], ◌∷◌, Bytes, leb, ◌==◌,
  if◌then◌else◌,
}
use schema_code_gen.Base.Int.{pos}
use schema_code_gen.CString.{atoi, isdigit}

-- A sign counts as a digit.
unfoldable pub is_digit : ℕ → Bool
unfolding isdigit
is_digit c = isdigit c || c == b'-' || c == b'+'

unfoldable pub is_whitespace : ℕ → Bool
is_whitespace c = c == b' ' || c == 9 || c == 13 || c == 10 || c == b',' || c == b'&'

unfoldable pub to_lower : ℕ → ℕ
to_lower c = if leb b'A' c && leb c b'Z' then c + 32 else c

unfoldable pub upcase : ℕ → ℕ
upcase c = if leb b'a' c && leb c b'z' then c - 32 else c

-- `getBool`: a number that is not 0, or a word that begins like `true` or `yes`.
unfoldable pub get_bool : Option Bytes → Bool
unfolding is_digit
get_bool none = false
get_bool (some []) = false
get_bool (some (c ∷ s)) =
    if is_digit c
    then (elim (atoi (c ∷ s)) [ pos ℕ.zero ↦ false | _ ↦ true ])
    else c == b't' || c == b'T' || c == b'y' || c == b'Y'

-- `normalizePathSlashes`, on the buffer.
unfoldable pub normalize_path_slashes : Bytes → Bytes
normalize_path_slashes [] = []
normalize_path_slashes (c ∷ s) = (if c == b'/' then b'\\' else c) ∷ normalize_path_slashes s
