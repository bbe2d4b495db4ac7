-- ===== src/StringHelper/Scan.antt =====
-- The scanning of white space, digits and entities in src/StringHelper.cpp, and `getUint32Value`.
use schema_code_gen.Base.{
  ℕ, Bool, true, false, not, Option, none, some, [], ◌∷◌, Bytes, ◌==◌, if◌then◌else◌,
}
use schema_code_gen.Base.Int.{to_uint32}
use schema_code_gen.CString.{atoi}
use schema_code_gen.StringHelper.Chars.{is_digit, is_whitespace}

unfoldable pub skip_whitespace : Bytes → Bytes
skip_whitespace [] = []
skip_whitespace (c ∷ s) = if is_whitespace c then skip_whitespace s else c ∷ s

-- A pointer to the terminator becomes null.
abbrev pub null_at_end : Bytes → Option Bytes
null_at_end [] = none
null_at_end (c ∷ s) = some (c ∷ s)

unfoldable pub pass_digits : Bytes → Bytes
pass_digits [] = []
pass_digits (c ∷ s) = if is_digit c then pass_digits s else c ∷ s

unfoldable pub skip_digits : Bytes → Option Bytes
unfolding pass_digits
skip_digits s = null_at_end (pass_digits s)

unfoldable pub pass_non_digits : Bytes → Bytes
pass_non_digits [] = []
pass_non_digits (c ∷ s) = if is_digit c then c ∷ s else pass_non_digits s

-- `while (*str == '&')`: each entity up to and with its `;`. The flag says that the text is inside
-- of an entity.
unfoldable pub skip_entities : Bool → Bytes → Bytes
skip_entities _ [] = []
skip_entities true (c ∷ s) = skip_entities (not (c == b';')) s
skip_entities false (c ∷ s) = let rest = skip_entities true s in if c == b'&' then rest else c ∷ s

unfoldable pub skip_non_digits : Option Bytes → Option Bytes
unfolding skip_entities pass_non_digits
skip_non_digits none = none
skip_non_digits (some s) = null_at_end (pass_non_digits (skip_entities false s))

-- `getUint32Value`, with the pointer that it stores in `*next`.
unfoldable pub get_uint32_value : Option Bytes → ℕ × Option Bytes
unfolding skip_non_digits skip_digits
get_uint32_value str = elim (skip_non_digits str) [
  | none ↦ (0, none)
  | some s ↦ (to_uint32 (atoi s), skip_non_digits (skip_digits s))
]
