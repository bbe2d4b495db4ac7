-- ===== src/CString.antt =====
-- The functions of the C library that src/CreateDOM.cpp and src/StringHelper.cpp call on strings,
-- as functions of the bytes before the terminator.
pub mod Numbers
pub mod Decimal
use schema_code_gen.Base.{
  ℕ, ◌+◌, ◌-◌, ◌*◌, ◌≡◌, ◌≢◌, inl, inr, Bool, true, false, ◌&&◌, ◌||◌, Option, none, some, [], ◌∷◌,
  ◌++◌, map, arith, Bytes, text_eq, text_eq_iff, leb, ◌==◌, if◌then◌else◌, take, All, Bool-cases,
}
use schema_code_gen.Base.Int.{ℤ, pos, neg}

-- A buffer up to its first zero byte.
unfoldable pub c_string : Bytes → Bytes
c_string [] = []
c_string (c ∷ s) = if c == 0 then [] else c ∷ c_string s

-- `tolower` in the C locale.
unfoldable pub tolower : ℕ → ℕ
tolower c = if leb b'A' c && leb c b'Z' then c + 32 else c

-- `strcasecmp(a, b) == 0`
unfoldable pub stricmp_eq : Bytes → Bytes → Bool
unfolding tolower
stricmp_eq a b = text_eq (map tolower a) (map tolower b)

-- `strchr(s, c) != nullptr`
unfoldable pub has_char : ℕ → Bytes → Bool
has_char c [] = false
has_char c (x ∷ s) = x == c || has_char c s

-- The text before the byte that `strchr(s, c)` finds, all of `s` where it finds none.
unfoldable pub before_char : ℕ → Bytes → Bytes
before_char c [] = []
before_char c (x ∷ s) = if x == c then [] else x ∷ before_char c s

-- The text behind the byte that `strchr(s, c)` finds, empty where it finds none.
unfoldable pub after_char : ℕ → Bytes → Bytes
after_char c [] = []
after_char c (x ∷ s) = if x == c then s else after_char c s

-- `strncmp(s, p, strlen(p)) == 0` with what follows the prefix.
unfoldable pub strip_prefix : Bytes → Bytes → Option Bytes
strip_prefix [] s = some s
strip_prefix (p ∷ ps) [] = none
strip_prefix (p ∷ ps) (c ∷ s) = if p == c then strip_prefix ps s else none

-- What `snprintf` leaves in a buffer of `size` bytes, for a positive size.
unfoldable pub truncate : ℕ → Bytes → Bytes
truncate size s = take (size - 1) s

-- `isspace` in the C locale.
unfoldable pub isspace : ℕ → Bool
isspace c = c == b' ' || leb 9 c && leb c 13

unfoldable pub isdigit : ℕ → Bool
isdigit c = leb b'0' c && leb c b'9'

-- The number that the leading decimal digits spell behind `n`.
unfoldable pub leading_digits : ℕ → Bytes → ℕ
unfolding isdigit
leading_digits n [] = n
leading_digits n (c ∷ s) =
    let more = leading_digits (n * 10 + (c - b'0')) s in if isdigit c then more else n

unfoldable pub signed_digits : Bytes → ℤ
unfolding leading_digits
signed_digits [] = pos 0
signed_digits (c ∷ s) =
    if c == b'-'
    then neg (leading_digits 0 s)
    else if c == b'+'
    then pos (leading_digits 0 s)
    else pos (leading_digits 0 (c ∷ s))

-- `atoi`, for a value in the range of `int`; the value itself where C leaves the result undefined.
unfoldable pub atoi : Bytes → ℤ
unfolding signed_digits isspace
atoi [] = pos 0
atoi (c ∷ s) = let rest = atoi s in if isspace c then rest else signed_digits (c ∷ s)
