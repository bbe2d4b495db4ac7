-- ===== src/CString/Numbers.antt =====
-- `strtoll` and `strtoull` with base 0, and the text that a stream prints for an integer, which the
-- default values of src/CreateDOM.cpp go through.
use schema_code_gen.Base.{
  ℕ, zero, suc, ◌+◌, ◌-◌, ◌*◌, ◌/◌, ◌%◌, ◌^◌, Bool, true, false, ◌&&◌, Option, none, some, [], ◌∷◌,
  Bytes, ltb, leb, ◌==◌, if◌then◌else◌,
}
use schema_code_gen.Base.Int.{ℤ, pos, negsuc, neg}
use schema_code_gen.CString.{tolower, isspace, isdigit}

-- The value of a digit or letter, where it is below the base.
abbrev below : ℕ → ℕ → Option ℕ
below base d = if ltb d base then some d else none

unfoldable pub digit_in : ℕ → ℕ → Option ℕ
unfolding isdigit tolower
digit_in base c =
    if isdigit c
    then below base (c - b'0')
    else if leb b'a' (tolower c) && leb (tolower c) b'z'
    then below base (10 + tolower c - b'a')
    else none

-- The number that the leading digits spell behind `n`.
unfoldable pub read_digits : ℕ → ℕ → Bytes → ℕ
unfolding digit_in
read_digits base n [] = n
read_digits base n (c ∷ s) = elim (digit_in base c) [
  | none ↦ n
  | some d ↦ read_digits base (n * base + d) s
]

-- Behind a zero: hexadecimal after an `x`, octal else.
abbrev prefixed : Bytes → ℕ
prefixed [] = 0
prefixed (c ∷ s) = if tolower c == b'x' then read_digits 16 0 s else read_digits 8 0 (c ∷ s)

-- A number with its base's prefix.
unfoldable pub magnitude : Bytes → ℕ
unfolding read_digits tolower
magnitude [] = 0
magnitude (c ∷ s) = if c == b'0' then prefixed s else read_digits 10 0 (c ∷ s)

-- Whether there is a minus, and the number.
unfoldable pub signed : Bytes → Bool × ℕ
unfolding magnitude
signed [] = (false, 0)
signed (c ∷ s) =
    if c == b'-'
    then (true, magnitude s)
    else if c == b'+'
    then (false, magnitude s)
    else (false, magnitude (c ∷ s))

unfoldable pub skip_space : Bytes → Bytes
unfolding isspace
skip_space [] = []
skip_space (c ∷ s) = let rest = skip_space s in if isspace c then rest else c ∷ s

-- `strtoll` stops at the ends of the range.
abbrev pub to_signed : Bool × ℕ → ℤ
to_signed (false, n) = if ltb n (2 ^ 63) then pos n else pos (2 ^ 63 - 1)
to_signed (true, n) = if leb n (2 ^ 63) then neg n else neg (2 ^ 63)

unfoldable pub strtoll : Bytes → ℤ
unfolding signed skip_space
strtoll s = to_signed (signed (skip_space s))

-- `strtoull` negates in 64 bits.
abbrev pub to_unsigned : Bool × ℕ → ℕ
to_unsigned (minus, n) =
    if ltb n (2 ^ 64) then (if minus then (2 ^ 64 - n) % 2 ^ 64 else n) else 2 ^ 64 - 1

unfoldable pub strtoull : Bytes → ℕ
unfolding signed skip_space
strtoull s = to_unsigned (signed (skip_space s))

-- The decimal digits of a number in front of a text, in at most `fuel` rounds.
unfoldable pub print_digits : ℕ → ℕ → Bytes → Bytes
print_digits zero n out = out
print_digits (suc fuel) n out =
    let more = print_digits fuel (n / 10) ((b'0' + n % 10) ∷ out) in if n == 0 then out else more

unfoldable pub print_nat : ℕ → Bytes
unfolding print_digits
print_nat n = if n == 0 then b'0' ∷ [] else print_digits n n []

unfoldable pub print_int : ℤ → Bytes
unfolding print_nat
print_int (pos n) = print_nat n
print_int (negsuc n) = b'-' ∷ print_nat (n + 1)
