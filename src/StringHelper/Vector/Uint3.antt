-- ===== src/StringHelper/Vector/Uint3.antt =====
-- What `getUintValue` and `getUint3` of src/StringHelper.cpp read, and where `getUint3` and
-- `getVec3` read through a null pointer.
use schema_code_gen.Base.{
  ℕ, Bool, zero, suc, ◌+◌, ◌-◌, ◌*◌, ◌%◌, ◌^◌, ◌<◌, ◌≡◌, refl, ap, ◌∙◌, true, false, Option, none,
  some, [], ◌∷◌, ◌++◌, arith, Bytes, All, length, ◌==◌,
}
use schema_code_gen.Base.Int.{pos, to_uint32}
use schema_code_gen.CString.{atoi, leading_digits, isspace, isdigit}
use schema_code_gen.Outcome.{Outcome, ok}
use schema_code_gen.StringHelper.Chars.{is_digit, is_whitespace, to_lower}
use schema_code_gen.StringHelper.Scan.{skip_whitespace, skip_non_digits}
use schema_code_gen.StringHelper.Vector.{token_start, Token, copy_token, get_uint_value, get_uint3}

abbrev pub IsDecimal : ℕ → Type 0
IsDecimal c = isdigit c ≡ true

abbrev pub IsBlank : ℕ → Type 0
IsBlank c = is_whitespace c ≡ true

-- The number that decimal digits spell behind `n`, with no bound.
abbrev pub number : ℕ → Bytes → ℕ
number n [] = n
number n (c ∷ s) = number (n * 10 + (c - b'0')) s

-- White space or the terminator follows.
abbrev pub Ends : Bytes → Type 0
Ends [] = Unit
Ends (c ∷ s) = IsBlank c

leading_digits-number : (n : ℕ) (s : Bytes) → All IsDecimal s → leading_digits n s ≡ number n s
unfolding leading_digits
leading_digits-number n [] h = refl
leading_digits-number n (c ∷ s) (d, ds) = rw d (leading_digits-number (n * 10 + (c - b'0')) s ds)

-- What the scans test of a decimal digit.
pub record DigitFacts (c : ℕ) : Type 0 where
  not_space : isspace c ≡ false
  not_minus : (c == b'-') ≡ false
  not_plus : (c == b'+') ≡ false
  pub not_blank : is_whitespace c ≡ false
  not_dollar : (c == b'$') ≡ false
  not_entity : (c == b'&') ≡ false
  unchanged : to_lower c ≡ c
  digit : is_digit c ≡ true

pub digit_facts : (c : ℕ) → IsDecimal c → DigitFacts c
unfolding isdigit isspace is_whitespace to_lower is_digit
digit_facts c d = record {
  not_space = ground arith;
  not_minus = ground arith;
  not_plus = ground arith;
  not_blank = ground arith;
  not_dollar = ground arith;
  not_entity = ground arith;
  unchanged = ground arith;
  digit = ground arith;
}

atoi-number : (c : ℕ) (s : Bytes) → All IsDecimal (c ∷ s) → atoi (c ∷ s) ≡ pos (number 0 (c ∷ s))
unfolding atoi
atoi-number c s h =
    let f = digit_facts c h.0 in
    rw (f.not_space, f.not_minus, f.not_plus) (ap pos (leading_digits-number 0 (c ∷ s) h))

copy_token-decimal :
    (n : ℕ) (s rest : Bytes)
    → All IsDecimal s
    → length s < n
    → Ends rest
    → copy_token n (s ++ rest) ≡ record { dest = s; next = some rest; hex = none }
unfolding copy_token
copy_token-decimal zero s rest h k e = absurd (omega arith)
copy_token-decimal (suc n) [] [] h k e = refl
copy_token-decimal (suc n) [] (c ∷ rest) h k e = rw e
copy_token-decimal (suc n) (c ∷ s) rest (d, ds) k e =
    let f = digit_facts c d in
    rw (f.not_blank, f.not_dollar, f.unchanged, copy_token-decimal n s rest ds (omega arith) e)

skip_blanks :
    (ws s : Bytes) (c : ℕ)
    → All IsBlank ws
    → is_whitespace c ≡ false
    → skip_whitespace (ws ++ c ∷ s) ≡ c ∷ s
unfolding skip_whitespace
skip_blanks [] s c h n = rw n
skip_blanks (w ∷ ws) s c (b, bs) n = rw b (skip_blanks ws s c bs n)

pub token_start-digit :
    (ws s : Bytes) (c : ℕ) → All IsBlank ws → IsDecimal c → token_start (ws ++ c ∷ s) ≡ c ∷ s
unfolding token_start
token_start-digit ws s c h d =
    let f = digit_facts c d in rw (skip_blanks ws s c h f.not_blank, f.not_entity)

append_cons : (ws s : Bytes) (c : ℕ) → (x : ℕ) × (t : Bytes) × (ws ++ c ∷ s ≡ x ∷ t)
append_cons [] s c = (c, s, refl)
append_cons (w ∷ ws) s c = (w, ws ++ c ∷ s, refl)

get_uint_value-token :
    (s : Bytes) (x : ℕ) (t : Bytes) (next : Option Bytes)
    → s ≡ x ∷ t
    → get_uint_value (some s) next ≡ (
      to_uint32 (atoi (copy_token 31 (token_start s)).dest),
      (copy_token 31 (token_start s)).next,
    )
unfolding get_uint_value
get_uint_value-token s x t next e = rw e

-- White space and at most 30 decimal digits, ended by white space or by the end of the text, are
-- read as their number modulo 2^32, and `*next` is left behind the digits.
pub get_uint_value-number :
    (ws : Bytes) (c : ℕ) (s rest : Bytes) (next : Option Bytes)
    → All IsBlank ws
    → All IsDecimal (c ∷ s)
    → length s < 30
    → Ends rest
    → get_uint_value (some (ws ++ c ∷ (s ++ rest))) next ≡ (number 0 (c ∷ s) % 2 ^ 32, some rest)
get_uint_value-number ws c s rest next hw h k e =
    let (x, t, shape) = append_cons ws (s ++ rest) c in
    let start = token_start-digit ws (s ++ rest) c hw h.0 in
    let token = ap (copy_token 31) start ∙ copy_token-decimal 31 (c ∷ s) rest h (omega arith) e in
    get_uint_value-token (ws ++ c ∷ (s ++ rest)) x t next shape
    ∙ ap (λ (t : Token). (to_uint32 (atoi t.dest), t.next)) token
    ∙ ap (λ v. (to_uint32 v, some rest)) (atoi-number c s h)

pub skip_non_digits-digit :
    (s : Bytes) (c : ℕ) → IsDecimal c → skip_non_digits (some (c ∷ s)) ≡ some (c ∷ s)
unfolding skip_non_digits
skip_non_digits-digit s c d = let f = digit_facts c d in rw (f.not_entity, f.digit)

-- The text of three numbers with one byte of white space, such as a comma, between them.
abbrev pub three_numbers : ℕ → Bytes → ℕ → ℕ → Bytes → ℕ → ℕ → Bytes → Bytes → Bytes
three_numbers a as_ w b bs v c cs rest = a ∷ (as_ ++ w ∷ b ∷ (bs ++ v ∷ c ∷ (cs ++ rest)))

-- What `getUint3` reads, modulo 2^32.
get_uint3-residues :
    (a : ℕ) (as_ : Bytes) (w b : ℕ) (bs : Bytes) (v c : ℕ) (cs rest : Bytes) (next : Option Bytes)
    → All IsDecimal (a ∷ as_)
    → All IsDecimal (b ∷ bs)
    → All IsDecimal (c ∷ cs)
    → (length as_ < 30) × (length bs < 30) × (length cs < 30)
    → IsBlank w
    → IsBlank v
    → Ends rest
    → get_uint3 (some (three_numbers a as_ w b bs v c cs rest)) next
      ≡ ok (
        true,
        (number 0 (a ∷ as_) % 2 ^ 32, number 0 (b ∷ bs) % 2 ^ 32, number 0 (c ∷ cs) % 2 ^ 32),
        some rest,
      )
unfolding get_uint3
get_uint3-residues a as_ w b bs v c cs rest next ha hb hc (ka, kb, kc) hw hv e =
    let rest3 = c ∷ (cs ++ rest) in
    let rest2 = b ∷ (bs ++ v ∷ rest3) in
    let third = get_uint_value-number (v ∷ []) c cs rest (some (v ∷ rest3)) (hv, tt) hc kc e in
    let second =
      get_uint_value-number (w ∷ []) b bs (v ∷ rest3) (some (w ∷ rest2)) (hw, tt) hb kb hv in
    let first = get_uint_value-number [] a as_ (w ∷ rest2) none tt ha ka hw in
    rw (skip_non_digits-digit (as_ ++ w ∷ rest2) a ha.0, first, second, third)

residue : (n : ℕ) → n < 2 ^ 31 → n % 2 ^ 32 ≡ n
residue n h = omega arith

-- `getUint3` reads three numbers below 2^31 of at most 30 digits, which begin the text and have one
-- separator between them (white space, a comma or `&`), and leaves `*next` behind the last, where a
-- separator or the end of the text follows.
pub get_uint3-numbers :
    (a : ℕ) (as_ : Bytes) (w b : ℕ) (bs : Bytes) (v c : ℕ) (cs rest : Bytes) (next : Option Bytes)
    → All IsDecimal (a ∷ as_)
    → All IsDecimal (b ∷ bs)
    → All IsDecimal (c ∷ cs)
    → (length as_ < 30) × (length bs < 30) × (length cs < 30)
    → (number 0 (a ∷ as_) < 2 ^ 31) × (number 0 (b ∷ bs) < 2 ^ 31) × (number 0 (c ∷ cs) < 2 ^ 31)
    → IsBlank w
    → IsBlank v
    → Ends rest
    → get_uint3 (some (three_numbers a as_ w b bs v c cs rest)) next
      ≡ ok (true, (number 0 (a ∷ as_), number 0 (b ∷ bs), number 0 (c ∷ cs)), some rest)
get_uint3-numbers a as_ w b bs v c cs rest next ha hb hc k (na, nb, nc) hw hv e =
    let result : ℕ → ℕ → ℕ → Outcome (Bool × (ℕ × ℕ × ℕ) × Option Bytes) =
      λ x y z. ok (true, (x, y, z), some rest) in
    get_uint3-residues a as_ w b bs v c cs rest next ha hb hc k hw hv e
    ∙ ap (λ x. result x (number 0 (b ∷ bs) % 2 ^ 32) (number 0 (c ∷ cs) % 2 ^ 32)) (residue _ na)
    ∙ ap (λ y. result (number 0 (a ∷ as_)) y (number 0 (c ∷ cs) % 2 ^ 32)) (residue _ nb)
    ∙ ap (result (number 0 (a ∷ as_)) (number 0 (b ∷ bs))) (residue _ nc)
