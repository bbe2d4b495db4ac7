-- ===== src/CString/Decimal.antt =====
-- A number that is printed in decimal is read back.
use schema_code_gen.Base.{
  ℕ, zero, suc, ◌+◌, ◌*◌, ◌/◌, ◌%◌, ◌^◌, ◌≤◌, ◌<◌, ◌≡◌, ◌≢◌, refl, sym, ap, subst, ◌∙◌, true, false,
  some, [], ◌∷◌, arith, Bytes, ◌==◌, Bool-cases, ◌⊎◌, inl, inr,
}
use schema_code_gen.Base.Int.{ℤ, pos, negsuc}
use schema_code_gen.CString.Numbers.{
  digit_in, read_digits, magnitude, signed, skip_space, to_signed, strtoll, to_unsigned, strtoull,
  print_digits, print_nat, print_int,
}
use schema_code_gen.CString.{isspace, isdigit}

digit_in-decimal : (d : ℕ) → d < 10 → digit_in 10 (b'0' + d) ≡ some d
unfolding digit_in isdigit
digit_in-decimal d h = ground arith

read_digits-cons :
    (n c d : ℕ) (s : Bytes)
    → digit_in 10 c ≡ some d
    → read_digits 10 n (c ∷ s) ≡ read_digits 10 (n * 10 + d) s
unfolding read_digits
read_digits-cons n c d s e = rw (e, read_digits) refl

read_digits-print_digits :
    (fuel n : ℕ) (out : Bytes)
    → n ≤ fuel
    → read_digits 10 0 (print_digits fuel n out) ≡ read_digits 10 n out
unfolding print_digits read_digits
read_digits-print_digits zero n out h = let none_ : n ≡ 0 = omega arith in rw none_ refl
read_digits-print_digits (suc fuel) n out h = elim (Bool-cases (n == 0)) [
  | inl e ↦ let none_ : n ≡ 0 = ground arith in rw none_ refl
  | inr e ↦
      let whole : n / 10 * 10 + n % 10 ≡ n = omega arith in
      rw e (
        read_digits-print_digits fuel (n / 10) ((b'0' + n % 10) ∷ out) (ground arith)
        ∙ read_digits-cons (n / 10) (b'0' + n % 10) (n % 10) out
            (digit_in-decimal (n % 10) (omega arith))
        ∙ ap (λ m. read_digits 10 m out) whole)
]

-- A text whose first byte is a digit other than 0.
abbrev pub StartsPositive : Bytes → Type 0
StartsPositive [] = ⊥
StartsPositive (c ∷ s) = (b'1' ≤ c) × (c ≤ b'9')

print_digits-nothing : (fuel : ℕ) (out : Bytes) → print_digits fuel 0 out ≡ out
unfolding print_digits
print_digits-nothing zero out = refl
print_digits-nothing (suc fuel) out = refl

print_digits-StartsPositive :
    (fuel n : ℕ) (out : Bytes) → n ≤ fuel → n ≢ 0 → StartsPositive (print_digits fuel n out)
unfolding print_digits
print_digits-StartsPositive zero n out h k = absurd (k (omega arith))
print_digits-StartsPositive (suc fuel) n out h k = elim (Bool-cases (n == 0)) [
  | inl e ↦ absurd (k (ground arith))
  | inr e ↦ rw e (elim (Bool-cases (n / 10 == 0)) [
    | inl z ↦
        let none_ : n / 10 ≡ 0 = ground arith in
        subst StartsPositive
          (sym (
            ap (λ m. print_digits fuel m ((b'0' + n % 10) ∷ out)) none_
            ∙ print_digits-nothing fuel ((b'0' + n % 10) ∷ out)))
          (omega arith, omega arith)
    | inr z ↦
        print_digits-StartsPositive fuel (n / 10) ((b'0' + n % 10) ∷ out) (omega arith)
          (ground arith)
  ])
]

-- The first byte of a printed number, which tells its base.
abbrev pub StartsDecimal : Bytes → Type 0
StartsDecimal s = (s ≡ b'0' ∷ []) ⊎ StartsPositive s

print_nat-StartsDecimal : (n : ℕ) → StartsDecimal (print_nat n)
unfolding print_nat
print_nat-StartsDecimal n = elim (Bool-cases (n == 0)) [
  | inl e ↦ rw e (inl refl)
  | inr e ↦ rw e (inr (print_digits-StartsPositive n n [] (omega arith) (ground arith)))
]

magnitude-positive : (s : Bytes) → StartsPositive s → magnitude s ≡ read_digits 10 0 s
unfolding magnitude
magnitude-positive [] h = absurd h
magnitude-positive (c ∷ s) h = ground arith

magnitude-zero : magnitude (b'0' ∷ []) ≡ 0
unfolding magnitude
magnitude-zero = refl

read_digits-nil : (n : ℕ) → read_digits 10 n [] ≡ n
unfolding read_digits
read_digits-nil n = refl

pub magnitude-print_nat : (n : ℕ) → magnitude (print_nat n) ≡ n
unfolding print_nat
magnitude-print_nat n = elim (Bool-cases (n == 0)) [
  | inl e ↦ let none_ : n ≡ 0 = ground arith in rw e (magnitude-zero ∙ sym none_)
  | inr e ↦ rw e (
      magnitude-positive (print_digits n n [])
        (print_digits-StartsPositive n n [] (omega arith) (ground arith))
      ∙ read_digits-print_digits n n [] (omega arith)
      ∙ read_digits-nil n)
]

signed-unsigned : (s : Bytes) → StartsDecimal s → signed (skip_space s) ≡ (false, magnitude s)
unfolding signed skip_space isspace
signed-unsigned [] h = refl
signed-unsigned (c ∷ s) h = ground arith

pub strtoull-print_nat : (n : ℕ) → n < 2 ^ 64 → strtoull (print_nat n) ≡ n
unfolding strtoull
strtoull-print_nat n h =
    ap to_unsigned (signed-unsigned (print_nat n) (print_nat-StartsDecimal n))
    ∙ ap (λ m. to_unsigned (false, m)) (magnitude-print_nat n)
    ∙ ground arith

-- The range of `long long`.
abbrev pub IsLong : ℤ → Type 0
IsLong (pos n) = n < 2 ^ 63
IsLong (negsuc n) = n < 2 ^ 63

signed-minus : (s : Bytes) → signed (skip_space (b'-' ∷ s)) ≡ (true, magnitude s)
unfolding signed skip_space isspace
signed-minus s = refl

pub strtoll-print_int : (z : ℤ) → IsLong z → strtoll (print_int z) ≡ z
unfolding strtoll print_int
strtoll-print_int (pos n) h =
    ap to_signed (signed-unsigned (print_nat n) (print_nat-StartsDecimal n))
    ∙ ap (λ m. to_signed (false, m)) (magnitude-print_nat n)
    ∙ ground arith
strtoll-print_int (negsuc n) h =
    ap to_signed (signed-minus (print_nat (n + 1)))
    ∙ ap (λ m. to_signed (true, m)) (magnitude-print_nat (n + 1))
    ∙ ground arith
