-- ===== src/Base/Bits.antt =====
-- `|` on numbers, where it fills four zero bits.
use Prim.Native.Nat.{max, bit_or, digits, bit_or-bitwise}
use schema_code_gen.Base.{ℕ, zero, suc, ◌+◌, ◌*◌, ◌/◌, ◌%◌, ◌≤◌, ◌<◌, ◌≡◌, refl, ◌∙◌, arith}

abbrev or_digits : ℕ → ℕ → ℕ → ℕ
or_digits fuel a b = digits (λ y. y) max fuel a b

-- More fuel than the first number needs changes nothing.
or_digits_enough :
    (fuel more a b : ℕ) → a ≤ fuel → a ≤ more → or_digits fuel a b ≡ or_digits more a b
or_digits_enough zero zero a b h k = refl
or_digits_enough zero (suc more) zero b h k = refl
or_digits_enough zero (suc more) (suc a) b h k = absurd (omega arith)
or_digits_enough (suc fuel) zero zero b h k = refl
or_digits_enough (suc fuel) zero (suc a) b h k = absurd (omega arith)
or_digits_enough (suc fuel) (suc more) zero b h k = refl
or_digits_enough (suc fuel) (suc more) (suc a) b h k =
    omega (arith, or_digits_enough fuel more (suc a / 2) (b / 2) (omega arith) (omega arith))

zero-bit_or : (b : ℕ) → bit_or 0 b ≡ b
zero-bit_or b = bit_or-bitwise 0 b

bit_or_halves : (a b : ℕ) → bit_or a b ≡ bit_or (a / 2) (b / 2) * 2 + max (a % 2) (b % 2)
bit_or_halves zero b = omega (arith, zero-bit_or b, zero-bit_or (b / 2))
bit_or_halves (suc a) b = omega (
  arith,
  bit_or-bitwise (suc a) b,
  bit_or-bitwise (suc a / 2) (b / 2),
  or_digits_enough a (suc a / 2) (suc a / 2) (b / 2) (omega arith) (omega arith),
)

-- An even number on the left.
bit_or-double : (a b : ℕ) → bit_or (a * 2) b ≡ bit_or a (b / 2) * 2 + b % 2
bit_or-double a b =
    let half : a * 2 / 2 ≡ a = omega arith in bit_or_halves (a * 2) b ∙ rw half (omega arith)

bit_or-zero_fuel : (fuel a : ℕ) → a ≤ fuel → bit_or a 0 ≡ a
bit_or-zero_fuel fuel zero h = zero-bit_or 0
bit_or-zero_fuel zero (suc a) h = absurd (omega arith)
bit_or-zero_fuel (suc fuel) (suc a) h =
    omega (arith, bit_or_halves (suc a) 0, bit_or-zero_fuel fuel (suc a / 2) (omega arith))

-- `(a << 4) | b` for a digit `b`.
pub bit_or-nibble : (a b : ℕ) → b < 16 → bit_or (a * 16) b ≡ a * 16 + b
bit_or-nibble a b h =
    let split : a * 16 ≡ a * 2 * 2 * 2 * 2 = omega arith in
    let rest : b / 2 / 2 / 2 / 2 ≡ 0 = omega arith in
    rw (split, bit_or-double, bit_or-double, bit_or-double, bit_or-double, rest)
      (omega (arith, bit_or-zero_fuel a a (omega arith)))

-- `a << k`
abbrev shifted : ℕ → ℕ → ℕ
shifted zero a = a
shifted (suc k) a = shifted k a * 2

-- `(a << k) | b` for a `b` of `k` bits.
pub bit_or-shifted : (k a b : ℕ) → b < shifted k 1 → bit_or (shifted k a) b ≡ shifted k a + b
bit_or-shifted zero a zero h = omega (arith, bit_or-zero_fuel a a (omega arith))
bit_or-shifted zero a (suc b) h = absurd (omega arith)
bit_or-shifted (suc k) a b h =
    bit_or-double (shifted k a) b ∙ omega (arith, bit_or-shifted k a (b / 2) (omega arith))
