-- ===== src/StringHelper/Hex.antt =====
-- The hexadecimal readers of src/StringHelper.cpp.
pub mod Value
pub mod Rounds
use Prim.Native.Nat.{bit_or}
use schema_code_gen.Base.{
  ℕ, zero, suc, ◌+◌, ◌-◌, ◌*◌, ◌%◌, ◌^◌, Bool, true, false, ◌&&◌, Option, none, some, List, [], ◌∷◌,
  Bytes, leb, length, ltb, get_elem?, if◌then◌else◌,
}
use schema_code_gen.Outcome.{Outcome, ok, fault, past_end, ◌>>=◌}
use schema_code_gen.StringHelper.Chars.{to_lower}

-- The value of a lower case digit, `none` for any other byte.
unfoldable pub digit_value : ℕ → Option ℕ
digit_value c =
    if leb b'0' c && leb c b'9'
    then some (c - b'0')
    else if leb b'a' c && leb c b'f'
    then some (10 + c - b'a')
    else none

-- `getHex`: 0 for a byte that is no digit.
unfoldable pub get_hex : ℕ → ℕ
unfolding digit_value to_lower
get_hex c = elim (digit_value (to_lower c)) [ none ↦ 0 | some v ↦ v ]

-- `foo[i]`, with the terminator behind the last byte.
unfoldable pub byte_at : Bytes → ℕ → Outcome ℕ
byte_at [] zero = ok 0
byte_at [] (suc i) = fault past_end
byte_at (c ∷ s) zero = ok c
byte_at (c ∷ s) (suc i) = byte_at s i

-- `(ret << 4) | v` in `uint32_t`.
unfoldable pub shift_in : ℕ → ℕ → ℕ
shift_in ret v = bit_or (ret * 16 % 2 ^ 32) v

-- `getHEX1`, which moves `endptr` by 2.
unfoldable pub get_hex1 : Bytes → Outcome ℕ
unfolding byte_at get_hex
get_hex1 foo = byte_at foo 0 >>= λ a.
    byte_at foo 1 >>= λ b. ok (bit_or (get_hex a * 2 ^ 4) (get_hex b) % 2 ^ 8)

-- `getHEX2`, which moves `endptr` by 4.
unfoldable pub get_hex2 : Bytes → Outcome ℕ
unfolding byte_at get_hex
get_hex2 foo = byte_at foo 0 >>= λ a. byte_at foo 1 >>= λ b. byte_at foo 2 >>= λ c.
    byte_at foo 3 >>= λ d. ok (
      bit_or (bit_or (bit_or (get_hex a * 2 ^ 12) (get_hex b * 2 ^ 8)) (get_hex c * 2 ^ 4))
        (get_hex d)
      % 2 ^ 16)

-- The loop of `getHEX4` from index `i`, with the rounds left.
unfoldable pub hex_rounds : ℕ → ℕ → ℕ → Bytes → Outcome ℕ
unfolding shift_in byte_at get_hex
hex_rounds zero i ret foo = ok ret
hex_rounds (suc n) i ret foo =
    byte_at foo i >>= λ c. hex_rounds n (i + 1) (shift_in ret (get_hex c)) foo

-- `getHEX4`, which moves `endptr` by 8.
unfoldable pub get_hex4 : Bytes → Outcome ℕ
unfolding hex_rounds
get_hex4 foo = hex_rounds 8 0 0 foo

-- The loop of `getHEX`: the value, and the text that `endptr` is left at.
unfoldable pub hex_loop : ℕ → Bytes → ℕ × Bytes
hex_loop ret [] = (ret, [])
hex_loop ret (c ∷ foo) = elim (digit_value (to_lower c)) [
  | none ↦ (ret, c ∷ foo)
  | some v ↦ hex_loop (shift_in ret v) foo
]

unfoldable pub get_hex_text : Bytes → ℕ × Bytes
unfolding hex_loop
get_hex_text foo = hex_loop 0 foo
