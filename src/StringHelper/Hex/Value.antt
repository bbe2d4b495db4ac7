-- ===== src/StringHelper/Hex/Value.antt =====
-- What `getHEX` of src/StringHelper.cpp reads: the positional value of the digits.
use schema_code_gen.Base.{
  ℕ, ◌+◌, ◌*◌, ◌%◌, ◌^◌, ◌<◌, ◌≤◌, ◌≡◌, ◌⊎◌, inl, inr, refl, ap, ◌∙◌, Option, none, some, [], ◌∷◌,
  ◌++◌, arith, Bytes, All,
}
use schema_code_gen.Base.Bits.{bit_or-nibble}
use schema_code_gen.StringHelper.Chars.{to_lower}
use schema_code_gen.StringHelper.Hex.{digit_value, shift_in, hex_loop, get_hex_text}

-- The byte `c` is the digit of the value `v`: `0` to `9`, `a` to `f` or `A` to `F`.
abbrev pub Spells : ℕ → ℕ → Type 0
Spells c v =
    ((c ≡ b'0' + v) × (v < 10))
    ⊎ ((c + 10 ≡ b'a' + v) × (10 ≤ v) × (v < 16))
    ⊎ ((c + 10 ≡ b'A' + v) × (10 ≤ v) × (v < 16))

-- A hexadecimal digit, in either case.
abbrev pub IsHexDigit : ℕ → Type 0
IsHexDigit c = (v : ℕ) × Spells c v

-- The number that digits spell behind `n`, with no bound.
abbrev pub spelled : ℕ → (s : Bytes) → All IsHexDigit s → ℕ
spelled n [] _ = n
spelled n (c ∷ s) (d, ds) = spelled (n * 16 + d.0) s ds

-- No digit follows.
abbrev pub Stops : Bytes → Type 0
Stops [] = Unit
Stops (c ∷ s) = (v : ℕ) → ¬ Spells c v

pub digit_value-Spells : (c v : ℕ) → Spells c v → digit_value (to_lower c) ≡ some v
unfolding digit_value to_lower
digit_value-Spells c v (inl (e, h)) = ground arith
digit_value-Spells c v (inr (inl (e, low, high))) = ground arith
digit_value-Spells c v (inr (inr (e, low, high))) = ground arith

Spells-digit_value : (c v : ℕ) → digit_value (to_lower c) ≡ some v → Spells c v
unfolding digit_value to_lower
Spells-digit_value c v e = ground arith

no_value : (o : Option ℕ) → ((v : ℕ) → ¬ (o ≡ some v)) → o ≡ none
no_value none h = refl
no_value (some v) h = absurd (h v refl)

Stops-digit_value : (c : ℕ) → ((v : ℕ) → ¬ Spells c v) → digit_value (to_lower c) ≡ none
Stops-digit_value c h = no_value (digit_value (to_lower c)) (λ v e. h v (Spells-digit_value c v e))

pub digit_value-lt : (c : ℕ) (v : ℕ) → digit_value c ≡ some v → v < 16
unfolding digit_value
digit_value-lt c v e = ground arith

pub shift_in-add : (r v : ℕ) → v < 16 → shift_in (r % 2 ^ 32) v ≡ (r * 16 + v) % 2 ^ 32
unfolding shift_in
shift_in-add r v h =
    let nibble = bit_or-nibble (r % 2 ^ 28) v h in
    let shifted : r % 2 ^ 32 * 16 % 2 ^ 32 ≡ r % 2 ^ 28 * 16 = omega arith in
    rw shifted (nibble ∙ omega arith)

hex_loop_step :
    (ret c v : ℕ) (s : Bytes)
    → digit_value (to_lower c) ≡ some v
    → hex_loop ret (c ∷ s) ≡ hex_loop (shift_in ret v) s
unfolding hex_loop
hex_loop_step ret c v s e = rw (e, hex_loop)

hex_loop-spelled :
    (n : ℕ) (s : Bytes) (ds : All IsHexDigit s) (rest : Bytes)
    → Stops rest
    → hex_loop (n % 2 ^ 32) (s ++ rest) ≡ (spelled n s ds % 2 ^ 32, rest)
unfolding hex_loop
hex_loop-spelled n [] ds [] stop = refl
hex_loop-spelled n [] ds (c ∷ rest) stop = rw (Stops-digit_value c stop, hex_loop)
hex_loop-spelled n (c ∷ s) (d, ds) rest stop =
    hex_loop_step (n % 2 ^ 32) c d.0 (s ++ rest) (digit_value-Spells c d.0 d.1)
    ∙ ap (λ r. hex_loop r (s ++ rest))
        (shift_in-add n d.0 (digit_value-lt (to_lower c) d.0 (digit_value-Spells c d.0 d.1)))
    ∙ hex_loop-spelled (n * 16 + d.0) s ds rest stop

-- `getHEX` reads digits of either case, `0` to `9` for 0 to 9 and `a` to `f` or `A` to `F` for 10 to 15, up to the first byte that is none, which it leaves `endptr`
-- at, and returns the number that they spell modulo 2^32: with more than eight digits, the last
-- eight count.
pub get_hex_text-spelled :
    (s : Bytes) (ds : All IsHexDigit s) (rest : Bytes)
    → Stops rest
    → get_hex_text (s ++ rest) ≡ (spelled 0 s ds % 2 ^ 32, rest)
unfolding get_hex_text
get_hex_text-spelled s ds rest stop = hex_loop-spelled 0 s ds rest stop
