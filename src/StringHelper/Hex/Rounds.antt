-- ===== src/StringHelper/Hex/Rounds.antt =====
-- `getHEX1`, `getHEX2` and `getHEX4` of src/StringHelper.cpp, which read a fixed number of digits.
use Prim.Native.Nat.{bit_or}
use schema_code_gen.Base.Bits.{bit_or-nibble, bit_or-shifted}
use schema_code_gen.Base.{
  ℕ, ◌+◌, ◌*◌, ◌%◌, ◌^◌, ◌<◌, ◌≡◌, refl, sym, ap, ◌∙◌, [], ◌∷◌, ◌++◌, arith, Bytes, All, length,
  length-append, append_assoc, append-nil,
}
use schema_code_gen.Outcome.{ok, ◌>>=◌}
use schema_code_gen.StringHelper.Chars.{to_lower}
use schema_code_gen.StringHelper.Hex.Value.{
  IsHexDigit, spelled, digit_value-Spells, digit_value-lt, shift_in-add, get_hex_text-spelled,
}
use schema_code_gen.StringHelper.Hex.{
  get_hex, byte_at, shift_in, get_hex1, get_hex2, hex_rounds, get_hex4, get_hex_text,
}

byte_at-append : (pre s : Bytes) (c : ℕ) → byte_at (pre ++ c ∷ s) (length pre) ≡ ok c
unfolding byte_at
byte_at-append [] s c = refl
byte_at-append (p ∷ pre) s c = byte_at-append pre s c

get_hex-IsHexDigit : (c : ℕ) (d : IsHexDigit c) → get_hex c ≡ d.0
unfolding get_hex
get_hex-IsHexDigit c (v, h) = rw (digit_value-Spells c v h, get_hex) refl

-- The rounds over the digits `s`, behind the bytes `pre`.
hex_rounds-spelled :
    (n : ℕ) (pre s : Bytes) (ds : All IsHexDigit s) (rest : Bytes)
    → hex_rounds (length s) (length pre) (n % 2 ^ 32) (pre ++ (s ++ rest))
      ≡ ok (spelled n s ds % 2 ^ 32)
unfolding hex_rounds
hex_rounds-spelled n pre [] ds rest = refl
hex_rounds-spelled n pre (c ∷ s) (d, ds) rest =
    let foo = pre ++ c ∷ (s ++ rest) in
    let more = hex_rounds (length s) (length pre + 1) in
    let longer : length (pre ++ c ∷ []) ≡ length pre + 1 = length-append pre (c ∷ []) in
    let ih = hex_rounds-spelled (n * 16 + d.0) (pre ++ c ∷ []) s ds rest in
    let moved = rw (append_assoc, longer) at ih in
    ap (λ b. b >>= λ c. more (shift_in (n % 2 ^ 32) (get_hex c)) foo)
      (byte_at-append pre (s ++ rest) c)
    ∙ ap (λ v. more (shift_in (n % 2 ^ 32) v) foo) (get_hex-IsHexDigit c d)
    ∙ ap (λ r. more r foo)
        (shift_in-add n d.0 (digit_value-lt (to_lower c) d.0 (digit_value-Spells c d.0 d.1)))
    ∙ moved

get_hex4-get_hex_text :
    (s : Bytes)
    → All IsHexDigit s
    → length s ≡ 8
    → (rest : Bytes) → get_hex4 (s ++ rest) ≡ ok (get_hex_text s).0
unfolding get_hex4
get_hex4-get_hex_text s ds e rest =
    let whole = get_hex_text-spelled s ds [] tt in
    ap (λ n. hex_rounds n 0 0 (s ++ rest)) (sym e)
    ∙ hex_rounds-spelled 0 [] s ds rest
    ∙ ap (λ r. ok r.0) (sym whole)
    ∙ ap (λ t. ok (get_hex_text t).0) (append-nil s)

get_hex_text_all :
    (s : Bytes) (ds : All IsHexDigit s) → (get_hex_text s).0 ≡ spelled 0 s ds % 2 ^ 32
get_hex_text_all s ds =
    ap (λ t. (get_hex_text t).0) (sym (append-nil s))
    ∙ ap (λ r. r.0) (get_hex_text-spelled s ds [] tt)

get_hex-lt : (c : ℕ) → IsHexDigit c → get_hex c < 16
get_hex-lt c (v, h) =
    rw (get_hex-IsHexDigit c (v, h)) (digit_value-lt (to_lower c) v (digit_value-Spells c v h))

two_nibbles : (a b : ℕ) → a < 16 → b < 16 → bit_or (a * 2 ^ 4) b % 2 ^ 8 ≡ a * 16 + b
two_nibbles a b ha hb = omega (arith, bit_or-nibble a b hb)

four_nibbles :
    (a b c d : ℕ)
    → a < 16
    → b < 16
    → c < 16
    → d < 16
    → bit_or (bit_or (bit_or (a * 2 ^ 12) (b * 2 ^ 8)) (c * 2 ^ 4)) d % 2 ^ 16
      ≡ ((a * 16 + b) * 16 + c) * 16 + d
four_nibbles a b c d ha hb hc hd =
    let high : bit_or (a * 2 ^ 12) (b * 2 ^ 8) ≡ (a * 16 + b) * 2 ^ 8 =
      ap (λ x. bit_or x (b * 2 ^ 8)) (omega arith)
      ∙ bit_or-shifted 12 a (b * 2 ^ 8) (omega arith)
      ∙ omega arith in
    let middle : bit_or ((a * 16 + b) * 2 ^ 8) (c * 2 ^ 4) ≡ ((a * 16 + b) * 16 + c) * 16 =
      ap (λ x. bit_or x (c * 2 ^ 4)) (omega arith)
      ∙ bit_or-shifted 8 (a * 16 + b) (c * 2 ^ 4) (omega arith)
      ∙ omega arith in
    let low = bit_or-nibble ((a * 16 + b) * 16 + c) d hd in rw (high, middle, low) (omega arith)

get_hex1-get_hex_text :
    (a b : ℕ) (rest : Bytes)
    → IsHexDigit a
    → IsHexDigit b
    → get_hex1 (a ∷ b ∷ rest) ≡ ok (get_hex_text (a ∷ b ∷ [])).0
unfolding get_hex1
get_hex1-get_hex_text a b rest da db = ap ok (
    two_nibbles (get_hex a) (get_hex b) (get_hex-lt a da) (get_hex-lt b db)
    ∙ omega (
      arith,
      get_hex-IsHexDigit a da,
      get_hex-IsHexDigit b db,
      get_hex-lt a da,
      get_hex-lt b db,
      get_hex_text_all (a ∷ b ∷ []) (da, (db, tt)),
    ))

get_hex2-get_hex_text :
    (a b c d : ℕ) (rest : Bytes)
    → IsHexDigit a
    → IsHexDigit b
    → IsHexDigit c
    → IsHexDigit d
    → get_hex2 (a ∷ b ∷ c ∷ d ∷ rest) ≡ ok (get_hex_text (a ∷ b ∷ c ∷ d ∷ [])).0
unfolding get_hex2
get_hex2-get_hex_text a b c d rest da db dc dd = ap ok (
    four_nibbles (get_hex a) (get_hex b) (get_hex c) (get_hex d) (get_hex-lt a da) (get_hex-lt b db)
      (get_hex-lt c dc) (get_hex-lt d dd)
    ∙ omega (
      arith,
      get_hex-IsHexDigit a da,
      get_hex-IsHexDigit b db,
      get_hex-IsHexDigit c dc,
      get_hex-IsHexDigit d dd,
      get_hex-lt a da,
      get_hex-lt b db,
      get_hex-lt c dc,
      get_hex-lt d dd,
      get_hex_text_all (a ∷ b ∷ c ∷ d ∷ []) (da, (db, (dc, (dd, tt)))),
    ))

-- On eight hexadecimal digits, whatever follows them, the three readers of a fixed width agree with
-- `getHEX`, the reader of any width: `getHEX1` with what it reads from the first two alone, `getHEX2`
-- with the first four alone and `getHEX4` with all eight.
pub hex_readers-get_hex_text :
    (a b c d e f g h : ℕ) (rest : Bytes)
    → All IsHexDigit (a ∷ b ∷ c ∷ d ∷ e ∷ f ∷ g ∷ h ∷ [])
    → (get_hex1 (a ∷ b ∷ c ∷ d ∷ e ∷ f ∷ g ∷ h ∷ rest) ≡ ok (get_hex_text (a ∷ b ∷ [])).0)
      × (get_hex2 (a ∷ b ∷ c ∷ d ∷ e ∷ f ∷ g ∷ h ∷ rest) ≡ ok (get_hex_text (a ∷ b ∷ c ∷ d ∷ [])).0)
      × (get_hex4 (a ∷ b ∷ c ∷ d ∷ e ∷ f ∷ g ∷ h ∷ rest)
          ≡ ok (get_hex_text (a ∷ b ∷ c ∷ d ∷ e ∷ f ∷ g ∷ h ∷ [])).0)
hex_readers-get_hex_text a b c d e f g h rest (da, (db, (dc, (dd, ds)))) = (
  get_hex1-get_hex_text a b (c ∷ d ∷ e ∷ f ∷ g ∷ h ∷ rest) da db,
  get_hex2-get_hex_text a b c d (e ∷ f ∷ g ∷ h ∷ rest) da db dc dd,
  get_hex4-get_hex_text (a ∷ b ∷ c ∷ d ∷ e ∷ f ∷ g ∷ h ∷ []) (da, (db, (dc, (dd, ds)))) refl rest,
)
