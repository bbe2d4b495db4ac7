-- ===== src/StringHelper/Vector/NullRead.antt =====
-- Where `getUint3` and `getVec3` of src/StringHelper.cpp read through a null pointer.
use schema_code_gen.Base.{
  ℕ, zero, suc, ◌≤◌, ◌≡◌, refl, ap, ◌∙◌, Option, none, some, [], ◌∷◌, ◌++◌, arith, Bytes, All,
  length,
}
use schema_code_gen.Outcome.{fault, null_read}
use schema_code_gen.StringHelper.Vector.Uint3.{
  IsDecimal, digit_facts, token_start-digit, skip_non_digits-digit,
}
use schema_code_gen.StringHelper.Vector.{
  FloatOps, token_start, copy_token, get_uint_value, get_float_value, get_uint3, get_vec3,
}

copy_token_long :
    (n : ℕ) (s rest : Bytes)
    → All IsDecimal s
    → n ≤ length s
    → (copy_token n (s ++ rest)).next ≡ none
unfolding copy_token
copy_token_long zero s rest h k = refl
copy_token_long (suc n) [] rest h k = absurd (omega arith)
copy_token_long (suc n) (c ∷ s) rest (d, ds) k =
    let f = digit_facts c d in rw f.not_blank (copy_token_long n s rest ds (omega arith))

long_next :
    (c : ℕ) (s rest : Bytes)
    → All IsDecimal (c ∷ s)
    → 30 ≤ length s
    → (copy_token 31 (token_start (c ∷ (s ++ rest)))).next ≡ none
long_next c s rest h k =
    ap (λ t. (copy_token 31 t).next) (token_start-digit [] (s ++ rest) c tt h.0)
    ∙ copy_token_long 31 (c ∷ s) rest h (omega arith)

-- A first number of 31 digits or more, at the text's begin, fills the copy buffer before its end is
-- seen: `*next` stays null, and both `getUint3` and `getVec3` read through it, whatever follows.
pub get3_null_read :
    (f : FloatOps) (c : ℕ) (s rest : Bytes) (next : Option Bytes)
    → All IsDecimal (c ∷ s)
    → 30 ≤ length s
    → (get_uint3 (some (c ∷ (s ++ rest))) next ≡ fault null_read)
      × (get_vec3 f (some (c ∷ (s ++ rest))) next ≡ fault null_read)
unfolding get_uint3 get_vec3 get_uint_value get_float_value
get3_null_read f c s rest next h k =
    let number = skip_non_digits-digit (s ++ rest) c h.0 in
    let long = long_next c s rest h k in (rw (number, long), rw (number, long))
