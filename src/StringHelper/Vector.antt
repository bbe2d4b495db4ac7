-- ===== src/StringHelper/Vector.antt =====
-- The readers of numbers and vectors in src/StringHelper.cpp: `getUintValue`, `getFloatValue`,
-- `getUint1`, `getUint3`, `getVec3` and `getVec4`. The type `float` and its conversions are an
-- argument.
pub mod Uint3
pub mod NullRead
use schema_code_gen.Base.{
  ℕ, zero, suc, Bool, true, false, ◌||◌, Option, none, some, [], ◌∷◌, Bytes, codes, text_eq, ◌==◌,
  if◌then◌else◌,
}
use schema_code_gen.Base.Int.{to_uint32}
use schema_code_gen.CString.{atoi, after_char}
use schema_code_gen.Outcome.{Outcome, ok, fault, null_read}
use schema_code_gen.StringHelper.Chars.{is_digit, is_whitespace, to_lower}
use schema_code_gen.StringHelper.Hex.{get_hex_text}
use schema_code_gen.StringHelper.Scan.{skip_whitespace, skip_non_digits}

-- What the C library and the hardware give for `float`.
pub record FloatOps : Type 1 where
  pub Float : Type 0
  -- The values 0 and 1, `FLT_MAX` and `FLT_MIN`.
  pub zero_float : Float
  pub one_float : Float
  pub flt_max : Float
  pub flt_min : Float
  -- The float with the given bits, and `atof`.
  pub from_bits : ℕ → Float
  pub atof : Bytes → Float

-- "skip hex crap": an entity, if the text begins with one.
abbrev skip_entity : Bytes → Bytes
skip_entity [] = []
skip_entity (c ∷ s) = if c == b'&' then skip_whitespace (after_char b';' (c ∷ s)) else c ∷ s

-- The text that is copied into `dest`.
unfoldable pub token_start : Bytes → Bytes
unfolding skip_whitespace after_char
token_start s = skip_entity (skip_whitespace s)

-- What the copy loop leaves: `dest`, what is stored in `*next`, and the text behind the last `$`.
pub record Token : Type 0 where
  pub dest : Bytes
  pub next : Option Bytes
  pub hex : Option Bytes

abbrev pub or_else : Option Bytes → Option Bytes → Option Bytes
or_else none b = b
or_else (some a) b = some a

-- The loop, with the rounds left: at most 31 bytes, up to white space or the terminator.
unfoldable pub copy_token : ℕ → Bytes → Token
unfolding is_whitespace to_lower
copy_token zero s = record { dest = []; next = none; hex = none }
copy_token (suc n) [] = record { dest = []; next = some []; hex = none }
copy_token (suc n) (c ∷ s) =
    let rest = copy_token n s in
    if is_whitespace c then record { dest = []; next = some (c ∷ s); hex = none } else record {
      dest = to_lower c ∷ rest.dest;
      next = rest.next;
      hex = or_else rest.hex (if c == b'$' then some s else none);
    }

-- `getUintValue`; `next` is what `*next` holds before.
unfoldable pub get_uint_value : Option Bytes → Option Bytes → ℕ × Option Bytes
unfolding copy_token token_start
get_uint_value none next = (0, next)
get_uint_value (some []) next = (0, next)
get_uint_value (some (c ∷ s)) next =
    let t = copy_token 31 (token_start (c ∷ s)) in (to_uint32 (atoi t.dest), t.next)

-- A vector reader tests for a number, reads components one after another, and stops where `*next`
-- is null. `getVec3` and `getUint3` read through `mynext` without a test.
module _ {ℓ} {A : Type ℓ} (value : Option Bytes → Option Bytes → A × Option Bytes) (none_ : A) where
  -- The components behind the first.
  abbrev pub third : A → A → Option Bytes → Bool × (A × A × A) × Option Bytes
  third x y none = (false, (x, y, none_), none)
  third x y (some s) = let z = value (some s) (some s) in (true, (x, y, z.0), z.1)

  abbrev pub second : A → Option Bytes → Outcome (Bool × (A × A × A) × Option Bytes)
  second x none = fault null_read
  second x (some []) = ok (false, (x, none_, none_), some [])
  second x (some (c ∷ s)) = let y = value (some (c ∷ s)) (some (c ∷ s)) in ok (third x y.0 y.1)

  abbrev pub starting : Option Bytes → Option Bytes → Outcome (Bool × (A × A × A) × Option Bytes)
  starting next none = ok (false, (none_, none_, none_), next)
  starting next (some s) = let x = value (some s) none in second x.0 x.1

  -- The result, the components, and what `*next` holds after.
  unfoldable pub get3 : Option Bytes → Option Bytes → Outcome (Bool × (A × A × A) × Option Bytes)
  unfolding skip_non_digits
  get3 str next = starting next (skip_non_digits str)

unfoldable pub get_uint3 : Option Bytes → Option Bytes → Outcome (Bool × (ℕ × ℕ × ℕ) × Option Bytes)
unfolding get3
get_uint3 = get3 get_uint_value 0

-- `getUint1`
unfoldable pub get_uint1 : Option Bytes → Option Bytes → Bool × ℕ × Option Bytes
unfolding skip_non_digits get_uint_value
get_uint1 str next = elim (skip_non_digits str) [
  | none ↦ (false, 0, next)
  | some s ↦ (true, (get_uint_value (some s) none).0, (get_uint_value (some s) none).1)
]

module _ (f : FloatOps) where
  open f use {Float, zero_float, one_float, flt_max, flt_min, from_bits, atof}

  abbrev named_float : Bytes → Float
  named_float dest =
      if text_eq dest (codes "fltmax") || text_eq dest (codes "fmax")
      then flt_max
      else if text_eq dest (codes "fltmin") || text_eq dest (codes "fmin")
      then flt_min
      else zero_float

  abbrev float_of : Bytes → Float
  float_of [] = atof []
  float_of (c ∷ dest) =
      if c == b'f' then named_float (c ∷ dest) else if c == b't' then one_float else atof (c ∷ dest)

  abbrev token_float : Token → Float
  token_float t = elim t.hex [ some h ↦ from_bits (get_hex_text h).0 | none ↦ float_of t.dest ]

  -- `getFloatValue`
  unfoldable pub get_float_value : Option Bytes → Option Bytes → Float × Option Bytes
  unfolding copy_token token_start get_hex_text
  get_float_value none next = (zero_float, next)
  get_float_value (some []) next = (zero_float, next)
  get_float_value (some (c ∷ s)) next =
      let t = copy_token 31 (token_start (c ∷ s)) in (token_float t, t.next)

  unfoldable pub get_vec3 :
      Option Bytes → Option Bytes → Outcome (Bool × (Float × Float × Float) × Option Bytes)
  unfolding get3
  get_vec3 = get3 get_float_value zero_float

  abbrev fourth :
      Float → Float → Float → Option Bytes → Bool × (Float × Float × Float × Float) × Option Bytes
  fourth x y z none = (false, (x, y, z, zero_float), none)
  fourth x y z (some s) = let w = get_float_value (some s) (some s) in (true, (x, y, z, w.0), w.1)

  abbrev fourth_third :
      Float → Float → Option Bytes → Bool × (Float × Float × Float × Float) × Option Bytes
  fourth_third x y none = (false, (x, y, zero_float, zero_float), none)
  fourth_third x y (some s) = let z = get_float_value (some s) (some s) in fourth x y z.0 z.1

  abbrev fourth_second :
      Float → Option Bytes → Bool × (Float × Float × Float × Float) × Option Bytes
  fourth_second x none = (false, (x, zero_float, zero_float, zero_float), none)
  fourth_second x (some []) = (false, (x, zero_float, zero_float, zero_float), some [])
  fourth_second x (some (c ∷ s)) =
      let y = get_float_value (some (c ∷ s)) (some (c ∷ s)) in fourth_third x y.0 y.1

  -- `getVec4`, which tests `mynext` for null before it reads through it.
  unfoldable pub get_vec4 :
      Option Bytes → Option Bytes → Bool × (Float × Float × Float × Float) × Option Bytes
  unfolding skip_non_digits get_float_value
  get_vec4 str next = elim (skip_non_digits str) [
    | none ↦ (false, (zero_float, zero_float, zero_float, zero_float), next)
    | some s ↦ fourth_second (get_float_value (some s) none).0 (get_float_value (some s) none).1
  ]
