-- ===== src/Values/Plain.antt =====
-- Default values without braces, for the initialisers that src/CreateDOM.cpp generates.
use schema_code_gen.Base.{
  ℕ, zero, suc, ◌+◌, ◌/◌, ◌%◌, refl, false, ◌++◌, [], ◌∷◌, Option, none, some, arith, Bytes, codes,
  All-append, ◌==◌, if◌then◌else◌, text_eq,
}
use schema_code_gen.Base.Int.{ℤ, pos, negsuc}
use schema_code_gen.CString.Numbers.{strtoll, strtoull, print_digits, print_nat, print_int}
use schema_code_gen.CString.{stricmp_eq}
use schema_code_gen.Dom.Complete.{find_object}
use schema_code_gen.Dom.{MemberVariable, Object, Dom, is_empty}
use schema_code_gen.Emit.Depth.{IsBraceless, if-IsBraceless}
use schema_code_gen.Save.Braceless.{IsBracelessMember, braceless-IsBraceless}
use schema_code_gen.Values.Kinds.{
  ValueKind, array, text, signed_integer, unsigned_integer, float_value, double_value, bool_value,
  vec3, quat, named_type, value_kind, signed_text, unsigned_text,
}
use schema_code_gen.Values.{
  FloatStream, component, cpp_value, cpp_named, get_cpp_value_initializer, r_value_named, r_value,
  get_cpp_r_value,
}

-- A stream prints no braces for a number.
pub record IsPlain (f : FloatStream) : Type 0 where
  pub float : (x : f.Float) → IsBraceless (f.print_float x)
  pub double : (x : f.Double) → IsBraceless (f.print_double x)

print_digits-IsBraceless :
    (fuel n : ℕ) (out : Bytes) → IsBraceless out → IsBraceless (print_digits fuel n out)
unfolding print_digits
print_digits-IsBraceless zero n out h = h
print_digits-IsBraceless (suc fuel) n out h =
    if-IsBraceless (n == 0) out (print_digits fuel (n / 10) ((b'0' + n % 10) ∷ out)) h (
      print_digits-IsBraceless fuel (n / 10) ((b'0' + n % 10) ∷ out)
        (((λ e. omega arith), (λ e. omega arith)), h))

print_nat-IsBraceless : (n : ℕ) → IsBraceless (print_nat n)
unfolding print_nat
print_nat-IsBraceless n =
    if-IsBraceless (n == 0) (b'0' ∷ []) (print_digits n n [])
      (braceless-IsBraceless (b'0' ∷ []) refl) (print_digits-IsBraceless n n [] tt)

print_int-IsBraceless : (z : ℤ) → IsBraceless (print_int z)
unfolding print_int
print_int-IsBraceless (pos n) = print_nat-IsBraceless n
print_int-IsBraceless (negsuc n) =
    ((braceless-IsBraceless (b'-' ∷ []) refl).0, print_nat-IsBraceless (n + 1))

signed_text-IsBraceless : (s : Bytes) → IsBraceless (signed_text s)
unfolding signed_text
signed_text-IsBraceless s =
    if-IsBraceless (is_empty s) (print_int (pos 0)) (print_int (strtoll s))
      (print_int-IsBraceless (pos 0)) (print_int-IsBraceless (strtoll s))

unsigned_text-IsBraceless : (s : Bytes) → IsBraceless (unsigned_text s)
unfolding unsigned_text
unsigned_text-IsBraceless s =
    if-IsBraceless (is_empty s) (print_nat 0) (print_nat (strtoull s)) (print_nat-IsBraceless 0)
      (print_nat-IsBraceless (strtoull s))

-- Text between two texts that are written out.
around :
    (s t u : Bytes) → IsBraceless s → IsBraceless t → IsBraceless u → IsBraceless (s ++ (t ++ u))
around s t u hs ht hu = All-append _ s (t ++ u) hs (All-append _ t u ht hu)

cpp_named-IsBraceless :
    (v : MemberVariable) (found : Option Object)
    → IsBracelessMember v
    → IsBraceless (cpp_named v found)
cpp_named-IsBraceless v none h = tt
cpp_named-IsBraceless v (some o) h =
    if-IsBraceless o.is_enum (if is_empty v.default_value then [] else v.qualified_default_value) []
      (if-IsBraceless (is_empty v.default_value) [] v.qualified_default_value tt
        h.qualified_default_value)
      tt

module _ (f : FloatStream) (plain : IsPlain f) where
  -- A number with the suffix of `float`.
  suffixed-IsBraceless : (x : f.Float) → IsBraceless (f.print_float x ++ codes "f")
  suffixed-IsBraceless x =
      All-append _ (f.print_float x) (codes "f") (plain.float x)
        (braceless-IsBraceless (codes "f") refl)

  float_value-IsBraceless :
      (v : MemberVariable) (d : Dom) → IsBraceless (cpp_value f float_value v d)
  unfolding cpp_value
  float_value-IsBraceless v d =
      let s = v.default_value in
      let number = f.print_float (f.strtof s) ++ codes "f" in
      let least = if text_eq s (codes "FLT_MIN") then codes "FLT_MIN" else number in
      if-IsBraceless (is_empty s) (f.print_float f.zero_float ++ codes "f")
        (if text_eq s (codes "FLT_MAX") then codes "FLT_MAX" else least)
        (suffixed-IsBraceless f.zero_float)
        (if-IsBraceless (text_eq s (codes "FLT_MAX")) (codes "FLT_MAX") least
          (braceless-IsBraceless (codes "FLT_MAX") refl)
          (if-IsBraceless (text_eq s (codes "FLT_MIN")) (codes "FLT_MIN") number
            (braceless-IsBraceless (codes "FLT_MIN") refl) (suffixed-IsBraceless (f.strtof s))))

  -- One more component.
  next-IsBraceless :
      (start : Bytes) (n i : ℕ) (old : f.Float) (s : Bytes)
      → IsBraceless start
      → IsBraceless (start ++ codes "f, " ++ component f n i old s)
  next-IsBraceless start n i old s h =
      All-append _ (start ++ codes "f, ") (component f n i old s)
        (All-append _ start (codes "f, ") h (braceless-IsBraceless (codes "f, ") refl))
        (plain.float _)

  vec3-IsBraceless : (v : MemberVariable) (d : Dom) → IsBraceless (cpp_value f vec3 v d)
  unfolding cpp_value
  vec3-IsBraceless v d =
      let s = v.default_value in
      let x = component f 3 0 f.zero_float s in
      let y = x ++ codes "f, " ++ component f 3 1 f.zero_float s in
      let z = y ++ codes "f, " ++ component f 3 2 f.zero_float s in
      All-append _ z (codes "f")
        (next-IsBraceless y 3 2 f.zero_float s
          (next-IsBraceless x 3 1 f.zero_float s (plain.float _)))
        (braceless-IsBraceless (codes "f") refl)

  quat-IsBraceless : (v : MemberVariable) (d : Dom) → IsBraceless (cpp_value f quat v d)
  unfolding cpp_value
  quat-IsBraceless v d =
      let s = v.default_value in
      let x = component f 4 0 f.zero_float s in
      let y = x ++ codes "f, " ++ component f 4 1 f.zero_float s in
      let z = y ++ codes "f, " ++ component f 4 2 f.zero_float s in
      let w = z ++ codes "f, " ++ component f 4 3 f.one_float s in
      All-append _ w (codes "f")
        (next-IsBraceless z 4 3 f.one_float s (
          next-IsBraceless y 4 2 f.zero_float s
            (next-IsBraceless x 4 1 f.zero_float s (plain.float _))))
        (braceless-IsBraceless (codes "f") refl)

  cpp_value-IsBraceless :
      (k : ValueKind) (v : MemberVariable) (d : Dom)
      → IsBracelessMember v
      → IsBraceless (cpp_value f k v d)
  unfolding cpp_value
  cpp_value-IsBraceless array v d h = tt
  cpp_value-IsBraceless text v d h =
      around (codes "\"") v.default_value (codes "\"") (braceless-IsBraceless (codes "\"") refl)
        h.default_value (braceless-IsBraceless (codes "\"") refl)
  cpp_value-IsBraceless signed_integer v d h = signed_text-IsBraceless v.default_value
  cpp_value-IsBraceless unsigned_integer v d h = unsigned_text-IsBraceless v.default_value
  cpp_value-IsBraceless float_value v d h = float_value-IsBraceless v d
  cpp_value-IsBraceless double_value v d h = plain.double _
  cpp_value-IsBraceless bool_value v d h =
      if-IsBraceless (stricmp_eq v.default_value (codes "true")) (codes "true") (codes "false")
        (braceless-IsBraceless (codes "true") refl) (braceless-IsBraceless (codes "false") refl)
  cpp_value-IsBraceless vec3 v d h = vec3-IsBraceless v d
  cpp_value-IsBraceless quat v d h = quat-IsBraceless v d
  cpp_value-IsBraceless named_type v d h = cpp_named-IsBraceless v (find_object d v.type) h

  pub initializer-IsBraceless :
      (v : MemberVariable) (d : Dom)
      → IsBracelessMember v
      → IsBraceless (get_cpp_value_initializer f v d)
  unfolding get_cpp_value_initializer
  initializer-IsBraceless v d h = cpp_value-IsBraceless (value_kind v) v d h

  r_value_named-IsBraceless :
      (v : MemberVariable) (d : Dom) (found : Option Object)
      → IsBracelessMember v
      → IsBraceless (r_value_named f v d found)
  r_value_named-IsBraceless v d none h = braceless-IsBraceless (codes "void") refl
  r_value_named-IsBraceless v d (some o) h =
      let start = v.type ++ codes "(" in
      let value = get_cpp_value_initializer f v d in
      if-IsBraceless o.is_enum
        (if is_empty v.default_value then v.type ++ codes "()" else v.qualified_default_value)
        (start ++ value ++ codes ")")
        (if-IsBraceless (is_empty v.default_value) (v.type ++ codes "()") v.qualified_default_value
          (All-append _ v.type (codes "()") h.type (braceless-IsBraceless (codes "()") refl))
          h.qualified_default_value)
        (All-append _ (start ++ value) (codes ")")
          (All-append _ start value
            (All-append _ v.type (codes "(") h.type (braceless-IsBraceless (codes "(") refl))
            (initializer-IsBraceless v d h))
          (braceless-IsBraceless (codes ")") refl))

  r_value-IsBraceless :
      (k : ValueKind) (v : MemberVariable) (d : Dom)
      → IsBracelessMember v
      → IsBraceless (r_value f k v d false)
  r_value-IsBraceless array v d h = braceless-IsBraceless (codes "nullptr") refl
  r_value-IsBraceless vec3 v d h = r_value_named-IsBraceless v d (find_object d v.type) h
  r_value-IsBraceless quat v d h = r_value_named-IsBraceless v d (find_object d v.type) h
  r_value-IsBraceless named_type v d h = r_value_named-IsBraceless v d (find_object d v.type) h
  r_value-IsBraceless _ v d h = initializer-IsBraceless v d h

  pub r_value_text-IsBraceless :
      (v : MemberVariable) (d : Dom)
      → IsBracelessMember v
      → IsBraceless (get_cpp_r_value f v d false)
  unfolding get_cpp_r_value
  r_value_text-IsBraceless v d h = r_value-IsBraceless (value_kind v) v d h
