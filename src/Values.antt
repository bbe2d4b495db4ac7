-- ===== src/Values.antt =====
-- The texts that src/CreateDOM.cpp generates for the default value of a member: `getPythonArgDef`,
-- `getCppValueInitializer` and `getCppRValue`. The types `float` and `double`, and the functions of
-- the C and C++ libraries on them, are an argument. Warnings are not modelled.
pub mod Kinds
pub mod Integers
pub mod Plain
use schema_code_gen.Base.{
  ℕ, Bool, true, false, ◌||◌, ◌++◌, List, [], ◌∷◌, Option, none, some, Bytes, codes, text_eq,
  get_elem?, if◌then◌else◌,
}
use schema_code_gen.Base.Int.{pos}
use schema_code_gen.CString.Numbers.{strtoll, strtoull, print_nat, print_int}
use schema_code_gen.CString.{stricmp_eq}
use schema_code_gen.Dom.Complete.{find_object}
use schema_code_gen.Dom.{MemberVariable, Object, Dom, is_empty}
use schema_code_gen.TypeNames.{get_cpp_type_string}
use Kinds.{
  ValueKind, array, text, signed_integer, unsigned_integer, float_value, double_value, bool_value,
  vec3, quat, named_type, type_kind, value_kind, signed_text, unsigned_text,
}

pub record FloatStream : Type 1 where
  pub Float : Type 0
  pub Double : Type 0
  pub zero_float : Float
  pub one_float : Float
  pub flt_max : Float
  pub flt_min : Float
  pub strtof : Bytes → Float
  pub zero_double : Double
  pub widen : Float → Double
  pub strtod : Bytes → Double
  -- The values that `sscanf` stores for that many `%f` between commas, as many as it reads.
  pub scan_floats : ℕ → Bytes → List Float
  -- What a stream prints after `std::showpoint`.
  pub print_float : Float → Bytes
  pub print_double : Double → Bytes

abbrev or_default : {A : Type 0} → Option A → A → A
or_default none a = a
or_default (some b) a = b

-- A type of the schema, or none: `obj` is what `findObject` returns.
abbrev pub python_named : MemberVariable → Option Object → Bytes
python_named v none = codes "None"
python_named v (some obj) =
    if obj.is_enum
    then (if is_empty v.default_value then print_nat 0 else v.default_value)
    else v.type ++ codes "()"

abbrev pub cpp_named : MemberVariable → Option Object → Bytes
cpp_named v none = []
cpp_named v (some obj) =
    if obj.is_enum then (if is_empty v.default_value then [] else v.qualified_default_value) else []

module _ (f : FloatStream) where
  open f use {
    Float, Double, zero_float, one_float, flt_max, flt_min, strtof, zero_double, widen, strtod,
    scan_floats, print_float, print_double,
  }

  -- A `double`, for which the names of the bounds of `float` stand too.
  abbrev double_text : Bytes → Bytes
  double_text s = print_double (
      if is_empty s
      then zero_double
      else if text_eq s (codes "FLT_MAX")
      then widen flt_max
      else if text_eq s (codes "FLT_MIN")
      then widen flt_min
      else strtod s)

  -- A `float` in C++, where these names are kept.
  abbrev float_text : Bytes → Bytes
  float_text s =
      if is_empty s
      then print_float zero_float ++ codes "f"
      else if text_eq s (codes "FLT_MAX")
      then codes "FLT_MAX"
      else if text_eq s (codes "FLT_MIN")
      then codes "FLT_MIN"
      else print_float (strtof s) ++ codes "f"

  -- The components of a vector: `n` of them are scanned, and component `i` is printed.
  abbrev pub component : ℕ → ℕ → Float → Bytes → Bytes
  component n i old s =
      print_float (if is_empty s then old else or_default (get_elem? (scan_floats n s) i) old)

  abbrev python_vec3 : Bytes → Bytes
  python_vec3 s =
      codes "Vec3(x="
      ++ component 3 0 zero_float s
      ++ codes ",y="
      ++ component 3 1 zero_float s
      ++ codes ",z="
      ++ component 3 2 zero_float s
      ++ codes ")"

  abbrev python_quat : Bytes → Bytes
  python_quat s =
      codes "Quat(x="
      ++ component 4 0 zero_float s
      ++ codes ",y="
      ++ component 4 1 zero_float s
      ++ codes ",z="
      ++ component 4 2 zero_float s
      ++ codes ",w="
      ++ component 4 3 one_float s
      ++ codes ")"

  abbrev cpp_vec3 : Bytes → Bytes
  cpp_vec3 s =
      component 3 0 zero_float s
      ++ codes "f, "
      ++ component 3 1 zero_float s
      ++ codes "f, "
      ++ component 3 2 zero_float s
      ++ codes "f"

  abbrev cpp_quat : Bytes → Bytes
  cpp_quat s =
      component 4 0 zero_float s
      ++ codes "f, "
      ++ component 4 1 zero_float s
      ++ codes "f, "
      ++ component 4 2 zero_float s
      ++ codes "f, "
      ++ component 4 3 one_float s
      ++ codes "f"

  -- The value behind the `=`.
  unfoldable pub python_value : ValueKind → MemberVariable → Dom → Bytes
  unfolding signed_text unsigned_text find_object stricmp_eq
  python_value array v d = codes "[]"
  python_value text v d = codes "'" ++ v.default_value ++ codes "'"
  python_value signed_integer v d = signed_text v.default_value
  python_value unsigned_integer v d = unsigned_text v.default_value
  python_value float_value v d = double_text v.default_value
  python_value double_value v d = double_text v.default_value
  python_value bool_value v d =
      if stricmp_eq v.default_value (codes "true") then codes "True" else codes "False"
  python_value vec3 v d = python_vec3 v.default_value
  python_value quat v d = python_quat v.default_value
  python_value named_type v d = python_named v (find_object d v.type)

  -- `getPythonArgDef`
  unfoldable pub get_python_arg_def : MemberVariable → Dom → Bytes
  unfolding python_value type_kind
  get_python_arg_def v d = v.member ++ codes "=" ++ python_value (value_kind v) v d

  unfoldable pub cpp_value : ValueKind → MemberVariable → Dom → Bytes
  unfolding signed_text unsigned_text find_object stricmp_eq
  cpp_value array v d = []
  cpp_value text v d = codes "\"" ++ v.default_value ++ codes "\""
  cpp_value signed_integer v d = signed_text v.default_value
  cpp_value unsigned_integer v d = unsigned_text v.default_value
  cpp_value float_value v d = float_text v.default_value
  cpp_value double_value v d = double_text v.default_value
  cpp_value bool_value v d =
      if stricmp_eq v.default_value (codes "true") then codes "true" else codes "false"
  cpp_value vec3 v d = cpp_vec3 v.default_value
  cpp_value quat v d = cpp_quat v.default_value
  cpp_value named_type v d = cpp_named v (find_object d v.type)

  -- `getCppValueInitializer`
  unfoldable pub get_cpp_value_initializer : MemberVariable → Dom → Bytes
  unfolding cpp_value type_kind
  get_cpp_value_initializer v d = cpp_value (value_kind v) v d

  -- A type of the schema in `getCppRValue`; `Vec3` and `Quat` count as such here.
  abbrev pub r_value_named : MemberVariable → Dom → Option Object → Bytes
  r_value_named v d none = codes "void"
  r_value_named v d (some obj) =
      if obj.is_enum
      then (if is_empty v.default_value then v.type ++ codes "()" else v.qualified_default_value)
      else v.type ++ codes "(" ++ get_cpp_value_initializer v d ++ codes ")"

  abbrev pub r_value : ValueKind → MemberVariable → Dom → Bool → Bytes
  r_value array v d is_def =
      if is_def
      then codes "std::vector<" ++ get_cpp_type_string v.type is_def ++ codes ">()"
      else codes "nullptr"
  r_value vec3 v d is_def = r_value_named v d (find_object d v.type)
  r_value quat v d is_def = r_value_named v d (find_object d v.type)
  r_value named_type v d is_def = r_value_named v d (find_object d v.type)
  r_value _ v d is_def = get_cpp_value_initializer v d

  -- `getCppRValue`
  unfoldable pub get_cpp_r_value : MemberVariable → Dom → Bool → Bytes
  unfolding find_object get_cpp_value_initializer get_cpp_type_string type_kind
  get_cpp_r_value v d is_def = r_value (value_kind v) v d is_def
