-- ===== src/Values/Kinds.antt =====
-- The kinds of types that src/CreateDOM.cpp tells apart for default values, and the texts of integers.
use schema_code_gen.Base.{Bool, false, ◌||◌, List, [], ◌∷◌, Bytes, codes, text_eq, if◌then◌else◌}
use schema_code_gen.Base.Int.{pos}
use schema_code_gen.CString.Numbers.{strtoll, strtoull, print_nat, print_int}
use schema_code_gen.Dom.{MemberVariable, is_empty}

-- The tests of the member's type, in the order of the source.
pub data ValueKind : Type 0 where
  array text signed_integer unsigned_integer float_value double_value bool_value vec3 quat
        named_type :
      ValueKind

abbrev pub is_one_of : Bytes → List Bytes → Bool
is_one_of t [] = false
is_one_of t (n ∷ ns) = text_eq t n || is_one_of t ns

abbrev pub signed_names : List Bytes
signed_names = codes "i8" ∷ codes "i16" ∷ codes "i32" ∷ codes "i64" ∷ []

abbrev pub unsigned_names : List Bytes
unsigned_names = codes "u8" ∷ codes "u16" ∷ codes "u32" ∷ codes "u64" ∷ []

unfoldable pub type_kind : Bytes → ValueKind
type_kind t =
    if text_eq t (codes "string")
    then text
    else if is_one_of t signed_names
    then signed_integer
    else if is_one_of t unsigned_names
    then unsigned_integer
    else if text_eq t (codes "float")
    then float_value
    else if text_eq t (codes "double")
    then double_value
    else if text_eq t (codes "bool")
    then bool_value
    else if text_eq t (codes "Vec3")
    then vec3
    else if text_eq t (codes "Quat")
    then quat
    else named_type

abbrev pub value_kind : MemberVariable → ValueKind
value_kind v = if v.is_array then array else type_kind v.type

-- `long long i = 0; if (!empty) i = strtoll(...); ss << i;`
unfoldable pub signed_text : Bytes → Bytes
unfolding strtoll print_int
signed_text s = if is_empty s then print_int (pos 0) else print_int (strtoll s)

unfoldable pub unsigned_text : Bytes → Bytes
unfolding strtoull print_nat
unsigned_text s = if is_empty s then print_nat 0 else print_nat (strtoull s)
