-- ===== src/Save/Class/Fields.antt =====
-- The calls of the first `Object::saveCPP` of src/CreateDOM.cpp for the fields of a class, and their
-- arguments. What `getCppValueInitializer` and `getCppRValue` print depends on the schema and on the
-- texts of floating point numbers.
use schema_code_gen.Base.{
  Bool, true, false, ◌++◌, List, [], ◌∷◌, not, if◌then◌else◌, Bytes, codes, text_eq,
}
use schema_code_gen.CString.{truncate}
use schema_code_gen.Dom.{MemberVariable, Dom}
use schema_code_gen.Emit.{Entry, entry, text, empty_line}
use schema_code_gen.StringHelper.Chars.{upcase}
use schema_code_gen.TypeNames.{StandardType, not_standard, get_standard_type, get_cpp_type_string}
use schema_code_gen.Values.{FloatStream, get_cpp_value_initializer, get_cpp_r_value}

pub data FieldSlot : Type 0 where
  field_name compared_name bare_name reference_type value_type item_base no_text : FieldSlot
  r_value_text initializer container_type upper_type key_type field_comment : FieldSlot

-- `getMemberName`, where `isDef` is false.
unfoldable pub get_member_name : Bytes → Bool → Bytes
unfolding truncate
get_member_name name is_map = if is_map then truncate 512 (codes "_" ++ name) else name

abbrev no_standard : StandardType → Bool
no_standard not_standard = true
no_standard _ = false

-- `getStandardType(i.mType.c_str()) == StandardType::none`
abbrev pub is_named : MemberVariable → Bool
is_named i = no_standard (get_standard_type i.type)

-- `mapType`
abbrev pub key_text : Bytes → Bytes
key_text map_type = if text_eq map_type (codes "string") then codes "std::string" else map_type

-- `temp[0] = upcase(temp[0])`
abbrev pub upper_first : Bytes → Bytes
upper_first [] = []
upper_first (c ∷ s) = upcase c ∷ s

-- `vectorName`
unfoldable pub vector_name : MemberVariable → Bytes
unfolding truncate get_cpp_type_string get_standard_type
vector_name i = truncate 512 (
    if i.is_map
    then codes "std::unordered_map<"
      ++ key_text i.map_type
      ++ (if is_named i
          then codes ", std::vector< " ++ get_cpp_type_string i.type false ++ codes ">>"
          else codes ", " ++ get_cpp_type_string i.type false ++ codes ">")
    else codes "std::vector< " ++ get_cpp_type_string i.type false ++ codes ">")

unfoldable pub field_slot : FloatStream → Dom → MemberVariable → FieldSlot → Bytes
unfolding get_member_name vector_name upcase get_cpp_type_string get_cpp_r_value
    get_cpp_value_initializer
field_slot f d i field_name = get_member_name i.member i.is_map
field_slot f d i compared_name = if i.is_map then codes "_" ++ i.member else i.member
field_slot f d i bare_name = i.member
field_slot f d i reference_type = get_cpp_type_string i.type false
field_slot f d i value_type = get_cpp_type_string i.type true
field_slot f d i item_base = i.inherits_from
field_slot f d i no_text = []
field_slot f d i r_value_text = get_cpp_r_value f i d false
field_slot f d i initializer = get_cpp_value_initializer f i d
field_slot f d i container_type = vector_name i
field_slot f d i upper_type = upper_first i.type
field_slot f d i key_type = key_text i.map_type
field_slot f d i field_comment = i.short_description

unfoldable pub compare_field : List (Entry FieldSlot)
compare_field = entry 2 "equal &= %s == other.%s;\n" (compared_name ∷ compared_name ∷ []) ∷ []

unfoldable pub assign_argument : (need_comma : Bool) → List (Entry FieldSlot)
assign_argument need_comma =
    (if need_comma then text 0 "," ∷ [] else [])
    ++ (entry 0 "const %s &_%s" (reference_type ∷ field_name ∷ []) ∷ [])

unfoldable pub assign_field : List (Entry FieldSlot)
assign_field = entry 2 "%s = _%s;\n" (field_name ∷ field_name ∷ []) ∷ []

unfoldable pub default_field : List (Entry FieldSlot)
default_field =
    entry 2 "%s%s::%s = %s;\n" (item_base ∷ no_text ∷ field_name ∷ r_value_text ∷ []) ∷ []

-- The type of a field.
unfoldable pub array_field_type : (is_string is_map : Bool) → List (Entry FieldSlot)
array_field_type is_string is_map =
    if is_string
    then if is_map
      then text 1 "std::unordered_map< std::string, std::string >" ∷ []
      else text 1 "std::vector< std::string >" ∷ []
    else entry 1 "%s" (container_type ∷ []) ∷ []

unfoldable pub field_type : (is_optional : Bool) → List (Entry FieldSlot)
field_type is_optional =
    if is_optional
    then entry 1 "codegen::optional< %s >" (value_type ∷ []) ∷ []
    else entry 1 "%s" (value_type ∷ []) ∷ []

-- Its name, its value and the comment.
unfoldable pub field_value : (is_single_pointer has_default : Bool) → List (Entry FieldSlot)
field_value is_single_pointer has_default =
    (if is_single_pointer
      then entry 4 "*%s" (field_name ∷ []) ∷ []
      else entry 4 "%s" (field_name ∷ []) ∷ [])
    ++ (if not has_default then text 0 "{ }" ∷ [] else entry 0 "{ %s }" (initializer ∷ []) ∷ [])
    ++ (text 0 ";" ∷ entry 16 "// %s\n" (field_comment ∷ []) ∷ [])

unfoldable pub array_operator : (named : Bool) → List (Entry FieldSlot)
array_operator named =
    (empty_line ∷ text 1 "// Defines the array operator to access this map\n" ∷ [])
    ++ (if named
        then entry 1 "std::vector< %s>& operator[](const %s& x)\n" (upper_type ∷ key_type ∷ []) ∷ []
        else entry 1 "%s operator[](const %s& x)\n" (reference_type ∷ key_type ∷ []) ∷ [])
    ++ (text 1 "{\n" ∷ entry 2 "return _%s[x];\n" (bare_name ∷ []) ∷ text 1 "}\n" ∷ empty_line ∷ [])
