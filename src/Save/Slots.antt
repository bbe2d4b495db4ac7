-- ===== src/Save/Slots.antt =====
-- The arguments of the writers' calls of `printCode` in src/CreateDOM.cpp, and what the writers
-- ask of members and types.
use schema_code_gen.Base.{
  Bool, true, false, List, [], ◌∷◌, ◌++◌, Option, none, some, Bytes, codes, text_eq, if◌then◌else◌,
}
use schema_code_gen.Dom.{OptionalType, required, optional, MemberVariable, Object, is_empty}
use schema_code_gen.TypeNames.{
  StandardType, float_type, double_type, bool_type, string_type, get_standard_type,
  deserialize_type_name, get_cpp_type_string,
}

-- `i.mMember` and `i.mType`; what `saveDeserialize` calls `cppType`, `getType`, `checkName` and
-- `getName`.
pub data MemberSlot : Type 0 where
  member member_type cpp_type get_type check_name get_name : MemberSlot

-- The name of the test of a standard type that is no integer, behind `Is` and behind `Get`. An
-- assertion keeps the other types out.
abbrev pub other_type_name : StandardType → Bytes
other_type_name bool_type = codes "Bool"
other_type_name float_type = codes "Float"
other_type_name double_type = codes "Double"
other_type_name string_type = codes "String"
other_type_name _ = []

abbrev pub text_or_null : Option Bytes → Bytes
text_or_null none = []
text_or_null (some s) = s

unfoldable pub member_slot : MemberVariable → MemberSlot → Bytes
unfolding get_cpp_type_string get_standard_type deserialize_type_name
member_slot i member = i.member
member_slot i member_type = i.type
member_slot i cpp_type = get_cpp_type_string i.type false
member_slot i get_type = text_or_null (deserialize_type_name (get_standard_type i.type)).0
member_slot i check_name = codes "Is" ++ other_type_name (get_standard_type i.type)
member_slot i get_name = codes "Get" ++ other_type_name (get_standard_type i.type)

-- `mName`, `mInheritsFrom`, `mAlias`, `mShortDescription` and `mLongDescription`
pub data ObjectSlot : Type 0 where
  object_name base_name alias_text short_text long_text : ObjectSlot

abbrev pub object_slot : Object → ObjectSlot → Bytes
object_slot o object_name = o.name
object_slot o base_name = o.inherits_from
object_slot o alias_text = o.alias
object_slot o short_text = o.short_description
object_slot o long_text = o.long_description

-- The arguments for a value of an enum: the enum's name, and the item's `mMember`, `stringName`,
-- `mDefaultValue` and `mShortDescription`.
pub data EnumSlot : Type 0 where
  enum_name value_name shown_name value_text value_comment : EnumSlot

abbrev pub enum_slot : Object → MemberVariable → EnumSlot → Bytes
enum_slot o i enum_name = o.name
enum_slot o i value_name = i.member
enum_slot o i shown_name = if is_empty i.alias then i.member else i.alias
enum_slot o i value_text = i.default_value
enum_slot o i value_comment = i.short_description

-- `mIsOptional == OptionalType::optional`
abbrev optional_is : OptionalType → Bool
optional_is optional = true
optional_is _ = false

abbrev pub is_optional_value : MemberVariable → Bool
is_optional_value i = optional_is i.is_optional

-- `mIsOptional == OptionalType::required`
abbrev required_is : OptionalType → Bool
required_is required = true
required_is _ = false

abbrev pub is_required : MemberVariable → Bool
is_required i = required_is i.is_optional

-- The map `classEnumMap[name] = isEnum` of the objects, read at `type`: the last object of a name
-- counts. `found` is what the objects before give.
unfoldable pub enum_of : List Object → Bytes → Option Bool → Option Bool
enum_of [] type found = found
enum_of (o ∷ os) type found =
    enum_of os type (if text_eq o.name type then some o.is_enum else found)
