-- ===== src/TypeNames.antt =====
-- The type names of a schema, in src/CreateDOM.cpp: `StandardType`, `getStandardType`,
-- `deserializeTypeName`, `isStandardType`, `getCppTypeString` and `getPROTOTypeString`. The
-- functions that return their argument for an unknown name return it here too.
pub mod Tables
use schema_code_gen.Base.{
  Bool, true, false, ◌||◌, Option, none, some, Bytes, codes, text_eq, if◌then◌else◌,
}

pub data StandardType : Type 0 where
  not_standard u64 u32 u16 u8 i64 i32 i16 i8 : StandardType
  float_type double_type bool_type string_type : StandardType

-- The reader's method, and `isNumeric`; `none` is the null pointer.
unfoldable pub deserialize_type_name : StandardType → Option Bytes × Bool
deserialize_type_name not_standard = (none, true)
deserialize_type_name u64 = (some (codes "GetUint64"), true)
deserialize_type_name u32 = (some (codes "GetUint"), true)
deserialize_type_name u16 = (some (codes "GetUint16"), true)
deserialize_type_name u8 = (some (codes "GetUint8"), true)
deserialize_type_name i64 = (some (codes "GetInt64"), true)
deserialize_type_name i32 = (some (codes "GetInt32"), true)
deserialize_type_name i16 = (some (codes "GetInt16"), true)
deserialize_type_name i8 = (some (codes "GetInt8"), true)
deserialize_type_name float_type = (some (codes "GetFloat"), false)
deserialize_type_name double_type = (some (codes "GetDouble"), false)
deserialize_type_name bool_type = (some (codes "GetBool"), false)
deserialize_type_name string_type = (some (codes "GetString"), false)

unfoldable pub get_standard_type : Bytes → StandardType
get_standard_type type =
    if text_eq type (codes "u64")
    then u64
    else if text_eq type (codes "u32")
    then u32
    else if text_eq type (codes "u16")
    then u16
    else if text_eq type (codes "u8")
    then u8
    else if text_eq type (codes "i64")
    then i64
    else if text_eq type (codes "i32")
    then i32
    else if text_eq type (codes "i16")
    then i16
    else if text_eq type (codes "i8")
    then i8
    else if text_eq type (codes "float")
    then float_type
    else if text_eq type (codes "double")
    then double_type
    else if text_eq type (codes "bool")
    then bool_type
    else if text_eq type (codes "string")
    then string_type
    else not_standard

-- `Object::isStandardType`
unfoldable pub is_standard_type : Bytes → Bool
is_standard_type type =
    text_eq type (codes "u64")
    || text_eq type (codes "u32")
    || text_eq type (codes "u16")
    || text_eq type (codes "u8")
    || text_eq type (codes "i64")
    || text_eq type (codes "i32")
    || text_eq type (codes "i16")
    || text_eq type (codes "i8")
    || text_eq type (codes "float")
    || text_eq type (codes "double")
    || text_eq type (codes "bool")

unfoldable pub get_cpp_type_string : Bytes → Bool → Bytes
get_cpp_type_string type is_def =
    if text_eq type (codes "string")
    then (if is_def then codes "std::string" else codes "const char *")
    else if text_eq type (codes "u8")
    then codes "uint8_t"
    else if text_eq type (codes "u16")
    then codes "uint16_t"
    else if text_eq type (codes "u32")
    then codes "uint32_t"
    else if text_eq type (codes "u64")
    then codes "uint64_t"
    else if text_eq type (codes "i8")
    then codes "int8_t"
    else if text_eq type (codes "i16")
    then codes "int16_t"
    else if text_eq type (codes "i32")
    then codes "int32_t"
    else if text_eq type (codes "i64")
    then codes "int64_t"
    else type

unfoldable pub get_proto_type_string : Bytes → Bytes
get_proto_type_string type =
    if text_eq type (codes "string")
    then codes "string"
    else if text_eq type (codes "u8")
    then codes "uint32"
    else if text_eq type (codes "u16")
    then codes "uint32"
    else if text_eq type (codes "u32")
    then codes "uint32"
    else if text_eq type (codes "u64")
    then codes "uint64"
    else if text_eq type (codes "i8")
    then codes "int32"
    else if text_eq type (codes "i16")
    then codes "int32"
    else if text_eq type (codes "i32")
    then codes "int32"
    else if text_eq type (codes "i64")
    then codes "int64"
    else type
