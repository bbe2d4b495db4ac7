-- ===== src/Dom.antt =====
-- The document object model of src/CreateDOM.cpp: `MemberVariable`, `Object` and `DOM`.
pub mod Complete
pub mod Reflection
pub mod Bases
pub mod Spec
pub mod Lookup
pub mod Braceless
use schema_code_gen.Base.{
  ℕ, Bool, true, false, ◌||◌, ◌++◌, List, [], ◌∷◌, Bytes, codes, text_eq, if◌then◌else◌,
}
use schema_code_gen.CString.{truncate}

pub data OptionalType : Type 0 where
  required optional optional_deserialize : OptionalType

pub record MemberVariable : Type 0 where
  pub is_array : Bool
  pub is_pointer : Bool
  pub is_string : Bool
  pub needs_reflection : Bool
  pub is_optional : OptionalType
  pub is_map : Bool
  pub serialize_enum_as_integer : Bool
  pub map_type : Bytes
  pub member : Bytes
  pub alias : Bytes
  pub type : Bytes
  pub inherits_from : Bytes
  pub proto_type : Bytes
  pub engine_specific : Bytes
  pub default_value : Bytes
  pub min_value : Bytes
  pub max_value : Bytes
  pub short_description : Bytes
  pub long_description : Bytes
  pub qualified_default_value : Bytes

-- The member initialisers of a new `MemberVariable`.
abbrev pub new_member : MemberVariable
new_member = record {
  is_array = false;
  is_pointer = false;
  is_string = false;
  needs_reflection = false;
  is_optional = required;
  is_map = false;
  serialize_enum_as_integer = false;
  map_type = [];
  member = [];
  alias = [];
  type = [];
  inherits_from = [];
  proto_type = [];
  engine_specific = [];
  default_value = [];
  min_value = [];
  max_value = [];
  short_description = [];
  long_description = [];
  qualified_default_value = [];
}

abbrev pub is_empty : Bytes → Bool
is_empty [] = true
is_empty (_ ∷ _) = false

-- `MemberVariable::init`
unfoldable pub init : MemberVariable → MemberVariable
unfolding truncate
init v = if is_empty v.default_value then v else record v {
  qualified_default_value = truncate 512 (v.type ++ (codes "::" ++ v.default_value));
}

abbrev pub contains : List Bytes → Bytes → Bool
contains [] s = false
contains (x ∷ xs) s = text_eq x s || contains xs s

-- `MemberVariable::memberNeedsReflection`
unfoldable pub member_needs_reflection : List Bytes → MemberVariable → MemberVariable
member_needs_reflection classes v = record v {
  needs_reflection = if v.is_pointer || v.is_string then true else contains classes v.type;
}

-- `MemberVariable::needsReflection`
unfoldable pub wants_reflection : MemberVariable → Bool
wants_reflection v = v.is_array || v.is_pointer || v.is_string

pub record Object : Type 0 where
  pub name : Bytes
  pub type : Bytes
  pub inherits_from : Bytes
  pub multiple_inheritance : Bytes
  pub engine_specific : Bytes
  pub default_value : Bytes
  pub alias : Bytes
  pub short_description : Bytes
  pub long_description : Bytes
  pub children : List Bytes
  pub clone : Bool
  pub assignment : Bool
  pub needs_reflection : Bool
  pub is_enum : Bool
  pub is_class : Bool
  pub items : List MemberVariable

-- A new `Object`, and what `Object::clear` assigns.
abbrev pub new_object : Object
new_object = record {
  name = [];
  type = [];
  inherits_from = [];
  multiple_inheritance = [];
  engine_specific = [];
  default_value = [];
  alias = [];
  short_description = [];
  long_description = [];
  children = [];
  clone = false;
  assignment = false;
  needs_reflection = false;
  is_enum = false;
  is_class = false;
  items = [];
}

-- `mObjectMap` holds, for each name, the position in `mObjects` that its pointer points to.
pub record Dom : Type 0 where
  pub plain_old_data : Bool
  pub namespace : Bytes
  pub dest_dir : Bytes
  pub filename : Bytes
  pub url : Bytes
  pub export_xml : Bytes
  pub objects : List Object
  pub object_map : List (Bytes × ℕ)

abbrev pub new_dom : Dom
new_dom = record {
  plain_old_data = false;
  namespace = [];
  dest_dir = [];
  filename = [];
  url = [];
  export_xml = [];
  objects = [];
  object_map = [];
}
