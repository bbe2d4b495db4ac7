-- ===== src/Save/Class/Calls.antt =====
-- The calls of the first `Object::saveCPP` of src/CreateDOM.cpp for an alias, for an enum and around
-- the fields of a class.
use schema_code_gen.Base.{Bool, ◌++◌, List, [], ◌∷◌, not, if◌then◌else◌}
use schema_code_gen.Emit.{Entry, entry, text, empty_line}
use schema_code_gen.Save.Slots.{
  ObjectSlot, object_name, base_name, alias_text, short_text, long_text, EnumSlot, value_name,
  value_text, value_comment,
}

unfoldable pub using_alias : List (Entry ObjectSlot)
using_alias = entry 0 "using %s = %s;\n" (object_name ∷ alias_text ∷ []) ∷ []

unfoldable pub open_enum : (has_short has_long : Bool) → List (Entry ObjectSlot)
open_enum has_short has_long =
    (text 0 "\n" ∷ [])
    ++ (if has_short then entry 0 "// %s\n" (short_text ∷ []) ∷ [] else [])
    ++ (if has_long then entry 0 "// %s\n" (long_text ∷ []) ∷ [] else [])
    ++ (entry 0 "enum class %s : uint64_t\n" (object_name ∷ []) ∷ text 0 "{\n" ∷ [])

unfoldable pub enum_value : (has_default : Bool) → List (Entry EnumSlot)
enum_value has_default =
    (if not has_default
      then entry 1 "%s," (value_name ∷ []) ∷ []
      else entry 1 "%s=%s," (value_name ∷ value_text ∷ []) ∷ [])
    ++ (entry 10 "// %s\n" (value_comment ∷ []) ∷ [])

unfoldable pub close_enum : List (Entry ObjectSlot)
close_enum = text 0 "};\n" ∷ text 0 "\n" ∷ []

-- `classDefinition`
unfoldable pub open_class : (has_short has_long has_base : Bool) → List (Entry ObjectSlot)
open_class has_short has_long has_base =
    (text 0 "\n" ∷ [])
    ++ (if has_short then entry 0 "// %s\n" (short_text ∷ []) ∷ [] else [])
    ++ (if has_long then entry 0 "// %s\n" (long_text ∷ []) ∷ [] else [])
    ++ (entry 0 "class %s" (object_name ∷ []) ∷ [])
    ++ (if has_base then entry 0 " : public %s" (base_name ∷ []) ∷ [] else [])
    ++ text 0 "\n" ∷ text 0 "{\n" ∷ text 0 "public:\n" ∷ []

-- The method `isMember`, before the tests of the names and behind them.
unfoldable pub open_is_member : (has_base : Bool) → List (Entry ObjectSlot)
open_is_member has_base =
    (empty_line
      ∷ text 1
          "// Defines a method which returns 'true' if 'name' corresponds to a member variable of this class or base class.\n"
      ∷ text 1 "bool isMember(const char *name) const\n"
      ∷ text 1 "{\n"
      ∷ [])
    ++ (if not has_base
        then text 2 "bool ret = false;\n" ∷ []
        else entry 2 "bool ret = %s::isMember(name);\n" (base_name ∷ []) ∷ [])
    ++ (text 2 "(name);\n" ∷ [])

unfoldable pub close_is_member : List (Entry ObjectSlot)
close_is_member = text 2 "return ret;\n" ∷ text 1 "}\n" ∷ empty_line ∷ []

-- The tests of the names: the only one, or the first, one between and the last of several.
pub data NameSlot : Type 0 where
  tested_name : NameSlot

unfoldable pub single_test : List (Entry NameSlot)
single_test =
    entry 2 "if ( strcmp(name,\"%s\") == 0 )\n" (tested_name ∷ [])
    ∷ text 2 "{\n"
    ∷ text 3 "ret = true;\n"
    ∷ text 2 "}\n"
    ∷ []

unfoldable pub first_test : List (Entry NameSlot)
first_test = entry 2 "if ( strcmp(name,\"%s\") == 0 ||\n" (tested_name ∷ []) ∷ []

unfoldable pub middle_test : List (Entry NameSlot)
middle_test = entry 3 "strcmp(name,\"%s\") == 0 ||\n" (tested_name ∷ []) ∷ []

unfoldable pub last_test : List (Entry NameSlot)
last_test = entry 3 "strcmp(name,\"%s\") == 0 )\n" (tested_name ∷ []) ∷ []

unfoldable pub found_lines : List (Entry ObjectSlot)
found_lines = text 2 "{\n" ∷ text 3 "ret = true;\n" ∷ text 2 "}\n" ∷ []

-- The operators `==` and `!=`.
unfoldable pub open_equality : (has_base : Bool) → List (Entry ObjectSlot)
open_equality has_base =
    (text 1 "//Defines the equality operator for this class and any sub-class.\n"
      ∷ entry 1 "bool operator==(const %s& other) const\n" (object_name ∷ [])
      ∷ text 1 "{\n"
      ∷ [])
    ++ (if not has_base
        then text 2 "bool equal = true;\n" ∷ []
        else entry 2 "bool equal = %s(*this) == %s(other);\n" (base_name ∷ base_name ∷ []) ∷ [])

unfoldable pub close_equality : List (Entry ObjectSlot)
close_equality =
    text 2 "return equal;\n"
    ∷ text 1 "}\n"
    ∷ empty_line
    ∷ text 1 "//Defines the not equal operator for this class and any sub-class.\n"
    ∷ entry 1 "bool operator!=(const %s& other) const\n" (object_name ∷ [])
    ∷ text 1 "{\n"
    ∷ text 2 "return !((*this) == other);\n"
    ∷ text 1 "}\n"
    ∷ empty_line
    ∷ []

-- The constructors.
unfoldable pub open_assignment : List (Entry ObjectSlot)
open_assignment =
    text 1 "// Declare the constructor.\n"
    ∷ entry 1 "%s() { }\n" (object_name ∷ [])
    ∷ text 0 "\n"
    ∷ text 1 "// Declare the assignment constructor.\n"
    ∷ entry 1 "%s(" (object_name ∷ [])
    ∷ []

unfoldable pub assignment_body : List (Entry ObjectSlot)
assignment_body = text 0 ")\n" ∷ text 1 "{\n" ∷ []

unfoldable pub close_assignment : List (Entry ObjectSlot)
close_assignment = text 1 "}\n" ∷ text 0 "\n" ∷ []

unfoldable pub open_constructor : List (Entry ObjectSlot)
open_constructor =
    text 1 "// Declare the constructor.\n" ∷ entry 1 "%s()\n" (object_name ∷ []) ∷ text 1 "{\n" ∷ []

unfoldable pub close_constructor : List (Entry ObjectSlot)
close_constructor = text 1 "}\n" ∷ text 0 "\n" ∷ []

unfoldable pub close_class : List (Entry ObjectSlot)
close_class = text 0 "};\n" ∷ text 0 "\n" ∷ []
