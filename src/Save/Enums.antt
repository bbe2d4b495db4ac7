-- ===== src/Save/Enums.antt =====
-- The C++ code that `Object::saveTypeScript` of src/CreateDOM.cpp generates for an enum: the
-- functions between its values and their names.
pub mod Nested
use schema_code_gen.Base.{Bool, ◌++◌, List, [], ◌∷◌, Bytes, not, if◌then◌else◌}
use schema_code_gen.Dom.{MemberVariable, Object, is_empty}
use schema_code_gen.Emit.Nested.{each}
use schema_code_gen.Emit.{Entry, entry, text, empty_line, fill}
use schema_code_gen.Printer.Lines.{Line}
use schema_code_gen.Save.Slots.{
  ObjectSlot, object_name, object_slot, EnumSlot, enum_name, value_name, shown_name, enum_slot,
}

-- The functions are declared in the header.
unfoldable pub declare_enum : List (Entry ObjectSlot)
declare_enum =
    empty_line
    ∷ entry 0 "const char *stringifyEnum(%s x);\n" (object_name ∷ [])
    ∷ entry 0 "std::string stringifyEnumStdString(%s x);\n" (object_name ∷ [])
    ∷ empty_line
    ∷ []

-- The list of the values with their names begins.
unfoldable pub open_list : List (Entry ObjectSlot)
open_list =
    entry 0 "struct %sKey\n" (object_name ∷ [])
    ∷ text 0 "{\n"
    ∷ entry 1 "%s key;\n" (object_name ∷ [])
    ∷ text 1 "const char *value;\n"
    ∷ text 0 "};\n"
    ∷ entry 0 "static %sKey %sList[]\n" (object_name ∷ object_name ∷ [])
    ∷ text 0 "{\n"
    ∷ []

unfoldable pub list_value : List (Entry EnumSlot)
list_value = entry 1 "{ %s::%s, \"%s\" },\n" (enum_name ∷ value_name ∷ shown_name ∷ []) ∷ []

-- The list ends, and the function from a value to its name follows.
unfoldable pub stringify_enum : List (Entry ObjectSlot)
stringify_enum =
    text 0 "};\n"
    ∷ entry 0 "const char* stringifyEnum(%s in)\n" (object_name ∷ [])
    ∷ text 0 "{\n"
    ∷ text 1 "const char *ret = nullptr;\n"
    ∷ entry 1 "static std::unordered_map<%s, const char *> enumToStringMap;\n" (object_name ∷ [])
    ∷ text 1 "static std::once_flag first;\n"
    ∷ text 1 "std::call_once(first, []()\n"
    ∷ text 1 "{\n"
    ∷ entry 2 "for (auto e : %sList)\n" (object_name ∷ [])
    ∷ text 2 "{\n"
    ∷ text 3 "enumToStringMap[e.key] = e.value;\n"
    ∷ text 2 "}\n"
    ∷ text 1 "});\n"
    ∷ text 1 "{\n"
    ∷ text 2 "const auto &found = enumToStringMap.find(in);\n"
    ∷ text 2 "if (found != enumToStringMap.end())\n"
    ∷ text 2 "{\n"
    ∷ text 3 "ret = (*found).second;\n"
    ∷ text 2 "}\n"
    ∷ text 2 "else\n"
    ∷ text 2 "{\n"
    ∷ text 3 "assert(0); // This should never happen unless the enum passed was corrupted\n"
    ∷ text 2 "}\n"
    ∷ text 1 "}\n"
    ∷ text 1 "return ret;\n"
    ∷ text 0 "}\n"
    ∷ text 0 "\n"
    ∷ empty_line
    ∷ entry 0 "std::string stringifyEnumStdString(%s in)\n" (object_name ∷ [])
    ∷ text 0 "{\n"
    ∷ text 1 "return std::string(stringifyEnum(in));\n"
    ∷ text 0 "}\n"
    ∷ empty_line
    ∷ []

-- The function from a name to its value, which starts from the first value if there is one.
unfoldable pub open_unstringify : List (Entry ObjectSlot)
open_unstringify =
    entry 0 "template<> %s unstringifyEnum(const std::string &in, bool& isValid)\n"
      (object_name ∷ [])
    ∷ text 0 "{\n"
    ∷ []

unfoldable pub default_value_line : List (Entry EnumSlot)
default_value_line = entry 0 "    %s ret = %s::%s;\n" (enum_name ∷ enum_name ∷ value_name ∷ []) ∷ []

unfoldable pub no_default_line : List (Entry ObjectSlot)
no_default_line = entry 0 "    %s ret;\n" (object_name ∷ []) ∷ []

abbrev pub default_lines : Object → List MemberVariable → List Line
default_lines o [] = fill (object_slot o) no_default_line
default_lines o (i ∷ items) = fill (enum_slot o i) default_value_line

unfoldable pub close_unstringify : List (Entry ObjectSlot)
close_unstringify =
    text 0 "    isValid = false;\n"
    ∷ entry 0 "    static std::unordered_map<std::string, %s> stringToEnumMap;\n" (object_name ∷ [])
    ∷ text 0 "    static std::once_flag first;\n"
    ∷ text 0 "    std::call_once(first, []()\n"
    ∷ text 0 "    {\n"
    ∷ entry 0 "        for (auto e : %sList)\n" (object_name ∷ [])
    ∷ text 0 "        {\n"
    ∷ text 0 "            stringToEnumMap[std::string(e.value)] = e.key;\n"
    ∷ text 0 "        }\n"
    ∷ text 0 "    });\n"
    ∷ text 0 "    const auto &found = stringToEnumMap.find(in);\n"
    ∷ text 0 "    if (found != stringToEnumMap.end())\n"
    ∷ text 0 "    {\n"
    ∷ text 0 "        ret = (*found).second;\n"
    ∷ text 0 "        isValid = true;\n"
    ∷ text 0 "    }\n"
    ∷ text 0 "    return ret;\n"
    ∷ text 0 "}\n"
    ∷ empty_line
    ∷ []

-- What goes into the source file.
unfoldable pub save_enum_functions : Object → List Line
unfolding open_list list_value stringify_enum open_unstringify default_value_line no_default_line
    close_unstringify
save_enum_functions o =
    (fill (object_slot o) open_list
      ++ (each (λ i. fill (enum_slot o i) list_value) o.items
          ++ fill (object_slot o) stringify_enum))
    ++ (fill (object_slot o) open_unstringify
        ++ (default_lines o o.items ++ fill (object_slot o) close_unstringify))

unfoldable pub save_enum_header : Object → List Line
unfolding declare_enum
save_enum_header o = fill (object_slot o) declare_enum
