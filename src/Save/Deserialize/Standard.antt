-- ===== src/Save/Deserialize/Standard.antt =====
-- The calls of `Object::saveDeserialize` of src/CreateDOM.cpp, for members of standard types.
use schema_code_gen.Base.{Bool, ◌++◌, List, [], ◌∷◌, if◌then◌else◌}
use schema_code_gen.Emit.{Entry, entry, text}
use schema_code_gen.Save.Slots.{MemberSlot, member, cpp_type, get_type, check_name, get_name}

-- A map of a standard type, whatever the keys; other members of the object are told by their names.
unfoldable pub deserialize_map : (is_numeric has_names : Bool) → List (Entry MemberSlot)
deserialize_map is_numeric has_names =
    (entry 2 "// Deserialize map: '_%s' of type 'string'\n" (member ∷ [])
      ∷ text 2 "{\n"
      ∷ text 3
          "for (rapidjson::Value::ConstMemberIterator iter = d.MemberBegin(); iter != d.MemberEnd(); ++iter)\n"
      ∷ text 3 "{\n"
      ∷ text 4 "const char* key = iter->name.GetString();\n"
      ∷ text 4 "const rapidjson::Value &item = iter->value;\n"
      ∷ [])
    ++ (if is_numeric
        then text 4 "{\n"
          ∷ text 4 "    if (item.IsString())\n"
          ∷ text 4 "    {\n"
          ∷ text 4 "        uint64_t ivalue = 0;\n"
          ∷ text 4 "        stringToInt(item.GetString(), ivalue);\n"
          ∷ entry 4 "        r._%s[std::string(key)] = ivalue;\n" (member ∷ [])
          ∷ text 4 "    }\n"
          ∷ text 4 "    else if (item.IsNumber())\n"
          ∷ text 4 "    {\n"
          ∷ entry 4 "        r._%s[std::string(key)] = item.GetUint64();\n" (member ∷ [])
          ∷ text 4 "    }\n"
          ∷ text 4 "}\n"
          ∷ []
        else (text 4 "if (item.IsString())\n"
            ∷ text 4 "{\n"
            ∷ text 5 "const char *value = item.GetString();\n"
            ∷ [])
          ++ (if has_names
              then text 5 "// Skip keys which we already deserialize explicitly by name.\n"
                ∷ text 5 "if ( r.isMember(key) )\n"
                ∷ text 5 "{\n"
                ∷ text 5 "}\n"
                ∷ text 5 "else\n"
                ∷ []
              else [])
          ++ (text 5 "{\n"
              ∷ entry 6 "r._%s[std::string(key)] = std::string(value);\n" (member ∷ [])
              ∷ text 5 "}\n"
              ∷ text 4 "}\n"
              ∷ []))
    ++ (text 3 "}\n" ∷ text 2 "}\n" ∷ [])

-- A member of an integer type, where the value is found.
unfoldable pub read_number : (is_array : Bool) → List (Entry MemberSlot)
read_number is_array =
    if is_array
    then text 3 "if (v.IsArray())\n"
      ∷ text 3 "{\n"
      ∷ entry 3 "    std::vector< %s > %s;\n" (cpp_type ∷ member ∷ [])
      ∷ text 3 "    for (rapidjson::SizeType i = 0; i < v.Size(); i++)\n"
      ∷ text 3 "    {\n"
      ∷ text 3 "        const rapidjson::Value& entry = v[i];\n"
      ∷ entry 3 "        %s ivalue;\n" (cpp_type ∷ [])
      ∷ text 3 "        if (entry.IsString())\n"
      ∷ text 3 "        {\n"
      ∷ text 3 "            stringToInt(entry.GetString(), ivalue);\n"
      ∷ text 3 "        }\n"
      ∷ text 3 "        else if (entry.IsNumber())\n"
      ∷ text 3 "        {\n"
      ∷ entry 3 "            ivalue = entry.%s();\n" (get_type ∷ [])
      ∷ text 3 "        }\n"
      ∷ text 3 "        else\n"
      ∷ text 3 "        {\n"
      ∷ text 3 "            return false;\n"
      ∷ text 3 "        }\n"
      ∷ entry 3 "        %s.push_back(ivalue);\n" (member ∷ [])
      ∷ text 3 "    }\n"
      ∷ entry 3 "    r.%s = %s;\n" (member ∷ member ∷ [])
      ∷ text 3 "}\n"
      ∷ text 3 "else\n"
      ∷ text 3 "{\n"
      ∷ text 3 "    return false;\n"
      ∷ text 3 "}\n"
      ∷ []
    else text 3 "if ( v.IsString() )\n"
      ∷ text 3 "{\n"
      ∷ entry 4 "%s ivalue;\n" (cpp_type ∷ [])
      ∷ text 4 "stringToInt(v.GetString(),ivalue);\n"
      ∷ entry 4 "r.%s = ivalue;\n" (member ∷ [])
      ∷ text 3 "}\n"
      ∷ text 3 "else if ( v.IsNumber() )\n"
      ∷ text 3 "{\n"
      ∷ entry 4 "r.%s = v.%s();\n" (member ∷ get_type ∷ [])
      ∷ text 3 "}\n"
      ∷ text 3 "else\n"
      ∷ text 3 "{\n"
      ∷ text 4 "return false;\n"
      ∷ text 3 "}\n"
      ∷ []

-- A member of another standard type.
unfoldable pub read_other : (is_array is_float is_double : Bool) → List (Entry MemberSlot)
read_other is_array is_float is_double =
    (entry 3 "if ( v.%s() )\n" (check_name ∷ []) ∷ text 3 "{\n" ∷ [])
    ++ (if is_array
        then text 4 "if (v.IsArray())\n"
          ∷ text 4 "{\n"
          ∷ text 4 "    for (rapidjson::SizeType i = 0; i < v.Size(); i++)\n"
          ∷ text 4 "    {\n"
          ∷ text 4 "        const rapidjson::Value& item = v[i];\n"
          ∷ entry 4 "        if (item.%s())\n" (check_name ∷ [])
          ∷ text 4 "        {\n"
          ∷ entry 4 "            r.%s.push_back(std::string(item.%s()));\n" (member ∷ get_name ∷ [])
          ∷ text 4 "        }\n"
          ∷ text 4 "        else\n"
          ∷ text 4 "        {\n"
          ∷ text 4 "            return false;\n"
          ∷ text 4 "        }\n"
          ∷ text 4 "    }\n"
          ∷ text 4 "}\n"
          ∷ text 4 "else\n"
          ∷ text 4 "{\n"
          ∷ text 4 "    return false;\n"
          ∷ text 4 "}\n"
          ∷ []
        else entry 4 "r.%s = v.%s();\n" (member ∷ get_type ∷ []) ∷ [])
    ++ (text 3 "}\n" ∷ [])
    ++ (if is_float
        then text 3 "else if ( v.IsNumber() )\n"
          ∷ text 3 "{\n"
          ∷ entry 4 "r.%s = float(v.GetUint64());\n" (member ∷ [])
          ∷ text 3 "}\n"
          ∷ []
        else [])
    ++ (if is_double
        then text 3 "else if ( v.IsNumber() )\n"
          ∷ text 3 "{\n"
          ∷ entry 4 "r.%s = double(v.GetUint64());\n" (member ∷ [])
          ∷ text 3 "}\n"
          ∷ []
        else [])
    ++ (text 3 "else\n" ∷ text 3 "{\n" ∷ text 4 "return false;\n" ∷ text 3 "}\n" ∷ [])

-- The search for the value, and what follows where it is not found.
unfoldable pub find_value : List (Entry MemberSlot)
find_value =
    entry 2 "auto found = d.FindMember(\"%s\");\n" (member ∷ [])
    ∷ text 2 "if ( found != d.MemberEnd() )\n"
    ∷ text 2 "{\n"
    ∷ text 3 "const rapidjson::Value &v = found->value;\n"
    ∷ []

unfoldable pub missing_value : (is_required : Bool) → List (Entry MemberSlot)
missing_value is_required =
    (text 2 "}\n" ∷ [])
    ++ (if is_required
        then text 2 "else\n" ∷ text 2 "{\n" ∷ text 3 "return false;\n" ∷ text 2 "}\n" ∷ []
        else [])

-- A member of a standard type, which must be there if it is required.
unfoldable pub deserialize_standard :
    (is_numeric is_array is_float is_double is_required : Bool) → List (Entry MemberSlot)
unfolding find_value read_number read_other missing_value
deserialize_standard is_numeric is_array is_float is_double is_required =
    find_value
    ++ ((if is_numeric then read_number is_array else read_other is_array is_float is_double)
        ++ missing_value is_required)
