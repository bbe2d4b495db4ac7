-- ===== src/Save/Deserialize/Named.antt =====
-- The calls of `Object::saveDeserialize` of src/CreateDOM.cpp, for members of the schema's types and around
-- the members.
use schema_code_gen.Base.{Bool, ◌++◌, List, [], ◌∷◌, if◌then◌else◌}
use schema_code_gen.Emit.{Entry, entry, text, empty_line}
use schema_code_gen.Save.Slots.{MemberSlot, member, member_type, ObjectSlot, object_name, base_name}

-- A map of arrays of enums.
unfoldable pub deserialize_enum_map : List (Entry MemberSlot)
deserialize_enum_map =
    text 2 "//Deserialize this array of enums as a map.\n"
    ∷ text 2
        "for (rapidjson::Value::ConstMemberIterator iter = d.MemberBegin(); iter != d.MemberEnd(); ++iter)\n"
    ∷ text 2 "{\n"
    ∷ text 2 "    const char* key = iter->name.GetString();\n"
    ∷ text 2 "    const rapidjson::Value &item = iter->value;\n"
    ∷ text 2 "    if (item.IsArray())\n"
    ∷ text 2 "    {\n"
    ∷ entry 2 "        std::vector< %s > items;\n" (member_type ∷ [])
    ∷ text 2 "        for (rapidjson::SizeType i = 0; i < item.Size(); i++)\n"
    ∷ text 2 "        {\n"
    ∷ text 2 "            const rapidjson::Value& entry = item[i];\n"
    ∷ text 2 "            if (entry.IsString())\n"
    ∷ text 2 "            {\n"
    ∷ text 2 "                bool isOk;\n"
    ∷ entry 2 "                %s p = unstringifyEnum<%s>(entry.GetString(), isOk);\n"
        (member_type ∷ member_type ∷ [])
    ∷ text 2 "                if (isOk)\n"
    ∷ text 2 "                {\n"
    ∷ text 2 "                    items.push_back(p);\n"
    ∷ text 2 "                }\n"
    ∷ text 2 "                else\n"
    ∷ text 2 "                {\n"
    ∷ text 2 "                    return false;\n"
    ∷ text 2 "                }\n"
    ∷ text 2 "            }\n"
    ∷ text 2 "            else\n"
    ∷ text 2 "            {\n"
    ∷ text 2 "                return false;\n"
    ∷ text 2 "            }\n"
    ∷ text 2 "        }\n"
    ∷ entry 2 "        r._%s[std::string(key)] = items;\n" (member ∷ [])
    ∷ text 2 "    }\n"
    ∷ text 2 "    else\n"
    ∷ text 2 "    {\n"
    ∷ text 2 "        return false;\n"
    ∷ text 2 "    }\n"
    ∷ text 2 "}\n"
    ∷ []

-- An array of a type of the schema.
unfoldable pub deserialize_array : (is_enum is_required : Bool) → List (Entry MemberSlot)
deserialize_array is_enum is_required =
    (entry 2 "//Deserialize an array of objects of type '%s' to array '%s'.\n"
        (member_type ∷ member ∷ [])
      ∷ entry 2 "auto found = d.FindMember(\"%s\");\n" (member ∷ [])
      ∷ text 2 "if (found != d.MemberEnd())\n"
      ∷ text 2 "{\n"
      ∷ text 3 "const rapidjson::Value &v = found->value;\n"
      ∷ text 3 "if (v.IsArray())\n"
      ∷ text 3 "{\n"
      ∷ text 4 "for (rapidjson::SizeType i = 0; i < v.Size(); i++)\n"
      ∷ text 4 "{\n"
      ∷ text 5 "const rapidjson::Value& item = v[i];\n"
      ∷ [])
    ++ (if is_enum
        then text 5 "if (item.IsString())\n"
          ∷ text 5 "{\n"
          ∷ text 6 "bool isOk;\n"
          ∷ entry 6 "%s h = unstringifyEnum<%s>(item.GetString(), isOk);\n"
              (member_type ∷ member_type ∷ [])
          ∷ text 6 "if (isOk)\n"
          ∷ text 6 "{\n"
          ∷ text 7 "r.acl.push_back(h);\n"
          ∷ text 6 "}\n"
          ∷ text 6 "else\n"
          ∷ text 6 "{\n"
          ∷ text 7 "return false;\n"
          ∷ text 6 "}\n"
          ∷ text 5 "}\n"
          ∷ text 5 "else\n"
          ∷ text 5 "{\n"
          ∷ text 6 "return false;\n"
          ∷ text 5 "}\n"
          ∷ []
        else entry 2 "            %s h;\n" (member_type ∷ [])
          ∷ text 2 "            if (deserializeFrom(item, h))\n"
          ∷ text 2 "            {\n"
          ∷ entry 2 "                r.%s.push_back(h);\n" (member ∷ [])
          ∷ text 2 "            }\n"
          ∷ text 2 "            else\n"
          ∷ text 2 "            {\n"
          ∷ text 2 "                return false;\n"
          ∷ text 2 "            }\n"
          ∷ [])
    ++ (text 2 "        }\n"
        ∷ text 2 "    }\n"
        ∷ text 2 "    else\n"
        ∷ text 2 "    {\n"
        ∷ text 2 "        return false;\n"
        ∷ text 2 "    }\n"
        ∷ text 2 "}\n"
        ∷ [])
    ++ (if is_required
        then text 2 "else\n" ∷ text 2 "{\n" ∷ text 3 "return false;\n" ∷ text 2 "}\n" ∷ []
        else [])

-- A single enum.
unfoldable pub deserialize_enum : (as_integer : Bool) → List (Entry MemberSlot)
deserialize_enum as_integer =
    (entry 2 "auto found = d.FindMember(\"%s\");\n" (member ∷ [])
      ∷ text 2 "if ( found != d.MemberEnd() )\n"
      ∷ text 2 "{\n"
      ∷ text 3 "const rapidjson::Value &v = found->value;\n"
      ∷ text 3 "if ( v.IsString() )\n"
      ∷ text 3 "{\n"
      ∷ text 4 "bool isOk;\n"
      ∷ entry 4 "r.%s = unstringifyEnum<%s>(v.GetString(),isOk);\n" (member ∷ member_type ∷ [])
      ∷ text 4 "if ( !isOk )\n"
      ∷ text 4 "{\n"
      ∷ text 5 "return false;\n"
      ∷ text 4 "}\n"
      ∷ text 3 "}\n"
      ∷ text 3 "else\n"
      ∷ text 3 "{\n"
      ∷ [])
    ++ (if as_integer
        then text 4 "if ( v.IsNumber() )\n"
          ∷ text 4 "{\n"
          ∷ text 5 "uint64_t evalue = v.GetUint64();\n"
          ∷ entry 5 "r.%s = %s(evalue);\n" (member ∷ member_type ∷ [])
          ∷ text 4 "}\n"
          ∷ text 4 "else\n"
          ∷ text 4 "{\n"
          ∷ text 5 "return false;\n"
          ∷ text 4 "}\n"
          ∷ []
        else text 4 "return false;\n" ∷ [])
    ++ (text 3 "}\n" ∷ text 2 "}\n" ∷ [])

-- A single object.
unfoldable pub deserialize_object : (is_required : Bool) → List (Entry MemberSlot)
deserialize_object is_required =
    (entry 2 "// Deserialize object type '%s' into member variable '%s'\n"
        (member_type ∷ member ∷ [])
      ∷ entry 2 "auto found = d.FindMember(\"%s\");\n" (member ∷ [])
      ∷ text 2 "if (found != d.MemberEnd())\n"
      ∷ text 2 "{\n"
      ∷ entry 3 "%s h;\n" (member_type ∷ [])
      ∷ text 3 "if ( deserializeFrom(found->value, h) )\n"
      ∷ text 3 "{\n"
      ∷ entry 4 "r.%s = h;\n" (member ∷ [])
      ∷ text 3 "}\n"
      ∷ text 3 "else\n"
      ∷ text 3 "{\n"
      ∷ text 4 "return false;\n"
      ∷ text 3 "}\n"
      ∷ text 2 "}\n"
      ∷ [])
    ++ (if is_required
        then text 2 "else\n" ∷ text 2 "{\n" ∷ text 3 "return false;\n" ∷ text 2 "}\n" ∷ []
        else [])

unfoldable pub deserialize_unknown : List (Entry MemberSlot)
deserialize_unknown = text 2 "// TODO: Need to deserialize this type.\n" ∷ []

-- What stands around each member.
unfoldable pub open_member : List (Entry MemberSlot)
open_member =
    entry 1 "// Deserialize member: '%s' of type '%s'\n" (member ∷ member_type ∷ [])
    ∷ text 1 "{\n"
    ∷ []

unfoldable pub close_member : List (Entry MemberSlot)
close_member = text 1 "}\n" ∷ []

unfoldable pub deserialize_head : (has_base : Bool) → List (Entry ObjectSlot)
deserialize_head has_base =
    (empty_line
      ∷ entry 0 "// Deserialize object %s\n" (object_name ∷ [])
      ∷ text 0 "template<typename DocumentOrObject>\n"
      ∷ entry 0 "bool deserializeFrom(const DocumentOrObject& d, %s& r)\n" (object_name ∷ [])
      ∷ text 0 "{\n"
      ∷ [])
    ++ (if has_base
        then entry 1 "//Deserialize the base class (%s) first.\n" (base_name ∷ [])
          ∷ entry 1 "if ( !deserializeFrom(d,static_cast<%s&>(r)))\n" (base_name ∷ [])
          ∷ text 1 "{\n"
          ∷ text 2 "return false;\n"
          ∷ text 1 "}\n"
          ∷ []
        else [])

unfoldable pub deserialize_tail : List (Entry ObjectSlot)
deserialize_tail =
    text 0 "    return true;\n"
    ∷ text 0 "}\n"
    ∷ empty_line
    ∷ empty_line
    ∷ entry 0 "template struct details::Deserialize<%s>;\n" (object_name ∷ [])
    ∷ empty_line
    ∷ []
