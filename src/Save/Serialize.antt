-- ===== src/Save/Serialize.antt =====
-- `Object::saveSerialize` of src/CreateDOM.cpp: the code that writes an object as JSON.
pub mod Nested
use schema_code_gen.Base.{
  ℕ, Bool, true, false, not, ◌++◌, List, [], ◌∷◌, Option, none, some, Bytes, codes, text_eq,
  if◌then◌else◌,
}
use schema_code_gen.Dom.{OptionalType, optional, MemberVariable, Object, is_empty}
use schema_code_gen.Emit.{Entry, entry, text, empty_line, fill}
use schema_code_gen.Outcome.{Outcome, ok, fault, assertion, ◌>>=◌}
use schema_code_gen.Printer.Lines.{Line}
use schema_code_gen.Save.Slots.{
  MemberSlot, member, member_type, member_slot, ObjectSlot, object_name, base_name, object_slot,
  is_optional_value, enum_of,
}
use schema_code_gen.TypeNames.{is_standard_type}

-- A member of a standard type other than the string.
unfoldable pub serialize_standard : (is_array is_map is_optional : Bool) → List (Entry MemberSlot)
serialize_standard is_array is_map is_optional =
    if is_array
    then if is_map
      then entry 1 "// Serialize this map type: %s : %s\n" (member ∷ member_type ∷ [])
        ∷ entry 1 "for (auto &i : type._%s)\n" (member ∷ [])
        ∷ text 1 "{\n"
        ∷ text 1 "    d.AddMember(rapidjson::StringRef(i.first.c_str()), i.second, alloc);\n"
        ∷ text 1 "}\n"
        ∷ []
      else text 1 "{\n"
        ∷ text 1 "    rapidjson::Value varray(rapidjson::kArrayType);\n"
        ∷ entry 1 "    for (auto &i : type.%s)\n" (member ∷ [])
        ∷ text 1 "    {\n"
        ∷ text 1 "        rapidjson::Value v(i);\n"
        ∷ text 1 "        varray.PushBack(v, alloc);\n"
        ∷ text 1 "    }\n"
        ∷ entry 1 "    d.AddMember(\"%s\", varray, alloc);\n" (member ∷ [])
        ∷ text 1 "}\n"
        ∷ []
    else if is_optional
    then entry 1 "if ( type.%s.has_value() )\n" (member ∷ [])
      ∷ text 1 "{\n"
      ∷ entry 2 "d.AddMember(\"%s\",type.%s.value(),alloc);\n" (member ∷ member ∷ [])
      ∷ text 1 "}\n"
      ∷ []
    else entry 1 "d.AddMember(\"%s\",type.%s,alloc);\n" (member ∷ member ∷ []) ∷ []

-- A member of type `string`.
unfoldable pub serialize_string : (is_array is_map is_optional : Bool) → List (Entry MemberSlot)
serialize_string is_array is_map is_optional =
    if is_array
    then (if is_optional then entry 1 "if ( type.%s.has_value() )\n" (member ∷ []) ∷ [] else [])
      ++ (text 1 "{\n" ∷ text 1 "    rapidjson::Value v(rapidjson::kArrayType);\n" ∷ [])
      ++ (if is_map
          then entry 1 "    for (auto &i : type._%s)\n" (member ∷ []) ∷ []
          else entry 1 "    for (auto &i : type.%s)\n" (member ∷ []) ∷ [])
      ++ (text 1 "    {\n" ∷ [])
      ++ (if is_map
          then text 1
              "        d.AddMember(rapidjson::StringRef(i.first.c_str()), rapidjson::StringRef(i.second.c_str()), alloc);\n"
            ∷ []
          else text 1 "        rapidjson::Value item(rapidjson::StringRef(i.c_str()));\n"
            ∷ text 1 "        v.PushBack(item, alloc);\n"
            ∷ [])
      ++ (text 1 "    }\n" ∷ [])
      ++ (if not is_map
          then entry 1 "    d.AddMember(\"%s\", v, alloc);\n" (member ∷ []) ∷ []
          else [])
      ++ (text 1 "}\n" ∷ [])
    else if is_optional
    then entry 1 "if ( type.%s.has_value() )\n" (member ∷ [])
      ∷ text 1 "{\n"
      ∷ entry 2 "d.AddMember(\"%s\",rapidjson::StringRef(type.%s.value().c_str()),alloc);\n"
          (member ∷ member ∷ [])
      ∷ text 1 "}\n"
      ∷ []
    else entry 1 "d.AddMember(\"%s\",rapidjson::StringRef(type.%s.c_str()),alloc);\n"
        (member ∷ member ∷ [])
      ∷ []

-- An array or map of a type of the schema.
unfoldable pub serialize_array : (is_map is_enum : Bool) → List (Entry MemberSlot)
serialize_array is_map is_enum =
    (text 1 "{\n" ∷ [])
    ++ (if is_map
        then entry 2 "for (auto &i : type._%s)\n" (member ∷ [])
          ∷ text 2 "{\n"
          ∷ text 3 "rapidjson::Value v(rapidjson::kArrayType);\n"
          ∷ text 3 "for (auto &j : i.second)\n"
          ∷ text 3 "{\n"
          ∷ text 4 "const char *name = stringifyEnum(j);\n"
          ∷ text 4 "rapidjson::Value item(rapidjson::StringRef(name));\n"
          ∷ text 4 "v.PushBack(item, alloc);\n"
          ∷ text 3 "}\n"
          ∷ text 3 "d.AddMember(rapidjson::StringRef(i.first.c_str()), v, alloc);\n"
          ∷ text 2 "}\n"
          ∷ []
        else (text 2 "rapidjson::Value array(rapidjson::kArrayType);\n"
            ∷ entry 2 "for (auto &i : type.%s)\n" (member ∷ [])
            ∷ text 2 "{\n"
            ∷ [])
          ++ (if is_enum
              then text 3 "rapidjson::Value v(rapidjson::StringRef(stringifyEnum(i)));\n" ∷ []
              else text 3 "rapidjson::Value v(rapidjson::kObjectType);\n"
                ∷ text 3 "serializeTo(i, v, alloc);\n"
                ∷ [])
          ++ (text 3 "array.PushBack(v, alloc);\n"
              ∷ text 2 "}\n"
              ∷ entry 2 "d.AddMember(\"%s\", array, alloc);\n" (member ∷ [])
              ∷ []))
    ++ (text 1 "}\n" ∷ [])

-- A single enum.
unfoldable pub serialize_enum : (is_optional as_integer : Bool) → List (Entry MemberSlot)
serialize_enum is_optional as_integer =
    if is_optional
    then (entry 1 "if ( type.%s.has_value() )\n" (member ∷ []) ∷ text 1 "{\n" ∷ [])
      ++ (if as_integer
          then entry 2 "d.AddMember(\"%s\",uint64_t(type.%s.value()),alloc);\n"
              (member ∷ member ∷ [])
            ∷ []
          else entry 2
              "d.AddMember(\"%s\",rapidjson::StringRef(stringifyEnum(type.%s.value())),alloc);\n"
              (member ∷ member ∷ [])
            ∷ [])
      ++ (text 1 "}\n" ∷ [])
    else if as_integer
    then entry 1 "d.AddMember(\"%s\",uint64_t(type.%s),alloc);\n" (member ∷ member ∷ []) ∷ []
    else entry 1 "d.AddMember(\"%s\",rapidjson::StringRef(stringifyEnum(type.%s)),alloc);\n"
        (member ∷ member ∷ [])
      ∷ []

-- A single object.
unfoldable pub serialize_object : (is_optional : Bool) → List (Entry MemberSlot)
serialize_object is_optional =
    (if is_optional then entry 1 "if ( type.%s.has_value() )\n" (member ∷ []) ∷ [] else [])
    ++ (text 1 "{\n" ∷ text 2 "rapidjson::Value v(rapidjson::kObjectType);\n" ∷ [])
    ++ (if is_optional
        then entry 2 "serializeTo(type.%s.value(),v,alloc);\n" (member ∷ []) ∷ []
        else entry 2 "serializeTo(type.%s,v,alloc);\n" (member ∷ []) ∷ [])
    ++ (entry 2 "d.AddMember(\"%s\",v,alloc);\n" (member ∷ []) ∷ text 1 "}\n" ∷ [])

-- A member of a type of the schema.
abbrev pub serialize_named : MemberVariable → Bool → List (Entry MemberSlot)
serialize_named i is_enum =
    if i.is_array
    then serialize_array i.is_map is_enum
    else if is_enum
    then serialize_enum (is_optional_value i) i.serialize_enum_as_integer
    else serialize_object (is_optional_value i)

abbrev pub serialize_found : MemberVariable → Option Bool → Outcome (List Line)
serialize_found i none = fault assertion
serialize_found i (some is_enum) = ok (fill (member_slot i) (serialize_named i is_enum))

-- One round of the loop over the items. The objects give the map of classes and enums.
unfoldable pub serialize_member : List Object → MemberVariable → Outcome (List Line)
serialize_member os i =
    if is_standard_type i.type
    then ok (fill (member_slot i) (serialize_standard i.is_array i.is_map (is_optional_value i)))
    else if text_eq i.type (codes "string")
    then ok (fill (member_slot i) (serialize_string i.is_array i.is_map (is_optional_value i)))
    else serialize_found i (enum_of os i.type none)

-- An inherited item is skipped.
unfoldable pub serialize_members : List Object → List MemberVariable → Outcome (List Line)
unfolding serialize_member
serialize_members os [] = ok []
serialize_members os (i ∷ items) =
    let rest = serialize_members os items in
    if is_empty i.inherits_from
    then (serialize_member os i >>= λ ls. rest >>= λ ms. ok (ls ++ ms))
    else rest

unfoldable pub serialize_head : (has_base : Bool) → List (Entry ObjectSlot)
serialize_head has_base =
    (empty_line
      ∷ text 0 "template<typename DocumentOrObject, typename Alloc>\n"
      ∷ entry 0 "DocumentOrObject& serializeTo(const %s& type, DocumentOrObject& d, Alloc& alloc)\n"
          (object_name ∷ [])
      ∷ text 0 "{\n"
      ∷ [])
    ++ (if has_base
        then entry 1 "serializeTo(static_cast<const %s&>(type), d, alloc);\n" (base_name ∷ []) ∷ []
        else [])

unfoldable pub serialize_tail : List (Entry ObjectSlot)
serialize_tail =
    text 0 "    return d;\n"
    ∷ text 0 "}\n"
    ∷ empty_line
    ∷ entry 0 "std::string serialize(const %s& type)\n" (object_name ∷ [])
    ∷ text 0 "{\n"
    ∷ text 0 "    rapidjson::Document d;\n"
    ∷ text 0 "    d.SetObject();\n"
    ∷ text 0 "    serializeTo(type, d, d.GetAllocator());\n"
    ∷ text 0 "    return serializeDocument(d);\n"
    ∷ text 0 "}\n"
    ∷ empty_line
    ∷ []

-- What goes into the source file.
unfoldable pub save_serialize : List Object → Object → Outcome (List Line)
unfolding serialize_members serialize_head serialize_tail
save_serialize os o =
    if o.is_enum
    then ok []
    else serialize_members os o.items >>= λ ls. ok (
        fill (object_slot o) (serialize_head (not (is_empty o.inherits_from)))
        ++ (ls ++ fill (object_slot o) serialize_tail))

abbrev pub serialize_declaration : List (Entry ObjectSlot)
serialize_declaration =
    empty_line ∷ entry 0 "std::string serialize(const %s& type);\n" (object_name ∷ []) ∷ []

-- What goes into the header.
unfoldable pub save_serialize_header : Object → List Line
save_serialize_header o = if o.is_enum then [] else fill (object_slot o) serialize_declaration
