-- ===== src/Save/Files/Deserializer.antt =====
-- The calls of `DOM::saveDeserialize` of src/CreateDOM.cpp before those of the objects.
use schema_code_gen.Base.{List, [], ◌∷◌}
use schema_code_gen.Emit.{Entry, text, empty_line}
use schema_code_gen.Save.Files.Calls.{FileSlot}

-- The functions from texts to integers, in the source file.
unfoldable pub string_to_int : List (Entry FileSlot)
string_to_int =
    empty_line
    ∷ text 0 "/*\n"
    ∷ text 0 "* Deserialization implementation\n"
    ∷ text 0 "*/\n"
    ∷ text 0 "int64_t atoi64(const char* str)\n"
    ∷ text 0 "{\n"
    ∷ text 0 "    int64_t ret = 0;\n"
    ∷ text 0 "\n"
    ∷ text 0 "    if (str)\n"
    ∷ text 0 "    {\n"
    ∷ text 0 "#ifdef _MSC_VER\n"
    ∷ text 0 "        ret = _atoi64(str);\n"
    ∷ text 0 "#else\n"
    ∷ text 0 "    ret = strtoul(str, nullptr, 10);\n"
    ∷ text 0 "#endif\n"
    ∷ text 0 "    }\n"
    ∷ text 0 "    return ret;\n"
    ∷ text 0 "}\n"
    ∷ text 0 "// Helper method to convert a string to an integer of this type\n"
    ∷ text 0 "void stringToInt(const char *str, uint64_t &v)\n"
    ∷ text 0 "{\n"
    ∷ text 0 "    v = uint64_t(atoi64(str));\n"
    ∷ text 0 "}\n"
    ∷ text 0 "\n"
    ∷ text 0 "\n"
    ∷ text 0 "// Helper method to convert a string to an integer of this type\n"
    ∷ text 0 "void stringToInt(const char *str, uint32_t &v)\n"
    ∷ text 0 "{\n"
    ∷ text 0 "    v = uint32_t(atoi(str));\n"
    ∷ text 0 "}\n"
    ∷ text 0 "\n"
    ∷ text 0 "\n"
    ∷ text 0 "// Helper method to convert a string to an integer of this type\n"
    ∷ text 0 "void stringToInt(const char *str, uint16_t &v)\n"
    ∷ text 0 "{\n"
    ∷ text 0 "    v = uint16_t(atoi(str));\n"
    ∷ text 0 "}\n"
    ∷ text 0 "\n"
    ∷ text 0 "\n"
    ∷ text 0 "// Helper method to convert a string to an integer of this type\n"
    ∷ text 0 "void stringToInt(const char *str, uint8_t &v)\n"
    ∷ text 0 "{\n"
    ∷ text 0 "    v = uint8_t(atoi(str));\n"
    ∷ text 0 "}\n"
    ∷ text 0 "\n"
    ∷ text 0 "\n"
    ∷ text 0 "// Helper method to convert a string to an integer of this type\n"
    ∷ text 0 "void stringToInt(const char *str, int64_t &v)\n"
    ∷ text 0 "{\n"
    ∷ text 0 "    v = int64_t(atoi64(str));\n"
    ∷ text 0 "}\n"
    ∷ text 0 "\n"
    ∷ text 0 "\n"
    ∷ text 0 "// Helper method to convert a string to an integer of this type\n"
    ∷ text 0 "void stringToInt(const char *str, int32_t &v)\n"
    ∷ text 0 "{\n"
    ∷ text 0 "    v = int32_t(atoi(str));\n"
    ∷ text 0 "}\n"
    ∷ text 0 "\n"
    ∷ text 0 "\n"
    ∷ text 0 "// Helper method to convert a string to an integer of this type\n"
    ∷ text 0 "void stringToInt(const char *str, int16_t &v)\n"
    ∷ text 0 "{\n"
    ∷ text 0 "    v = int16_t(atoi(str));\n"
    ∷ text 0 "}\n"
    ∷ text 0 "\n"
    ∷ text 0 "\n"
    ∷ text 0 "// Helper method to convert a string to an integer of this type\n"
    ∷ text 0 "void stringToInt(const char *str, int8_t &v)\n"
    ∷ text 0 "{\n"
    ∷ text 0 "    v = int8_t(atoi(str));\n"
    ∷ text 0 "}\n"
    ∷ empty_line
    ∷ []

-- The functions that parse a document.
unfoldable pub deserializer_begin : List (Entry FileSlot)
deserializer_begin =
    text 0 "template<typename DocumentOrObject, typename T>\n"
    ∷ text 0 "bool deserializeFrom(const DocumentOrObject&, T&);\n"
    ∷ empty_line
    ∷ text 0 "rapidjson::Document deserializeDocument(const char* in)\n"
    ∷ text 0 "{\n"
    ∷ text 1 "rapidjson::Document d;\n"
    ∷ text 1 "d.Parse(in);\n"
    ∷ text 1 "return d;\n"
    ∷ text 0 "}\n"
    ∷ empty_line
    ∷ text 0 "namespace details\n"
    ∷ text 0 "{\n"
    ∷ text 0 "    template<typename T>\n"
    ∷ text 0 "    T Deserialize<T>::deserialize(const char* in, bool& deserializedOk)\n"
    ∷ text 0 "    {\n"
    ∷ text 0 "        const auto d = deserializeDocument(in);\n"
    ∷ text 0 "        T result;\n"
    ∷ text 0 "        deserializedOk = deserializeFrom(d, result);\n"
    ∷ text 0 "        return result;\n"
    ∷ text 0 "    }\n"
    ∷ text 0 "    template<typename T>\n"
    ∷ text 0
        "    T Deserialize<T>::deserialize(const rapidjson::RapidJSONDocument &d, bool& deserializedOk)\n"
    ∷ text 0 "    {\n"
    ∷ text 0 "        T result;\n"
    ∷ text 0 "        deserializedOk = deserializeFrom(d, result);\n"
    ∷ text 0 "        return result;\n"
    ∷ text 0 "    }\n"
    ∷ text 0 "}\n"
    ∷ empty_line
    ∷ []

-- The templates in the header.
unfoldable pub deserializer_header : List (Entry FileSlot)
deserializer_header =
    empty_line
    ∷ text 0 "/*\n"
    ∷ text 0 " * Deserialization\n"
    ∷ text 0 " */\n"
    ∷ empty_line
    ∷ text 0 "namespace details\n"
    ∷ text 0 "{\n"
    ∷ text 0 "\n"
    ∷ text 0 "    template<typename T>\n"
    ∷ text 0 "    struct Deserialize\n"
    ∷ text 0 "    {\n"
    ∷ text 0 "        static T deserialize(const char* in, bool& deserializedOk);\n"
    ∷ text 0
        "        static T deserialize(const rapidjson::RapidJSONDocument &d, bool& deserializedOk);\n"
    ∷ text 0 "    };\n"
    ∷ text 0 "}\n"
    ∷ text 0 "\n"
    ∷ text 0 "template<typename T>\n"
    ∷ text 0 "T deserialize(const char* in, bool& deserializedOk)\n"
    ∷ text 0 "{\n"
    ∷ text 0 "    return details::Deserialize<T>::deserialize(in, deserializedOk);\n"
    ∷ text 0 "}\n"
    ∷ text 0 "\n"
    ∷ text 0 "template<typename T>\n"
    ∷ text 0 "T deserialize(const std::string& in, bool& deserializedOk)\n"
    ∷ text 0 "{\n"
    ∷ text 0 "    return details::Deserialize<T>::deserialize(in.c_str(), deserializedOk);\n"
    ∷ text 0 "}\n"
    ∷ text 0 "template<typename T>\n"
    ∷ text 0 "T deserialize(const rapidjson::RapidJSONDocument &in, bool& deserializedOk)\n"
    ∷ text 0 "{\n"
    ∷ text 0 "    return details::Deserialize<T>::deserialize(in, deserializedOk);\n"
    ∷ text 0 "}\n"
    ∷ empty_line
    ∷ []
