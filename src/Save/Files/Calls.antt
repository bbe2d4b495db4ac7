-- ===== src/Save/Files/Calls.antt =====
-- The calls of `DOM::saveCPP`, `DOM::saveTypeScript`, `DOM::saveSerialize` and
-- `CreateDOMDef::saveCPP` of src/CreateDOM.cpp around what the objects print.
use schema_code_gen.Base.{List, [], ◌∷◌, Bytes}
use schema_code_gen.Dom.{Dom}
use schema_code_gen.Emit.{Entry, entry, text, empty_line}

-- `mURL`, `mFilename` and `mNamespace`
pub data FileSlot : Type 0 where
  file_url file_name file_namespace : FileSlot

abbrev pub file_slot : Dom → FileSlot → Bytes
file_slot d file_url = d.url
file_slot d file_name = d.filename
file_slot d file_namespace = d.namespace

-- The header, up to the first object.
unfoldable pub header_begin : List (Entry FileSlot)
header_begin =
    text 0 "#pragma once\n"
    ∷ text 0 "\n"
    ∷ text 0 "// clang-format off\n"
    ∷ text 0 "// CreateDOM: Schema Generation tool written by John W. Ratcliff, 2017\n"
    ∷ text 0
        "// Warning:This source file was auto-generated by the CreateDOM tool. Do not try to edit this source file manually!\n"
    ∷ entry 0 "// The Google DOCs Schema Spreadsheet for this source came from: %s\n"
        (file_url ∷ [])
    ∷ text 0 "\n"
    ∷ text 0 "#ifdef _MSC_VER\n"
    ∷ text 0 "#pragma warning(push)\n"
    ∷ text 0 "#pragma warning(disable:4244)\n"
    ∷ text 0 "#endif\n"
    ∷ text 0 "#include <vector>\n"
    ∷ text 0 "#include <unordered_map>\n"
    ∷ text 0 "#include <string>\n"
    ∷ text 0 "#include <stdint.h>\n"
    ∷ text 0 "#include <string.h>\n"
    ∷ text 0 "\n"
    ∷ text 0 "#define USE_OPTIONAL 1\n"
    ∷ text 0 "\n"
    ∷ text 0 "#if __has_include(<optional>) && USE_OPTIONAL == 1\n"
    ∷ text 0 "#include <optional>\n"
    ∷ text 0 "#else\n"
    ∷ text 0 "#define NO_OPTIONAL\n"
    ∷ text 0 "#endif\n"
    ∷ text 0 "\n"
    ∷ text 0 "namespace codegen\n"
    ∷ text 0 "{\n"
    ∷ text 0 "template<typename T>\n"
    ∷ text 0 "#ifdef NO_OPTIONAL\n"
    ∷ text 0 "using optional = T;\n"
    ∷ text 0 "#else\n"
    ∷ text 0 "using optional = std::optional<T>;\n"
    ∷ text 0 "#endif\n"
    ∷ text 0 "}\n"
    ∷ text 0 "namespace rapidjson\n"
    ∷ text 0 "{\n"
    ∷ text 0 "    class RapidJSONDocument;\n"
    ∷ text 0 "}\n"
    ∷ text 0 "\n"
    ∷ entry 0 "namespace %s\n" (file_namespace ∷ [])
    ∷ text 0 "{\n"
    ∷ text 0 "\n"
    ∷ text 0 "\n"
    ∷ text 0 "// Forward declare the two types of string vector containers.\n"
    ∷ text 0 "\n"
    ∷ []

-- The header's declaration for the enums, and the beginning of the source file.
unfoldable pub declare_unstringify : List (Entry FileSlot)
declare_unstringify =
    empty_line
    ∷ text 0 "template<typename T>\n"
    ∷ text 0 "T unstringifyEnum(const std::string& str, bool& ok);\n"
    ∷ empty_line
    ∷ []

unfoldable pub source_begin : List (Entry FileSlot)
source_begin =
    text 0 "// clang-format off\n"
    ∷ text 0 "// CreateDOM: Schema Generation tool written by John W. Ratcliff, 2019\n"
    ∷ text 0 "// C++ binding code for enumeration lookups and initialization to default values.\n"
    ∷ entry 0 "// The Google DOCs Schema Spreadsheet for this source came from: %s\n"
        (file_url ∷ [])
    ∷ entry 0 "#include \"%s.h\"\n" (file_name ∷ [])
    ∷ text 0 "#include <assert.h>\n"
    ∷ text 0 "#include <unordered_map>\n"
    ∷ text 0 "#include <mutex>\n"
    ∷ text 0 "#include <string>\n"
    ∷ text 0 "#include <string.h>\n"
    ∷ text 0 "#ifdef _MSC_VER\n"
    ∷ text 0 "#pragma warning(disable:4996 4100)\n"
    ∷ text 0 "#endif\n"
    ∷ empty_line
    ∷ text 0 "#include \"RapidJSONDocument.h\"\n"
    ∷ empty_line
    ∷ entry 0 "namespace %s {\n" (file_namespace ∷ [])
    ∷ []

unfoldable pub serializer_begin : List (Entry FileSlot)
serializer_begin =
    empty_line
    ∷ empty_line
    ∷ text 0 "template<typename T, typename DocumentOrObject, typename Alloc>\n"
    ∷ text 0 "rapidjson::Document& serializeTo(const T& type, DocumentOrObject& d, Alloc& alloc);\n"
    ∷ empty_line
    ∷ text 0 "std::string serializeDocument(const rapidjson::Document& d)\n"
    ∷ text 0 "{\n"
    ∷ text 0 "    rapidjson::StringBuffer strbuf;\n"
    ∷ text 0 "    rapidjson::Writer<rapidjson::StringBuffer> writer(strbuf);\n"
    ∷ text 0 "    d.Accept(writer);\n"
    ∷ text 0 "    return strbuf.GetString();\n"
    ∷ text 0 "}\n"
    ∷ empty_line
    ∷ []

unfoldable pub header_end : List (Entry FileSlot)
header_end =
    entry 0 "} // End of namespace:%s\n" (file_namespace ∷ [])
    ∷ text 0 "#ifdef _MSC_VER\n"
    ∷ text 0 "#pragma warning(pop)\n"
    ∷ text 0 "#endif\n"
    ∷ []

unfoldable pub source_end : List (Entry FileSlot)
source_end = entry 0 "} // End of namespace:%s\n" (file_namespace ∷ []) ∷ []
