-- ===== src/Save/Script.antt =====
-- The definition in TypeScript that `Object::saveTypeScript` of src/CreateDOM.cpp prints.
pub mod Nested
use schema_code_gen.Base.{
  Bool, true, false, ◌++◌, List, [], ◌∷◌, Bytes, codes, not, text_eq, if◌then◌else◌,
}
use schema_code_gen.CString.{stricmp_eq}
use schema_code_gen.Dom.{MemberVariable, Object, is_empty}
use schema_code_gen.Emit.Nested.{each}
use schema_code_gen.Emit.{Entry, entry, text, fill}
use schema_code_gen.Printer.Lines.{Line}
use schema_code_gen.Save.Slots.{
  ObjectSlot, object_name, base_name, short_text, long_text, object_slot, EnumSlot, value_name,
  value_comment, enum_slot, is_required,
}

-- The names that TypeScript has for some types.
abbrev pub script_names : List (Bytes × Bytes)
script_names =
    (codes "u64", codes "uint64")
    ∷ (codes "u32", codes "uint32")
    ∷ (codes "u16", codes "uint16")
    ∷ (codes "u8", codes "uint8")
    ∷ (codes "i64", codes "int64")
    ∷ (codes "i32", codes "int32")
    ∷ (codes "i16", codes "int16")
    ∷ (codes "i8", codes "int8")
    ∷ (codes "bool", codes "boolean")
    ∷ []

abbrev pub renamed : List (Bytes × Bytes) → Bytes → Bytes
renamed [] type = type
renamed ((name, word) ∷ names) type = if text_eq type name then word else renamed names type

-- The tests of the type, in the order of the source.
unfoldable pub type_script_name : Bytes → Bytes
type_script_name = renamed script_names

pub data ScriptSlot : Type 0 where
  ts_member ts_map_type question_mark ts_type brackets ts_comment : ScriptSlot

unfoldable pub script_slot : MemberVariable → ScriptSlot → Bytes
unfolding type_script_name
script_slot i ts_member = i.member
script_slot i ts_map_type = i.map_type
script_slot i question_mark = if is_required i then [] else codes "?"
script_slot i ts_type = type_script_name i.type
script_slot i brackets = if i.is_array then codes "[]" else []
script_slot i ts_comment = i.short_description

-- The empty line and the comments before an object.
unfoldable pub script_comments : (has_short has_long : Bool) → List (Entry ObjectSlot)
script_comments has_short has_long =
    (text 0 "\n" ∷ [])
    ++ (if has_short then entry 0 "// %s\n" (short_text ∷ []) ∷ [] else [])
    ++ (if has_long then entry 0 "// %s\n" (long_text ∷ []) ∷ [] else [])

unfoldable pub open_script_enum : List (Entry ObjectSlot)
open_script_enum = entry 0 "enum %s\n" (object_name ∷ []) ∷ text 0 "{\n" ∷ []

unfoldable pub script_value : List (Entry EnumSlot)
script_value = entry 1 "%s," (value_name ∷ []) ∷ entry 10 "// %s\n" (value_comment ∷ []) ∷ []

unfoldable pub close_script_enum : List (Entry ObjectSlot)
close_script_enum = text 0 "}\n" ∷ text 0 "\n" ∷ []

unfoldable pub open_script_type : (has_base : Bool) → List (Entry ObjectSlot)
open_script_type has_base =
    (entry 0 "type %s " (object_name ∷ []) ∷ [])
    ++ (if has_base then entry 0 " = %s & {\n" (base_name ∷ []) ∷ [] else text 0 " = {\n" ∷ [])

unfoldable pub script_field : (is_map : Bool) → List (Entry ScriptSlot)
script_field is_map =
    if is_map
    then entry 1 "[%s%s]%s: %s%s // %s\n"
        (ts_member ∷ ts_map_type ∷ question_mark ∷ ts_type ∷ brackets ∷ ts_comment ∷ [])
      ∷ []
    else entry 1 "%s%s: %s%s // %s\n"
        (ts_member ∷ question_mark ∷ ts_type ∷ brackets ∷ ts_comment ∷ [])
      ∷ []

unfoldable pub close_script_type : List (Entry ObjectSlot)
close_script_type = text 0 "}\n\n" ∷ []

-- Items of the name `_skip_` and inherited items are left out.
abbrev pub script_item : MemberVariable → List Line
script_item i =
    if text_eq i.member (codes "_skip_")
    then []
    else if is_empty i.inherits_from
    then fill (script_slot i) (script_field i.is_map)
    else []

unfoldable pub save_script : Object → List Line
unfolding script_comments open_script_enum script_value close_script_enum open_script_type
    script_field close_script_type stricmp_eq script_slot
save_script o =
    fill (object_slot o)
      (script_comments (not (is_empty o.short_description)) (not (is_empty o.long_description)))
    ++ (if stricmp_eq o.type (codes "Enum")
        then fill (object_slot o) open_script_enum
          ++ (each (λ i. fill (enum_slot o i) script_value) o.items
              ++ fill (object_slot o) close_script_enum)
        else fill (object_slot o) (open_script_type (not (is_empty o.inherits_from)))
          ++ (each script_item o.items ++ fill (object_slot o) close_script_type))
