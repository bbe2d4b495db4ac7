-- ===== src/Proto.antt =====
-- `Object::savePROTO` of src/CreateDOM.cpp: an object as an enum or a message of a protobuf
-- specification, and the list of array types that the calls share.
pub mod Message
use schema_code_gen.Base.{
  ℕ, ◌+◌, ◌-◌, ◌%◌, ◌^◌, Bool, true, false, not, ◌&&◌, ◌++◌, List, [], ◌∷◌, Bytes, codes, ltb, leb,
  length, if◌then◌else◌,
}
use schema_code_gen.CString.Numbers.{print_nat}
use schema_code_gen.CString.{stricmp_eq}
use schema_code_gen.Dom.{MemberVariable, Object, is_empty, contains}
use schema_code_gen.Outcome.{Outcome, ok, fault, unterminated, ◌>>=◌}
use schema_code_gen.Printer.{CodePrinter, print_code}
use schema_code_gen.TypeNames.{get_proto_type_string}

-- `lowerCase`
abbrev lower_case : ℕ → ℕ
lower_case c = if leb b'A' c && leb c b'Z' then c + 32 else c

abbrev pub lower_first : Bytes → Bytes
lower_first [] = []
lower_first (c ∷ s) = lower_case c ∷ s

-- `%d` for a `uint32_t`, and `id++`.
unfoldable pub print_id : ℕ → Bytes
unfolding print_nat
print_id id = if ltb id (2 ^ 31) then print_nat id else b'-' ∷ print_nat (2 ^ 32 - id)

abbrev pub next_id : ℕ → ℕ
next_id id = (id + 1) % 2 ^ 32

abbrev pub comment_text : Bytes → Bytes
comment_text s = codes "// " ++ s ++ codes "\n"

abbrev pub save_comment : Bytes → CodePrinter → CodePrinter
save_comment s p = if is_empty s then p else print_code 0 (comment_text s) p

-- The empty line and the comments that an object begins with.
abbrev pub save_comments : Object → CodePrinter → CodePrinter
save_comments o p =
    save_comment o.long_description (save_comment o.short_description (print_code 0 (codes "\n") p))

unfoldable enum_items : ℕ → List MemberVariable → CodePrinter → CodePrinter
unfolding print_code print_id
enum_items id [] p = p
enum_items id (i ∷ items) p = enum_items (next_id id) items (
    print_code 10 (comment_text i.short_description)
      (print_code 1 (i.member ++ codes " = " ++ print_id id ++ codes ";") p))

unfoldable save_enum : Object → CodePrinter → CodePrinter
unfolding enum_items print_code
save_enum o p =
    let opened =
      print_code 0 (codes "{\n")
        (print_code 0 (codes "enum " ++ o.name ++ codes "\n") (save_comments o p)) in
    print_code 0 (codes "\n") (print_code 0 (codes "}\n") (enum_items 0 o.items opened))

-- The types of arrays, each once.
unfoldable pub register_arrays : List Bytes → List MemberVariable → List Bytes
register_arrays arrays [] = arrays
register_arrays arrays (i ∷ items) =
    register_arrays
      (if i.is_array
        then (if contains arrays i.type then arrays else arrays ++ i.type ∷ [])
        else arrays)
      items

-- An inherited item with a default value is skipped.
abbrev pub is_skipped : MemberVariable → Bool
is_skipped i = not (is_empty i.inherits_from) && not (is_empty i.default_value)

abbrev pub proto_type_name : MemberVariable → Bytes
proto_type_name i = get_proto_type_string (if is_empty i.proto_type then i.type else i.proto_type)

-- A field or a subtype before its number, and with it.
abbrev pub field_entry : MemberVariable → Bytes
field_entry i =
    (if i.is_array then codes "repeated " else []) ++ proto_type_name i ++ codes " " ++ i.member

abbrev pub subtype_entry : Bytes → Bytes
subtype_entry k = k ++ codes " " ++ lower_first k

abbrev pub entry_text : Bytes → ℕ → Bytes
entry_text entry id = entry ++ codes " = " ++ print_id id ++ codes ";\n"

-- The loop over the items, with the number that is free behind it.
unfoldable pub save_fields : ℕ → List MemberVariable → CodePrinter → CodePrinter × ℕ
unfolding print_code print_id get_proto_type_string
save_fields id [] p = (p, id)
save_fields id (i ∷ items) p =
    let skipped = save_fields id items p in
    let printed = save_fields (next_id id) items (print_code 1 (entry_text (field_entry i) id) p) in
    if is_skipped i then skipped else printed

-- The loop over the children; their names are copied into a buffer of 512 bytes.
unfoldable pub save_subtypes : ℕ → List Bytes → CodePrinter → Outcome CodePrinter
unfolding print_code print_id
save_subtypes id [] p = ok p
save_subtypes id (k ∷ children) p =
    let rest =
      save_subtypes (next_id id) children (print_code 2 (entry_text (subtype_entry k) id) p) in
    if leb 512 (length k) then fault unterminated else rest

unfoldable pub save_children : ℕ → List Bytes → CodePrinter → Outcome CodePrinter
unfolding save_subtypes print_code
save_children id [] p = ok p
save_children id (k ∷ children) p =
    save_subtypes id (k ∷ children)
      (print_code 1 (codes "{\n") (print_code 1 (codes "oneof subtype\n") p))
    >>= λ q. ok (print_code 0 (codes "\n") (print_code 1 (codes "}\n") q))

abbrev pub open_message : Object → CodePrinter → CodePrinter
open_message o p =
    print_code 0 (codes "{\n")
      (print_code 0 (codes "\n") (print_code 0 (codes "message " ++ o.name) (save_comments o p)))

unfoldable pub save_message : Object → CodePrinter → Outcome CodePrinter
unfolding save_fields save_children print_code
save_message o p =
    let (q, id) = save_fields 1 o.items (open_message o p) in
    save_children id o.children q >>= λ r.
    ok (print_code 0 (codes "\n") (print_code 0 (codes "}\n") r))

unfoldable pub save_proto : Object → CodePrinter → List Bytes → Outcome (CodePrinter × List Bytes)
unfolding save_enum save_message register_arrays stricmp_eq
save_proto o p arrays =
    if stricmp_eq o.type (codes "Enum")
    then ok (save_enum o p, arrays)
    else save_message o p >>= λ q. ok (q, register_arrays arrays o.items)
