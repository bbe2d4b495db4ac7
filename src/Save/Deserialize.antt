-- ===== src/Save/Deserialize.antt =====
-- `Object::saveDeserialize` of src/CreateDOM.cpp: the code that reads an object from JSON.
pub mod Standard
pub mod Named
pub mod Nested
use schema_code_gen.Base.{
  Bool, true, false, not, ◌&&◌, ◌||◌, ◌++◌, List, [], ◌∷◌, Option, none, some, Bytes, codes,
  text_eq, if◌then◌else◌,
}
use schema_code_gen.Dom.{MemberVariable, Object, is_empty}
use schema_code_gen.Emit.{Entry, fill, empty_line}
use schema_code_gen.Outcome.{Outcome, ok, fault, assertion, ◌>>=◌}
use schema_code_gen.Printer.Lines.{Line}
use schema_code_gen.Save.Slots.{
  MemberSlot, member_slot, ObjectSlot, object_slot, is_required, enum_of,
}
use schema_code_gen.TypeNames.{
  StandardType, not_standard, float_type, double_type, get_standard_type, deserialize_type_name,
}
use Standard.{deserialize_map, deserialize_standard}
use Named.{
  deserialize_enum_map, deserialize_array, deserialize_enum, deserialize_object,
  deserialize_unknown, open_member, close_member, deserialize_head, deserialize_tail,
}

abbrev pub is_float : StandardType → Bool
is_float float_type = true
is_float _ = false

abbrev pub is_double : StandardType → Bool
is_double double_type = true
is_double _ = false

-- A map of numbers must be the only own member that is found by its name: `nonMapItems` is empty.
abbrev pub deserialize_known :
    MemberVariable → StandardType → (has_names : Bool) → Outcome (List (Entry MemberSlot))
deserialize_known i type has_names =
    let (getter, is_numeric) = deserialize_type_name type in
    if i.is_map
    then if is_numeric && has_names
      then fault assertion
      else ok (deserialize_map is_numeric has_names)
    else elim getter [
      | none ↦ ok []
      | some name ↦ ok (
          deserialize_standard is_numeric i.is_array (is_float type) (is_double type)
            (is_required i))
    ]

-- A type of the schema, which `enum_of` tells.
abbrev pub deserialize_named : MemberVariable → Option Bool → List (Entry MemberSlot)
deserialize_named i none = deserialize_unknown
deserialize_named i (some is_enum) =
    if i.is_array
    then (if i.is_map then deserialize_enum_map else deserialize_array is_enum (is_required i))
    else if is_enum
    then deserialize_enum i.serialize_enum_as_integer
    else deserialize_object (is_required i)

-- One round of the loop over the items, less the lines around.
unfoldable pub deserialize_body :
    List Object → (has_names : Bool) → MemberVariable → Outcome (List (Entry MemberSlot))
unfolding deserialize_type_name
deserialize_body os has_names i = elim (get_standard_type i.type) [
  | not_standard ↦ ok (deserialize_named i (enum_of os i.type none))
  | type ↦ deserialize_known i type has_names
]

abbrev pub deserialize_member :
    List Object → (has_names : Bool) → MemberVariable → Outcome (List Line)
deserialize_member os has_names i = deserialize_body os has_names i >>= λ es. ok (
    fill (member_slot i) open_member
    ++ (fill (member_slot i) es ++ fill (member_slot i) close_member))

unfoldable pub deserialize_members :
    List Object → (has_names : Bool) → List MemberVariable → Outcome (List Line)
unfolding deserialize_body open_member close_member member_slot
deserialize_members os has_names [] = ok []
deserialize_members os has_names (i ∷ items) =
    let rest = deserialize_members os has_names items in
    if is_empty i.inherits_from
    then (deserialize_member os has_names i >>= λ ls. rest >>= λ ms. ok (ls ++ ms))
    else rest

-- `!nonMapItems.empty()`
abbrev pub has_non_map : List MemberVariable → Bool
has_non_map [] = false
has_non_map (i ∷ items) = (is_empty i.inherits_from && not i.is_map) || has_non_map items

-- What goes into the source file.
unfoldable pub save_deserialize : List Object → Object → Outcome (List Line)
unfolding deserialize_members deserialize_head deserialize_tail
save_deserialize os o =
    if o.is_enum
    then ok []
    else deserialize_members os (has_non_map o.items) o.items >>= λ ls. ok (
        fill (object_slot o) (deserialize_head (not (is_empty o.inherits_from)))
        ++ (ls ++ fill (object_slot o) deserialize_tail))

-- What goes into the header.
unfoldable pub save_deserialize_header : Object → List Line
save_deserialize_header o = if o.is_enum then [] else fill (object_slot o) (empty_line ∷ [])
