-- ===== src/Save/Class.antt =====
-- The first `Object::saveCPP` of src/CreateDOM.cpp: the C++ declaration of an alias, an enum or a
-- class, as `isDef` false leaves it.
pub mod Calls
pub mod Fields
pub mod Texts
pub mod Around
pub mod Methods
pub mod Nested
use schema_code_gen.Base.{
  ℕ, Bool, true, false, not, ◌&&◌, ◌||◌, ◌++◌, List, [], ◌∷◌, Bytes, codes, text_eq, leb, length,
  if◌then◌else◌,
}
use schema_code_gen.CString.{stricmp_eq}
use schema_code_gen.Dom.{MemberVariable, Object, Dom, is_empty}
use schema_code_gen.Emit.Nested.{each}
use schema_code_gen.Emit.{Entry, fill}
use schema_code_gen.Outcome.{Outcome, ok, fault, assertion, unterminated, ◌>>=◌}
use schema_code_gen.Printer.Lines.{Line}
use schema_code_gen.Save.Slots.{ObjectSlot, object_slot, enum_slot, is_optional_value}
use schema_code_gen.TypeNames.{get_cpp_type_string}
use schema_code_gen.Values.{FloatStream}
use Calls.{
  using_alias, open_enum, enum_value, close_enum, open_class, open_is_member, close_is_member,
  NameSlot, tested_name, single_test, first_test, middle_test, last_test, found_lines,
  open_equality, close_equality, open_assignment, assignment_body, close_assignment,
  open_constructor, close_constructor, close_class,
}
use Fields.{
  is_named, FieldSlot, field_slot, compare_field, assign_argument, assign_field, default_field,
  array_field_type, field_type, field_value, array_operator,
}

abbrev pub name_slot : Bytes → NameSlot → Bytes
name_slot name tested_name = name

-- `nonMapItems`
abbrev pub non_map_items : List MemberVariable → List Bytes
non_map_items [] = []
non_map_items (i ∷ items) =
    let rest = non_map_items items in if i.is_map then rest else i.member ∷ rest

abbrev pub other_tests : Bytes → List Bytes → List Line
other_tests n [] = fill (name_slot n) last_test
other_tests n (m ∷ names) = fill (name_slot n) middle_test ++ other_tests m names

abbrev pub name_tests : Object → List Bytes → List Line
name_tests o [] = []
name_tests o (n ∷ []) = fill (name_slot n) single_test
name_tests o (n ∷ m ∷ names) =
    fill (name_slot n) first_test ++ (other_tests m names ++ fill (object_slot o) found_lines)

abbrev pub own : MemberVariable → Bool
own i = is_empty i.inherits_from

-- An inherited item with a default value.
abbrev pub sets_inherited : MemberVariable → Bool
sets_inherited i = not (own i) && not (is_empty i.default_value)

abbrev pub has_inherited_default : List MemberVariable → Bool
has_inherited_default [] = false
has_inherited_default (i ∷ items) = sets_inherited i || has_inherited_default items

-- The name of an array's type goes through a buffer of 512 bytes, except for a map of standard
-- types. A map is an array.
unfoldable pub declare_field : MemberVariable → Outcome (List (Entry FieldSlot))
unfolding array_field_type field_type field_value array_operator get_cpp_type_string
declare_field i =
    let value = field_value (i.is_pointer && not i.is_array) (not (is_empty i.default_value)) in
    if i.is_array
    then if i.is_string
      then ok (array_field_type true i.is_map ++ value)
      else if (not i.is_map || is_named i) && leb 512 (length (get_cpp_type_string i.type false))
      then fault unterminated
      else ok (
          array_field_type false i.is_map
          ++ (value ++ (if i.is_map then array_operator (is_named i) else [])))
    else if i.is_map
    then fault assertion
    else ok (field_type (is_optional_value i) ++ value)

module _ (f : FloatStream) (d : Dom) where
  abbrev pub compare_line : MemberVariable → List Line
  compare_line i = if own i then fill (field_slot f d i) compare_field else []

  abbrev pub assign_arguments : (need_comma : Bool) → List MemberVariable → List Line
  assign_arguments need_comma [] = []
  assign_arguments need_comma (i ∷ items) =
      fill (field_slot f d i) (assign_argument need_comma) ++ assign_arguments true items

  abbrev pub default_line : MemberVariable → List Line
  default_line i = if sets_inherited i then fill (field_slot f d i) default_field else []

  abbrev pub assignment_constructor : Object → List Line
  assignment_constructor o =
      (fill (object_slot o) open_assignment ++ assign_arguments false o.items)
      ++ (fill (object_slot o) assignment_body
          ++ (each (λ i. fill (field_slot f d i) assign_field) o.items
              ++ fill (object_slot o) close_assignment))

  abbrev pub default_constructor : Object → List Line
  default_constructor o =
      fill (object_slot o) open_constructor
      ++ (each default_line o.items ++ fill (object_slot o) close_constructor)

  -- The constructor of the assignment takes the place of the other one.
  unfoldable pub constructors : Object → List Line
  unfolding open_assignment assignment_body close_assignment open_constructor close_constructor
      assign_argument assign_field default_field field_slot
  constructors o =
      if o.assignment
      then assignment_constructor o
      else if has_inherited_default o.items
      then default_constructor o
      else []

  -- An inherited item is skipped.
  unfoldable pub declare_fields : List MemberVariable → Outcome (List Line)
  unfolding declare_field field_slot
  declare_fields [] = ok []
  declare_fields (i ∷ items) =
      let rest = declare_fields items in
      if own i
      then (declare_field i >>= λ es. rest >>= λ ls. ok (fill (field_slot f d i) es ++ ls))
      else rest

  -- `classBody`, before the fields.
  unfoldable pub class_methods : Object → List Line
  unfolding constructors open_is_member close_is_member single_test first_test middle_test last_test
      found_lines open_equality close_equality compare_field
  class_methods o =
      let has_base = not (is_empty o.inherits_from) in
      (fill (object_slot o) (open_is_member has_base)
        ++ (name_tests o (non_map_items o.items) ++ fill (object_slot o) close_is_member))
      ++ ((fill (object_slot o) (open_equality has_base)
            ++ (each compare_line o.items ++ fill (object_slot o) close_equality))
          ++ constructors o)

  abbrev pub class_lines : Object → Outcome (List Line)
  class_lines o = declare_fields o.items >>= λ fields. ok (
      fill (object_slot o) (
        open_class (not (is_empty o.short_description)) (not (is_empty o.long_description))
          (not (is_empty o.inherits_from)))
      ++ ((class_methods o ++ fields) ++ fill (object_slot o) close_class))

  abbrev pub enum_lines : Object → List Line
  enum_lines o =
      fill (object_slot o)
        (open_enum (not (is_empty o.short_description)) (not (is_empty o.long_description)))
      ++ (each (λ i. fill (enum_slot o i) (enum_value (not (is_empty i.default_value)))) o.items
          ++ fill (object_slot o) close_enum)

  unfoldable pub save_class : Object → Outcome (List Line)
  unfolding stricmp_eq declare_fields class_methods open_class close_class open_enum enum_value
      close_enum using_alias
  save_class o =
      if not (is_empty o.alias)
      then ok (if text_eq o.alias o.name then [] else fill (object_slot o) using_alias)
      else if stricmp_eq o.type (codes "Enum")
      then ok (enum_lines o)
      else class_lines o
