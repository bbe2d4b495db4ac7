-- ===== src/Save/Python.antt =====
-- `Object::savePython` and `DOM::savePython` of src/CreateDOM.cpp: the file for Python.
pub mod Parents
pub mod Data
pub mod Whole
pub mod Ends
use schema_code_gen.Base.{
  ℕ, zero, suc, ◌+◌, Bool, true, false, not, ◌&&◌, ◌||◌, ◌++◌, List, [], ◌∷◌, map, Option, none,
  some, Bytes, codes, text_eq, if◌then◌else◌,
}
use schema_code_gen.CString.{stricmp_eq}
use schema_code_gen.Dom.Complete.{find_object}
use schema_code_gen.Dom.{MemberVariable, Object, Dom, is_empty}
use schema_code_gen.Emit.Nested.{each}
use schema_code_gen.Emit.{Entry, entry, text, fill}
use schema_code_gen.Printer.Lines.{Line}
use schema_code_gen.Proto.{print_id, next_id}
use schema_code_gen.Save.Slots.{
  ObjectSlot, object_name, base_name, short_text, long_text, object_slot, MemberSlot, member,
  member_type, member_slot,
}
use schema_code_gen.Values.Kinds.{is_one_of}
use schema_code_gen.Values.{FloatStream, get_python_arg_def}

-- Two texts that are computed for a call.
pub data TextSlot : Type 0 where
  this_text other_text : TextSlot

abbrev pub text_slot : Bytes → Bytes → TextSlot → Bytes
text_slot s t this_text = s
text_slot s t other_text = t

-- `isClassType` and `isEnumType`
abbrev pub class_found : Option Object → Bool
class_found none = false
class_found (some o) = o.is_class

abbrev pub enum_found : Option Object → Bool
enum_found none = false
enum_found (some o) = o.is_enum

unfoldable pub is_class_type : Dom → Bytes → Bool
unfolding find_object
is_class_type d type = class_found (find_object d type)

unfoldable pub is_enum_type : Dom → Bytes → Bool
unfolding find_object
is_enum_type d type = enum_found (find_object d type)

-- An enum: its values as numbers, and the list of their names.
unfoldable pub open_python_enum : (has_short has_long : Bool) → List (Entry ObjectSlot)
open_python_enum has_short has_long =
    (text 0 "\n" ∷ [])
    ++ (if has_short then entry 0 "# %s\n" (short_text ∷ []) ∷ [] else [])
    ++ (if has_long then entry 0 "# %s\n" (long_text ∷ []) ∷ [] else [])

unfoldable pub python_constant : List (Entry TextSlot)
python_constant = entry 0 "%s = %d" (this_text ∷ other_text ∷ []) ∷ []

unfoldable pub python_comment : List (Entry TextSlot)
python_comment = entry 10 "# %s\n" (this_text ∷ []) ∷ []

-- The counter is a `uint32_t`, printed with `%d`.
abbrev pub python_constants : (id : ℕ) → List MemberVariable → List Line
python_constants id [] = []
python_constants id (i ∷ items) =
    fill (text_slot i.member (print_id id)) python_constant
    ++ (fill (text_slot i.short_description []) python_comment
        ++ python_constants (next_id id) items)

abbrev pub python_enum : Object → List Line
python_enum o =
    fill (object_slot o)
      (open_python_enum (not (is_empty o.short_description)) (not (is_empty o.long_description)))
    ++ (python_constants 0 o.items
        ++ (fill (object_slot o) (text 0 "\n" ∷ entry 0 "%s_strings = [\n" (object_name ∷ []) ∷ [])
            ++ (each (λ i. fill (member_slot i) (entry 1 "'%s',\n" (member ∷ []) ∷ [])) o.items
                ++ fill (object_slot o) (text 0 "]\n" ∷ text 0 "\n" ∷ []))))

-- The class with the comment behind it.
unfoldable pub open_python_class : (has_base has_short has_long : Bool) → List (Entry ObjectSlot)
open_python_class has_base has_short has_long =
    (text 0 "\n" ∷ entry 0 "class %s" (object_name ∷ []) ∷ [])
    ++ (if has_base then entry 0 "(%s)" (base_name ∷ []) ∷ [] else [])
    ++ (text 0 ":\n" ∷ [])
    ++ (if has_short || has_long
        then (text 1 "\"\"\"" ∷ [])
          ++ (if has_short then entry 1 "%s" (short_text ∷ []) ∷ [] else [])
          ++ (if has_long
              then (if has_short then text 1 "\n\n" ∷ [] else [])
                ++ (entry 1 "%s\n" (long_text ∷ []) ∷ [])
              else [])
          ++ (text 1 "\"\"\"\n" ∷ [])
        else [])

-- `localMembers` and `inheritedMembersWithDefaultValues`
abbrev pub local_members : List MemberVariable → List MemberVariable
local_members [] = []
local_members (i ∷ items) =
    let rest = local_members items in if is_empty i.inherits_from then i ∷ rest else rest

abbrev pub inherited_members : List MemberVariable → List MemberVariable
inherited_members [] = []
inherited_members (i ∷ items) =
    let rest = inherited_members items in
    if is_empty i.inherits_from then rest else if is_empty i.default_value then rest else i ∷ rest

-- Texts with `, ` between them.
unfoldable pub joined : List Bytes → Bytes
joined [] = []
joined (s ∷ []) = s
joined (s ∷ t ∷ ss) = s ++ codes ", " ++ joined (t ∷ ss)

unfoldable pub init_args : FloatStream → Dom → Object → Bytes
unfolding joined get_python_arg_def
init_args f d o =
    joined
      (map (λ i. get_python_arg_def f i d) (inherited_members o.items ++ local_members o.items))

unfoldable pub super_init_args : Object → Bytes
unfolding joined
super_init_args o =
    joined (map (λ i. i.member ++ codes "=" ++ i.member) (inherited_members o.items))

unfoldable pub init_member : MemberVariable → List Line
init_member i =
    fill (text_slot (codes "self." ++ i.member ++ codes " = " ++ i.member) [])
      (entry 2 "%s\n" (this_text ∷ []) ∷ [])

abbrev pub no_members : List MemberVariable → Bool
no_members [] = true
no_members (i ∷ items) = false

-- `__init__`, with the arguments and those of the base class.
abbrev pub init_method : (args super_args : Bytes) → List MemberVariable → List Line
init_method args super_args items =
    if is_empty args
    then fill (text_slot [] []) (text 1 "def __init__(self):\n" ∷ text 2 "pass\n" ∷ [])
    else fill (text_slot args []) (entry 1 "def __init__(self, %s):\n" (this_text ∷ []) ∷ [])
      ++ ((if is_empty super_args
            then []
            else fill (text_slot super_args [])
                (entry 2 "super().__init__(%s)\n" (this_text ∷ []) ∷ []))
          ++ (each init_member items
              ++ (if is_empty super_args && no_members items
                  then fill (text_slot [] []) (text 2 "pass\n" ∷ [])
                  else [])))
