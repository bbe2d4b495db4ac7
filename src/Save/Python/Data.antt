-- ===== src/Save/Python/Data.antt =====
-- The method `as_data` that `Object::savePython` of src/CreateDOM.cpp generates.
use schema_code_gen.Base.{
  ℕ, Bool, true, false, ◌++◌, List, [], ◌∷◌, Option, none, some, Bytes, codes, if◌then◌else◌,
}
use schema_code_gen.Dom.Complete.{find_object}
use schema_code_gen.Dom.{MemberVariable, Object, Dom, is_empty}
use schema_code_gen.Emit.Nested.{each}
use schema_code_gen.Emit.{Entry, entry, text, fill}
use schema_code_gen.Printer.Lines.{Line}
use schema_code_gen.Proto.{lower_first}
use schema_code_gen.Save.Python.Parents.{Parents, found, missing, unfinished, parents}
use schema_code_gen.Save.Python.{
  TextSlot, this_text, other_text, text_slot, is_class_type, is_enum_type, local_members,
}
use schema_code_gen.Save.Slots.{MemberSlot, member, member_type, member_slot}
use schema_code_gen.Values.Kinds.{is_one_of}

-- The types whose values are taken as they are.
abbrev pub plain_types : List Bytes
plain_types =
    codes "i8"
    ∷ codes "i16"
    ∷ codes "i32"
    ∷ codes "i64"
    ∷ codes "u8"
    ∷ codes "u16"
    ∷ codes "u32"
    ∷ codes "u64"
    ∷ codes "float"
    ∷ codes "double"
    ∷ codes "bool"
    ∷ codes "string"
    ∷ []

unfoldable pub array_data : (is_class is_enum is_plain : Bool) → List (Entry MemberSlot)
array_data is_class is_enum is_plain =
    if is_class
    then entry 2 "data['%s'] = [e.as_data() for e in self.%s]\n" (member ∷ member ∷ []) ∷ []
    else if is_enum
    then entry 2 "data['%s'] = '%s_strings[self.%s]\n" (member ∷ member_type ∷ member ∷ []) ∷ []
    else if is_plain
    then entry 2 "data['%s'] = [e for e in self.%s]\n" (member ∷ member ∷ []) ∷ []
    else []

unfoldable pub value_data : (is_class is_enum is_plain : Bool) → List (Entry MemberSlot)
value_data is_class is_enum is_plain =
    if is_class
    then entry 2 "data['%s'] = self.%s.as_data()\n" (member ∷ member ∷ []) ∷ []
    else if is_enum
    then entry 2 "data['%s'] = %s_strings[self.%s]\n" (member ∷ member_type ∷ member ∷ []) ∷ []
    else if is_plain
    then entry 2 "data['%s'] = self.%s\n" (member ∷ member ∷ []) ∷ []
    else []

unfoldable pub member_data : Dom → MemberVariable → List Line
unfolding array_data value_data member_slot is_class_type is_enum_type
member_data d i =
    let is_class = is_class_type d i.type in
    let is_enum = is_enum_type d i.type in
    let is_plain = is_one_of i.type plain_types in
    fill (member_slot i) (
      if i.is_array
      then array_data is_class is_enum is_plain
      else value_data is_class is_enum is_plain)

unfoldable pub base_slice : List (Entry TextSlot)
base_slice = entry 2 "%s_data = super().as_data()\n" (this_text ∷ []) ∷ []

unfoldable pub next_slice : List (Entry TextSlot)
next_slice = entry 2 "%s_data = %s_data['%s']\n" (this_text ∷ other_text ∷ this_text ∷ []) ∷ []

unfoldable pub own_slice : List (Entry TextSlot)
own_slice = entry 2 "%s_data['%s'] = data\n" (other_text ∷ this_text ∷ []) ∷ []

-- Down the stack of the bases, and the data of the object itself at the end.
abbrev pub slices : (slice : Bytes) → List Object → (name : Bytes) → List Line
slices slice [] name = fill (text_slot (lower_first name) slice) own_slice
slices slice (p ∷ ps) name =
    fill (text_slot (lower_first p.name) slice) next_slice ++ slices (lower_first p.name) ps name

-- The root of the bases stands on top. The source takes it from a stack that is not empty here.
abbrev pub sliced : List Object → (name : Bytes) → List Line
sliced [] name = []
sliced (p ∷ ps) name =
    let root = lower_first p.name in
    fill (text_slot root []) base_slice
    ++ (slices root ps name
        ++ fill (text_slot root []) (entry 2 "return %s_data\n" (this_text ∷ []) ∷ []))

-- A base that is no object ends the method early; `none` where the loop has not ended.
abbrev pub data_end : Parents → (name : Bytes) → Option (List Line)
data_end (found stack) name = some (sliced stack name)
data_end missing name = some []
data_end unfinished name = none

abbrev pub unless_based : Bool → List Line → Option (List Line) → Option (List Line)
unless_based true ls o = some ls
unless_based false ls o = o

abbrev pub return_data : (fuel : ℕ) → Dom → Object → (name : Bytes) → Option (List Line)
return_data fuel d type name =
    unless_based (is_empty type.inherits_from)
      (fill (text_slot [] []) (text 2 "return data\n" ∷ []))
      (data_end (parents fuel d type []) name)

-- Lines behind others, if they end.
abbrev pub behind : List Line → Option (List Line) → Option (List Line)
behind before none = none
behind before (some ls) = some (before ++ ls)

abbrev pub for_found : Option Object → (Object → Option (List Line)) → Option (List Line)
for_found none next = some []
for_found (some o) next = next o

abbrev pub data_begin : Dom → Object → List Line
data_begin d o =
    fill (text_slot [] []) (text 2 "data = {}\n" ∷ [])
    ++ each (member_data d) (local_members o.items)

-- `type` is the object that the name is found as.
unfoldable pub as_data : (fuel : ℕ) → Dom → Object → Option (List Line)
unfolding find_object parents member_data base_slice next_slice own_slice
as_data fuel d o =
    for_found (find_object d o.name)
      (λ type. behind (data_begin d o) (return_data fuel d type o.name))
