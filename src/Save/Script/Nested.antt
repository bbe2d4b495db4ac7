-- ===== src/Save/Script/Nested.antt =====
-- The braces of the definition in TypeScript that src/CreateDOM.cpp prints.
use schema_code_gen.Base.{
  arith, ℕ, suc, ◌≡◌, refl, Bool, true, false, not, List, [], ◌∷◌, ◌++◌, some, All, Bytes, codes,
  text_eq, if◌then◌else◌,
}
use schema_code_gen.CString.{stricmp_eq}
use schema_code_gen.Dom.{MemberVariable, Object, is_empty}
use schema_code_gen.Emit.Depth.{depth, IsBraceless, if-IsBraceless}
use schema_code_gen.Emit.Nested.{
  IsBracelessSlot, entries_depth, each, IsNested, IsNested-append, IsNested-between, IsNested-each,
  IsNested-fill, IsNested-if,
}
use schema_code_gen.Emit.{expand_from, fill}
use schema_code_gen.Save.Braceless.{
  braceless, braceless-IsBraceless, IsBracelessMember, IsBracelessObject, object_slot-IsBraceless,
  enum_slot-IsBraceless,
}
use schema_code_gen.Save.Script.{
  renamed, script_names, type_script_name, ts_member, ts_map_type, question_mark, ts_type, brackets,
  ts_comment, script_slot, script_comments, open_script_enum, script_value, close_script_enum,
  open_script_type, script_field, close_script_type, script_item, save_script,
}
use schema_code_gen.Save.Slots.{object_slot, enum_slot, is_required}

renamed-IsBraceless :
    (names : List (Bytes × Bytes)) (type : Bytes)
    → All (λ n. braceless n.1 ≡ true) names
    → IsBraceless type
    → IsBraceless (renamed names type)
renamed-IsBraceless [] type hs h = h
renamed-IsBraceless ((name, word) ∷ names) type (hw, hs) h =
    if-IsBraceless (text_eq type name) word (renamed names type) (braceless-IsBraceless word hw)
      (renamed-IsBraceless names type hs h)

type_script_name-IsBraceless : (s : Bytes) → IsBraceless s → IsBraceless (type_script_name s)
unfolding type_script_name
type_script_name-IsBraceless s h = renamed-IsBraceless script_names s (ground arith) h

script_slot-IsBraceless :
    (i : MemberVariable) → IsBracelessMember i → IsBracelessSlot (script_slot i)
unfolding script_slot
script_slot-IsBraceless i h ts_member = h.member
script_slot-IsBraceless i h ts_map_type = h.map_type
script_slot-IsBraceless i h question_mark =
    if-IsBraceless (is_required i) [] (codes "?") tt (braceless-IsBraceless (codes "?") refl)
script_slot-IsBraceless i h ts_type = type_script_name-IsBraceless i.type h.type
script_slot-IsBraceless i h brackets =
    if-IsBraceless i.is_array (codes "[]") [] (braceless-IsBraceless (codes "[]") refl) tt
script_slot-IsBraceless i h ts_comment = h.short_description

comments_closed :
    (has_short has_long : Bool) (d : ℕ)
    → entries_depth d (script_comments has_short has_long) ≡ some d
unfolding script_comments depth expand_from
comments_closed true true d = refl
comments_closed true false d = refl
comments_closed false true d = refl
comments_closed false false d = refl

enum_opens : (d : ℕ) → entries_depth d open_script_enum ≡ some (suc d)
unfolding open_script_enum depth expand_from
enum_opens d = refl

value_closed : (d : ℕ) → entries_depth d script_value ≡ some d
unfolding script_value depth expand_from
value_closed d = refl

enum_closes : (d : ℕ) → entries_depth (suc d) close_script_enum ≡ some d
unfolding close_script_enum depth expand_from
enum_closes d = refl

type_opens : (has_base : Bool) (d : ℕ) → entries_depth d (open_script_type has_base) ≡ some (suc d)
unfolding open_script_type depth expand_from
type_opens true d = refl
type_opens false d = refl

field_closed : (is_map : Bool) (d : ℕ) → entries_depth d (script_field is_map) ≡ some d
unfolding script_field depth expand_from
field_closed true d = refl
field_closed false d = refl

type_closes : (d : ℕ) → entries_depth (suc d) close_script_type ≡ some d
unfolding close_script_type depth expand_from
type_closes d = refl

script_item-IsNested : (i : MemberVariable) → IsBracelessMember i → IsNested (script_item i)
script_item-IsNested i h =
    IsNested-if (text_eq i.member (codes "_skip_")) [] _ (λ d. refl)
      (IsNested-if (is_empty i.inherits_from) (fill (script_slot i) (script_field i.is_map)) []
        (IsNested-fill (script_slot i) (script_field i.is_map) (script_slot-IsBraceless i h)
          (field_closed i.is_map))
        (λ d. refl))

pub save_script-IsNested : (o : Object) → IsBracelessObject o → IsNested (save_script o)
unfolding save_script
save_script-IsNested o h =
    let slots = object_slot-IsBraceless o h in
    let has_short = not (is_empty o.short_description) in
    let has_long = not (is_empty o.long_description) in
    let has_base = not (is_empty o.inherits_from) in
    let values : IsNested (each (λ i. fill (enum_slot o i) script_value) o.items) =
      IsNested-each IsBracelessMember (λ i. fill (enum_slot o i) script_value)
        (λ i k.
          IsNested-fill (enum_slot o i) script_value (enum_slot-IsBraceless o i h k) value_closed)
        o.items h.items in
    let fields = IsNested-each IsBracelessMember script_item script_item-IsNested o.items h.items in
    let enum =
      fill (object_slot o) open_script_enum
      ++ (each (λ i. fill (enum_slot o i) script_value) o.items
          ++ fill (object_slot o) close_script_enum) in
    let type =
      fill (object_slot o) (open_script_type has_base)
      ++ (each script_item o.items ++ fill (object_slot o) close_script_type) in
    let is_enum = stricmp_eq o.type (codes "Enum") in
    IsNested-append (fill (object_slot o) (script_comments has_short has_long))
      (if is_enum then enum else type)
      (IsNested-fill (object_slot o) (script_comments has_short has_long) slots
        (comments_closed has_short has_long))
      (IsNested-if is_enum enum type
        (IsNested-between (object_slot o) open_script_enum close_script_enum _ slots enum_opens
          enum_closes values)
        (IsNested-between (object_slot o) (open_script_type has_base) close_script_type _ slots
          (type_opens has_base) type_closes fields))
