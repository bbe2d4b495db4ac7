-- ===== src/Save/Braceless.antt =====
-- Schemas whose names and texts have no braces, and the slots of src/CreateDOM.cpp's writers then.
use schema_code_gen.Base.{
  ◌≡◌, refl, sym, subst, Bool, true, false, not, ◌&&◌, ◌==◌, [], ◌∷◌, ◌++◌, arith, codes, Bytes,
  All,
}
use schema_code_gen.Dom.{MemberVariable, Object, is_empty}
use schema_code_gen.Emit.Depth.{IsBraceless, if-IsBraceless}
use schema_code_gen.Emit.Nested.{IsBracelessSlot}
use schema_code_gen.Save.Slots.{
  member, member_type, cpp_type, get_type, check_name, get_name, member_slot, text_or_null,
  other_type_name, object_name, base_name, alias_text, short_text, long_text, object_slot,
  enum_name, value_name, shown_name, value_text, value_comment, enum_slot,
}
use schema_code_gen.TypeNames.Tables.{cpp_of, get_cpp_type_string-cpp_of}
use schema_code_gen.TypeNames.{
  StandardType, not_standard, float_type, double_type, bool_type, string_type, get_standard_type,
  get_cpp_type_string, deserialize_type_name,
}

pub record IsBracelessMember (i : MemberVariable) : Type 0 where
  pub member : IsBraceless i.member
  pub type : IsBraceless i.type
  pub map_type : IsBraceless i.map_type
  pub alias : IsBraceless i.alias
  pub inherits_from : IsBraceless i.inherits_from
  pub default_value : IsBraceless i.default_value
  pub qualified_default_value : IsBraceless i.qualified_default_value
  pub short_description : IsBraceless i.short_description

pub record IsBracelessObject (o : Object) : Type 0 where
  pub name : IsBraceless o.name
  pub inherits_from : IsBraceless o.inherits_from
  pub alias : IsBraceless o.alias
  pub short_description : IsBraceless o.short_description
  pub long_description : IsBraceless o.long_description
  pub items : All IsBracelessMember o.items

-- A test for texts that are written out.
abbrev pub braceless : Bytes → Bool
braceless [] = true
braceless (c ∷ s) = not (c == b'{') && (not (c == b'}') && braceless s)

pub braceless-IsBraceless : (s : Bytes) → braceless s ≡ true → IsBraceless s
braceless-IsBraceless [] h = tt
braceless-IsBraceless (c ∷ s) h = (ground arith, braceless-IsBraceless s (ground arith))

cpp_of-IsBraceless :
    (t : StandardType) (s : Bytes) (is_def : Bool) → IsBraceless s → IsBraceless (cpp_of t s is_def)
cpp_of-IsBraceless string_type s true h = braceless-IsBraceless (cpp_of string_type s true) refl
cpp_of-IsBraceless string_type s false h = braceless-IsBraceless (cpp_of string_type s false) refl
cpp_of-IsBraceless not_standard s b h = h
cpp_of-IsBraceless float_type s b h = h
cpp_of-IsBraceless double_type s b h = h
cpp_of-IsBraceless bool_type s b h = h
cpp_of-IsBraceless t s b h = braceless-IsBraceless (cpp_of t s b) refl

pub get_cpp_type_string-IsBraceless :
    (s : Bytes) (is_def : Bool) → IsBraceless s → IsBraceless (get_cpp_type_string s is_def)
get_cpp_type_string-IsBraceless s is_def h =
    subst IsBraceless (sym (get_cpp_type_string-cpp_of s is_def))
      (cpp_of-IsBraceless (get_standard_type s) s is_def h)

getter-IsBraceless : (t : StandardType) → IsBraceless (text_or_null (deserialize_type_name t).0)
unfolding deserialize_type_name
getter-IsBraceless not_standard = tt
getter-IsBraceless t = braceless-IsBraceless (text_or_null (deserialize_type_name t).0) refl

test-IsBraceless :
    (t : StandardType)
    → IsBraceless (codes "Is" ++ other_type_name t) × IsBraceless (codes "Get" ++ other_type_name t)
test-IsBraceless not_standard =
    (braceless-IsBraceless (codes "Is") refl, braceless-IsBraceless (codes "Get") refl)
test-IsBraceless t = (
  braceless-IsBraceless (codes "Is" ++ other_type_name t) refl,
  braceless-IsBraceless (codes "Get" ++ other_type_name t) refl,
)

pub member_slot-IsBraceless :
    (i : MemberVariable) → IsBracelessMember i → IsBracelessSlot (member_slot i)
unfolding member_slot
member_slot-IsBraceless i h member = h.member
member_slot-IsBraceless i h member_type = h.type
member_slot-IsBraceless i h cpp_type = get_cpp_type_string-IsBraceless i.type false h.type
member_slot-IsBraceless i h get_type = getter-IsBraceless (get_standard_type i.type)
member_slot-IsBraceless i h check_name = (test-IsBraceless (get_standard_type i.type)).0
member_slot-IsBraceless i h get_name = (test-IsBraceless (get_standard_type i.type)).1

pub object_slot-IsBraceless : (o : Object) → IsBracelessObject o → IsBracelessSlot (object_slot o)
object_slot-IsBraceless o h object_name = h.name
object_slot-IsBraceless o h base_name = h.inherits_from
object_slot-IsBraceless o h alias_text = h.alias
object_slot-IsBraceless o h short_text = h.short_description
object_slot-IsBraceless o h long_text = h.long_description

pub enum_slot-IsBraceless :
    (o : Object) (i : MemberVariable)
    → IsBracelessObject o
    → IsBracelessMember i
    → IsBracelessSlot (enum_slot o i)
enum_slot-IsBraceless o i h k enum_name = h.name
enum_slot-IsBraceless o i h k value_name = k.member
enum_slot-IsBraceless o i h k shown_name =
    if-IsBraceless (is_empty i.alias) i.member i.alias k.member k.alias
enum_slot-IsBraceless o i h k value_text = k.default_value
enum_slot-IsBraceless o i h k value_comment = k.short_description
