-- ===== src/Save/Serialize/Nested.antt =====
-- The braces of the code that `saveSerialize` of src/CreateDOM.cpp generates.
use schema_code_gen.Base.{
  ℕ, suc, ◌≡◌, refl, Bool, true, false, not, List, [], ◌∷◌, Option, none, some, All, if◌then◌else◌,
  text_eq, codes,
}
use schema_code_gen.Dom.{MemberVariable, Object, is_empty}
use schema_code_gen.Emit.Depth.{depth}
use schema_code_gen.Emit.Nested.{
  entries_depth, IsNested, IsNested-append, IsNested-between, IsNested-fill,
}
use schema_code_gen.Emit.{expand_from}
use schema_code_gen.Outcome.{ok, Ensures, if-Ensures, bind-Ensures}
use schema_code_gen.Save.Braceless.{
  IsBracelessMember, IsBracelessObject, member_slot-IsBraceless, object_slot-IsBraceless,
}
use schema_code_gen.Save.Serialize.{
  serialize_standard, serialize_string, serialize_array, serialize_enum, serialize_object,
  serialize_named, serialize_found, serialize_member, serialize_members, serialize_head,
  serialize_tail, save_serialize,
}
use schema_code_gen.Save.Slots.{member_slot, object_slot, is_optional_value, enum_of}
use schema_code_gen.TypeNames.{is_standard_type}

standard_depth :
    (is_array is_map is_optional : Bool) (d : ℕ)
    → entries_depth d (serialize_standard is_array is_map is_optional) ≡ some d
unfolding serialize_standard depth expand_from
standard_depth true true o d = refl
standard_depth true false o d = refl
standard_depth false m true d = refl
standard_depth false m false d = refl

string_depth :
    (is_array is_map is_optional : Bool) (d : ℕ)
    → entries_depth d (serialize_string is_array is_map is_optional) ≡ some d
unfolding serialize_string depth expand_from
string_depth true true true d = refl
string_depth true true false d = refl
string_depth true false true d = refl
string_depth true false false d = refl
string_depth false m true d = refl
string_depth false m false d = refl

array_depth :
    (is_map is_enum : Bool) (d : ℕ) → entries_depth d (serialize_array is_map is_enum) ≡ some d
unfolding serialize_array depth expand_from
array_depth true e d = refl
array_depth false true d = refl
array_depth false false d = refl

enum_depth :
    (is_optional as_integer : Bool) (d : ℕ)
    → entries_depth d (serialize_enum is_optional as_integer) ≡ some d
unfolding serialize_enum depth expand_from
enum_depth true true d = refl
enum_depth true false d = refl
enum_depth false true d = refl
enum_depth false false d = refl

object_depth :
    (is_optional : Bool) (d : ℕ) → entries_depth d (serialize_object is_optional) ≡ some d
unfolding serialize_object depth expand_from
object_depth true d = refl
object_depth false d = refl

-- The branches of `serialize_named`, by their tests.
named_depth :
    (array enum map optional as_integer : Bool) (d : ℕ)
    → entries_depth d (
        if array
        then serialize_array map enum
        else if enum
        then serialize_enum optional as_integer
        else serialize_object optional)
      ≡ some d
named_depth true enum map optional as_integer d = array_depth map enum d
named_depth false true map optional as_integer d = enum_depth optional as_integer d
named_depth false false map optional as_integer d = object_depth optional d

found-IsNested :
    (i : MemberVariable) (found : Option Bool)
    → IsBracelessMember i
    → Ensures IsNested (serialize_found i found)
found-IsNested i none h = tt
found-IsNested i (some is_enum) h =
    IsNested-fill (member_slot i) (serialize_named i is_enum) (member_slot-IsBraceless i h)
      (named_depth i.is_array is_enum i.is_map (is_optional_value i) i.serialize_enum_as_integer)

pub serialize_member-IsNested :
    (os : List Object) (i : MemberVariable)
    → IsBracelessMember i
    → Ensures IsNested (serialize_member os i)
unfolding serialize_member
serialize_member-IsNested os i h =
    let slots = member_slot-IsBraceless i h in
    if-Ensures IsNested (is_standard_type i.type) _ _
      (IsNested-fill (member_slot i) _ slots
        (standard_depth i.is_array i.is_map (is_optional_value i)))
      (if-Ensures IsNested (text_eq i.type (codes "string")) _ _
        (IsNested-fill (member_slot i) _ slots
          (string_depth i.is_array i.is_map (is_optional_value i)))
        (found-IsNested i (enum_of os i.type none) h))

serialize_members-IsNested :
    (os : List Object) (items : List MemberVariable)
    → All IsBracelessMember items
    → Ensures IsNested (serialize_members os items)
unfolding serialize_members
serialize_members-IsNested os [] h = λ d. refl
serialize_members-IsNested os (i ∷ items) (hi, h) =
    let rest = serialize_members-IsNested os items h in
    if-Ensures IsNested (is_empty i.inherits_from) _ _
      (bind-Ensures IsNested IsNested (serialize_member os i) _ (serialize_member-IsNested os i hi)
        λ ls k.
          bind-Ensures IsNested IsNested (serialize_members os items) _ rest
            λ ms m. IsNested-append ls ms k m)
      rest

head_depth : (has_base : Bool) (d : ℕ) → entries_depth d (serialize_head has_base) ≡ some (suc d)
unfolding serialize_head depth expand_from
head_depth true d = refl
head_depth false d = refl

tail_depth : (d : ℕ) → entries_depth (suc d) serialize_tail ≡ some d
unfolding serialize_tail depth expand_from
tail_depth d = refl

-- The code that is generated to write an object closes every brace that it opens, and no other.
pub save_serialize-IsNested :
    (os : List Object) (o : Object) → IsBracelessObject o → Ensures IsNested (save_serialize os o)
unfolding save_serialize
save_serialize-IsNested os o h =
    let slots = object_slot-IsBraceless o h in
    if-Ensures IsNested o.is_enum (ok []) _ (λ d. refl)
      (bind-Ensures IsNested IsNested (serialize_members os o.items) _
        (serialize_members-IsNested os o.items h.items)
        λ ls k.
          IsNested-between (object_slot o) (serialize_head (not (is_empty o.inherits_from)))
            serialize_tail ls slots (head_depth (not (is_empty o.inherits_from))) tail_depth k)
