-- ===== src/Save/Deserialize/Nested.antt =====
-- The braces of the code that `saveDeserialize` of src/CreateDOM.cpp generates.
use schema_code_gen.Base.{
  ℕ, suc, ◌≡◌, refl, Bool, true, false, not, ◌&&◌, List, [], ◌∷◌, ◌++◌, Option, none, some, Bytes,
  All, if◌then◌else◌,
}
use schema_code_gen.Dom.{MemberVariable, Object, is_empty}
use schema_code_gen.Emit.Depth.{depth}
use schema_code_gen.Emit.Nested.{
  IsClosed, entries_depth, entries-append, entries-if, IsNested, IsNested-append, IsNested-between,
  IsNested-fill,
}
use schema_code_gen.Emit.{expand_from, fill}
use schema_code_gen.Outcome.{ok, fault, assertion, Ensures, if-Ensures, bind-Ensures}
use schema_code_gen.Save.Braceless.{
  IsBracelessMember, IsBracelessObject, member_slot-IsBraceless, object_slot-IsBraceless,
}
use schema_code_gen.Save.Deserialize.Named.{
  deserialize_enum_map, deserialize_array, deserialize_enum, deserialize_object,
  deserialize_unknown, open_member, close_member, deserialize_head, deserialize_tail,
}
use schema_code_gen.Save.Deserialize.Standard.{
  deserialize_map, find_value, missing_value, read_number, read_other, deserialize_standard,
}
use schema_code_gen.Save.Deserialize.{
  is_float, is_double, deserialize_known, deserialize_named, deserialize_body, deserialize_member,
  deserialize_members, has_non_map, save_deserialize,
}
use schema_code_gen.Save.Slots.{member_slot, object_slot, is_required, enum_of}
use schema_code_gen.TypeNames.{StandardType, not_standard, get_standard_type, deserialize_type_name}

map-IsClosed : (is_numeric has_names : Bool) → IsClosed (deserialize_map is_numeric has_names)
unfolding deserialize_map depth expand_from
map-IsClosed true n d = refl
map-IsClosed false true d = refl
map-IsClosed false false d = refl

number-IsClosed : (is_array : Bool) → IsClosed (read_number is_array)
unfolding read_number depth expand_from
number-IsClosed true d = refl
number-IsClosed false d = refl

other-IsClosed :
    (is_array is_float is_double : Bool) → IsClosed (read_other is_array is_float is_double)
unfolding read_other depth expand_from
other-IsClosed true true true d = refl
other-IsClosed true true false d = refl
other-IsClosed true false true d = refl
other-IsClosed true false false d = refl
other-IsClosed false true true d = refl
other-IsClosed false true false d = refl
other-IsClosed false false true d = refl
other-IsClosed false false false d = refl

find_value_opens : (d : ℕ) → entries_depth d find_value ≡ some (suc d)
unfolding find_value depth expand_from
find_value_opens d = refl

missing_value_closes :
    (is_required : Bool) (d : ℕ) → entries_depth (suc d) (missing_value is_required) ≡ some d
unfolding missing_value depth expand_from
missing_value_closes true d = refl
missing_value_closes false d = refl

standard-IsClosed :
    (is_numeric is_array is_float is_double is_required : Bool)
    → IsClosed (deserialize_standard is_numeric is_array is_float is_double is_required)
unfolding deserialize_standard
standard-IsClosed numeric array float double required d =
    let read = if numeric then read_number array else read_other array float double in
    entries-append find_value (read ++ missing_value required) d (suc d) (some d)
      (find_value_opens d)
      (entries-append read (missing_value required) (suc d) (suc d) (some d)
        (entries-if numeric (read_number array) (read_other array float double) (suc d)
          (some (suc d)) (number-IsClosed array (suc d))
          (other-IsClosed array float double (suc d)))
        (missing_value_closes required d))

enum_map-IsClosed : IsClosed deserialize_enum_map
unfolding deserialize_enum_map depth expand_from
enum_map-IsClosed d = refl

array-IsClosed : (is_enum is_required : Bool) → IsClosed (deserialize_array is_enum is_required)
unfolding deserialize_array depth expand_from
array-IsClosed true true d = refl
array-IsClosed true false d = refl
array-IsClosed false true d = refl
array-IsClosed false false d = refl

enum-IsClosed : (as_integer : Bool) → IsClosed (deserialize_enum as_integer)
unfolding deserialize_enum depth expand_from
enum-IsClosed true d = refl
enum-IsClosed false d = refl

object-IsClosed : (is_required : Bool) → IsClosed (deserialize_object is_required)
unfolding deserialize_object depth expand_from
object-IsClosed true d = refl
object-IsClosed false d = refl

unknown-IsClosed : IsClosed deserialize_unknown
unfolding deserialize_unknown depth expand_from
unknown-IsClosed d = refl

named-IsClosed : (i : MemberVariable) (found : Option Bool) → IsClosed (deserialize_named i found)
named-IsClosed i none d = unknown-IsClosed d
named-IsClosed i (some is_enum) d =
    entries-if i.is_array _ _ d (some d)
      (entries-if i.is_map deserialize_enum_map _ d (some d) (enum_map-IsClosed d)
        (array-IsClosed is_enum (is_required i) d))
      (entries-if is_enum (deserialize_enum i.serialize_enum_as_integer) _ d (some d)
        (enum-IsClosed i.serialize_enum_as_integer d) (object-IsClosed (is_required i) d))

known-IsClosed :
    (i : MemberVariable) (type : StandardType) (has_names : Bool)
    → Ensures IsClosed (deserialize_known i type has_names)
known-IsClosed i type has_names =
    let (getter, is_numeric) = deserialize_type_name type in
    if-Ensures IsClosed i.is_map _ _
      (if-Ensures IsClosed (is_numeric && has_names) (fault assertion) _ tt
        (map-IsClosed is_numeric has_names))
      (found_closed getter is_numeric)
  where
    found_closed :
        (getter : Option Bytes) (is_numeric : Bool)
        → Ensures IsClosed (elim getter [
          | none ↦ ok []
          | some name ↦ ok (
              deserialize_standard is_numeric i.is_array
                (is_float type)
                (is_double type)
                (is_required i))
        ])
    found_closed none is_numeric = λ d. refl
    found_closed (some name) is_numeric =
        standard-IsClosed is_numeric i.is_array (is_float type) (is_double type) (is_required i)

-- The cases of the member's type.
kinds-IsClosed :
    (os : List Object) (has_names : Bool) (i : MemberVariable) (type : StandardType)
    → Ensures IsClosed (elim type [
      | not_standard ↦ ok (deserialize_named i (enum_of os i.type none))
      | t ↦ deserialize_known i t has_names
    ])
kinds-IsClosed os has_names i not_standard = named-IsClosed i (enum_of os i.type none)
kinds-IsClosed os has_names i type = known-IsClosed i type has_names

body-IsClosed :
    (os : List Object) (has_names : Bool) (i : MemberVariable)
    → Ensures IsClosed (deserialize_body os has_names i)
unfolding deserialize_body
body-IsClosed os has_names i = kinds-IsClosed os has_names i (get_standard_type i.type)

open_member_opens : (d : ℕ) → entries_depth d open_member ≡ some (suc d)
unfolding open_member depth expand_from
open_member_opens d = refl

close_member_closes : (d : ℕ) → entries_depth (suc d) close_member ≡ some d
unfolding close_member depth expand_from
close_member_closes d = refl

deserialize_member-IsNested :
    (os : List Object) (has_names : Bool) (i : MemberVariable)
    → IsBracelessMember i
    → Ensures IsNested (deserialize_member os has_names i)
deserialize_member-IsNested os has_names i h =
    let slots = member_slot-IsBraceless i h in
    bind-Ensures IsClosed IsNested (deserialize_body os has_names i) _
      (body-IsClosed os has_names i)
      λ es k.
        IsNested-between (member_slot i) open_member close_member (fill (member_slot i) es) slots
          open_member_opens close_member_closes (IsNested-fill (member_slot i) es slots k)

deserialize_members-IsNested :
    (os : List Object) (has_names : Bool) (items : List MemberVariable)
    → All IsBracelessMember items
    → Ensures IsNested (deserialize_members os has_names items)
unfolding deserialize_members
deserialize_members-IsNested os has_names [] h = λ d. refl
deserialize_members-IsNested os has_names (i ∷ items) (hi, h) =
    let rest = deserialize_members-IsNested os has_names items h in
    if-Ensures IsNested (is_empty i.inherits_from) _ _
      (bind-Ensures IsNested IsNested (deserialize_member os has_names i) _
        (deserialize_member-IsNested os has_names i hi)
        λ ls k.
          bind-Ensures IsNested IsNested (deserialize_members os has_names items) _ rest
            λ ms m. IsNested-append ls ms k m)
      rest

head_opens : (has_base : Bool) (d : ℕ) → entries_depth d (deserialize_head has_base) ≡ some (suc d)
unfolding deserialize_head depth expand_from
head_opens true d = refl
head_opens false d = refl

tail_closes : (d : ℕ) → entries_depth (suc d) deserialize_tail ≡ some d
unfolding deserialize_tail depth expand_from
tail_closes d = refl

-- The code that is generated to read an object closes every brace that it opens, and no other.
pub save_deserialize-IsNested :
    (os : List Object) (o : Object) → IsBracelessObject o → Ensures IsNested (save_deserialize os o)
unfolding save_deserialize
save_deserialize-IsNested os o h =
    let has_base = not (is_empty o.inherits_from) in
    if-Ensures IsNested o.is_enum (ok []) _ (λ d. refl)
      (bind-Ensures IsNested IsNested (deserialize_members os (has_non_map o.items) o.items) _
        (deserialize_members-IsNested os (has_non_map o.items) o.items h.items)
        λ ls k.
          IsNested-between (object_slot o) (deserialize_head has_base) deserialize_tail ls
            (object_slot-IsBraceless o h) (head_opens has_base) tail_closes k)
