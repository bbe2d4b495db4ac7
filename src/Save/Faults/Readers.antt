-- ===== src/Save/Faults/Readers.antt =====
-- Which objects `saveDeserialize` of src/CreateDOM.cpp generates code for.
use schema_code_gen.Base.{
  ◌≡◌, refl, ◌∙◌, Bool, true, false, not, ◌&&◌, ◌||◌, List, [], ◌∷◌, none, if◌then◌else◌,
}
use schema_code_gen.Dom.{MemberVariable, Object}
use schema_code_gen.Outcome.{Outcome, ok, fault, assertion}
use schema_code_gen.Save.Deserialize.{
  deserialize_known, deserialize_named, deserialize_body, deserialize_member, deserialize_members,
  has_non_map, save_deserialize,
}
use schema_code_gen.Save.Faults.{is_ok, is_ok-then, own_items, item-is_ok, unless_enum}
use schema_code_gen.Save.Slots.{enum_of}
use schema_code_gen.TypeNames.{
  StandardType, not_standard, float_type, double_type, bool_type, string_type, get_standard_type,
  deserialize_type_name,
}

-- The types of integers.
abbrev pub is_integer : StandardType → Bool
is_integer not_standard = false
is_integer float_type = false
is_integer double_type = false
is_integer bool_type = false
is_integer string_type = false
is_integer _ = true

-- A map of integers needs a class whose own members are all maps.
abbrev pub is_readable : (has_names : Bool) → MemberVariable → Bool
is_readable has_names i = not (i.is_map && (is_integer (get_standard_type i.type) && has_names))

map_branches {ℓ} :
    {A : Type ℓ} (m n h : Bool) (x y : Outcome A)
    → is_ok x ≡ true
    → is_ok y ≡ true
    → is_ok (if m then if n && h then fault assertion else x else y) ≡ not (m && (n && h))
map_branches true true true x y hx hy = refl
map_branches true true false x y hx hy = hx
map_branches true false h x y hx hy = hx
map_branches false n h x y hx hy = hy

never : (m : Bool) → true ≡ not (m && false)
never true = refl
never false = refl

body-is_ok :
    (os : List Object) (has_names : Bool) (i : MemberVariable)
    → is_ok (deserialize_body os has_names i) ≡ is_readable has_names i
unfolding deserialize_body deserialize_type_name
body-is_ok os has_names i = by_type (get_standard_type i.type)
  where
    by_type :
        (t : StandardType)
        → is_ok (elim t [
          | not_standard ↦ ok (deserialize_named i (enum_of os i.type none))
          | type ↦ deserialize_known i type has_names
        ])
          ≡ not (i.is_map && (is_integer t && has_names))
    by_type not_standard = never i.is_map
    by_type float_type = map_branches i.is_map false has_names _ _ refl refl
    by_type double_type = map_branches i.is_map false has_names _ _ refl refl
    by_type bool_type = map_branches i.is_map false has_names _ _ refl refl
    by_type string_type = map_branches i.is_map false has_names _ _ refl refl
    by_type t = map_branches i.is_map true has_names _ _ refl refl

deserialize_members-is_ok :
    (os : List Object) (has_names : Bool) (items : List MemberVariable)
    → is_ok (deserialize_members os has_names items) ≡ own_items (is_readable has_names) items
unfolding deserialize_members
deserialize_members-is_ok os has_names [] = refl
deserialize_members-is_ok os has_names (i ∷ items) =
    item-is_ok i (deserialize_member os has_names i) (deserialize_members os has_names items) _ _
      (is_ok-then (deserialize_body os has_names i) _ ∙ body-is_ok os has_names i)
      (deserialize_members-is_ok os has_names items)

abbrev pub object_readable : Object → Bool
object_readable o = o.is_enum || own_items (is_readable (has_non_map o.items)) o.items

pub save_deserialize-is_ok :
    (os : List Object) (o : Object) → is_ok (save_deserialize os o) ≡ object_readable o
unfolding save_deserialize
save_deserialize-is_ok os o =
    unless_enum o.is_enum (own_items (is_readable (has_non_map o.items)) o.items) _ (
      is_ok-then (deserialize_members os (has_non_map o.items) o.items) _
      ∙ deserialize_members-is_ok os (has_non_map o.items) o.items)
