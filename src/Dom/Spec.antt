-- ===== src/Dom/Spec.antt =====
-- `importComplete` of src/CreateDOM.cpp, object by object.
use schema_code_gen.Base.{
  ◌≡◌, refl, ap, ap₂, ◌∙◌, ◌||◌, List, [], ◌∷◌, map, Bytes, Bool, true, false, codes, if◌then◌else◌,
}
use schema_code_gen.CString.{stricmp_eq}
use schema_code_gen.Dom.Bases.{
  second_base, or_old, KeepsLinks, second_base-map, with_second_base,
  multiple_loop-with_second_base,
}
use schema_code_gen.Dom.Complete.{
  compute_reflection_members, reflection_names, multiple_loop, compute_kind, import_complete,
}
use schema_code_gen.Dom.Reflection.{
  has_indirect, reflected_member, any_wants_reflection-has_indirect, reflecting, mark,
  reflection_names_marks, reflection_names_names, items-reflected_member,
}
use schema_code_gen.Dom.{MemberVariable, Object, Dom, is_empty}

-- What `importComplete` makes of one object of `all`.
abbrev pub completed : List Object → Object → Object
completed all o = record o {
  needs_reflection = has_indirect o.items;
  items = map (reflected_member all) o.items;
  multiple_inheritance =
      if is_empty o.inherits_from
      then o.multiple_inheritance
      else or_old (second_base o.inherits_from all) o.multiple_inheritance;
  is_enum = stricmp_eq o.type (codes "Enum") || o.is_enum;
  is_class = stricmp_eq o.type (codes "Class") || o.is_class;
}

abbrev with_members : List Bytes → Object → Object
with_members names o = compute_reflection_members names (mark o)

with_members-KeepsLinks : (names : List Bytes) → KeepsLinks (with_members names)
with_members-KeepsLinks names = record { name_kept = λ o. refl; base_kept = λ o. refl }

if-or : (a b : Bool) → (if a then true else b) ≡ (a || b)
if-or true b = refl
if-or false b = refl

-- An object with its reflection, its second base and its kind as given.
abbrev built : Object → Bool → List MemberVariable → Bytes → Bool → Bool → Object
built o reflects items base enum class = record o {
  needs_reflection = reflects;
  items = items;
  multiple_inheritance = base;
  is_enum = enum;
  is_class = class;
}

with_kind : (empty : Bool) (o : Object) (base : Bytes) → Object
with_kind empty o base =
    compute_kind (if empty then o else record o { multiple_inheritance = base })

with_kind-built :
    (empty : Bool) (o : Object) (base : Bytes)
    → with_kind empty o base
      ≡ built o o.needs_reflection o.items
          (if empty then o.multiple_inheritance else base)
          (if stricmp_eq o.type (codes "Enum") then true else o.is_enum)
          (if stricmp_eq o.type (codes "Class") then true else o.is_class)
unfolding with_kind
with_kind-built true o base = refl
with_kind-built false o base = refl

stages-completed :
    (all : List Object) (o : Object)
    → compute_kind (with_second_base all (with_members (reflecting all) o)) ≡ completed all o
unfolding with_kind
stages-completed all o =
    with_kind-built (is_empty o.inherits_from) (with_members (reflecting all) o)
      (or_old (second_base o.inherits_from all) o.multiple_inheritance)
    ∙ rw
        (
          any_wants_reflection-has_indirect o.items,
          items-reflected_member all o.items,
          if-or (stricmp_eq o.type (codes "Enum")) o.is_enum,
          if-or (stricmp_eq o.type (codes "Class")) o.is_class,
        )
        refl

members-map :
    (names : List Bytes) (os : List Object)
    → map (compute_reflection_members names) (map mark os) ≡ map (with_members names) os
members-map names [] = refl
members-map names (o ∷ os) = ap (◌∷◌ (with_members names o)) (members-map names os)

stages-map :
    (all os : List Object)
    → map compute_kind (map (with_second_base all) (map (with_members (reflecting all)) os))
      ≡ map (completed all) os
stages-map all [] = refl
stages-map all (o ∷ os) = ap₂ ◌∷◌ (stages-completed all o) (stages-map all os)

-- The model after `importComplete`, in terms of the objects as they were read. An object needs
-- reflection if it has an array, a pointer or a string, and a member if it is a pointer, a string or
-- of the type of an object that has one of these; an object with a base has as its second base the
-- base of the last object of its base's name that has one, and keeps the old one where there is none;
-- the types `Enum` and `Class`, in either case, make it an enum and a class. Nothing else changes.
pub import_complete-objects :
    (d : Dom) → (import_complete d).objects ≡ map (completed d.objects) d.objects
unfolding import_complete
import_complete-objects d =
    let all = d.objects in
    let f = with_members (reflecting all) in
    ap
      (λ names.
        map compute_kind
          (multiple_loop [] (map (compute_reflection_members names) (reflection_names all []).0)))
      (reflection_names_names all [])
    ∙ ap
        (λ first.
          map compute_kind
            (multiple_loop [] (map (compute_reflection_members (reflecting all)) first)))
        (reflection_names_marks all [])
    ∙ ap (λ ms. map compute_kind (multiple_loop [] ms)) (members-map (reflecting all) all)
    ∙ ap (map compute_kind) (
        multiple_loop-with_second_base all [] (map f all)
          (λ parent. second_base-map f (with_members-KeepsLinks (reflecting all)) parent all))
    ∙ stages-map all all
