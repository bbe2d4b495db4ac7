-- ===== src/Dom/Complete.antt =====
-- `DOM::importComplete` of src/CreateDOM.cpp, which runs once the whole file is read, and
-- `DOM::findObject`.
use schema_code_gen.Base.{
  ℕ, ◌+◌, Bool, true, false, ◌||◌, ◌++◌, List, [], ◌∷◌, map, Option, none, some, Bytes, codes,
  text_eq, get_elem?, if◌then◌else◌,
}
use schema_code_gen.CString.{stricmp_eq}
use schema_code_gen.Dom.{
  MemberVariable, wants_reflection, member_needs_reflection, Object, Dom, is_empty,
}

abbrev pub any_wants_reflection : List MemberVariable → Bool
any_wants_reflection [] = false
any_wants_reflection (v ∷ vs) = wants_reflection v || any_wants_reflection vs

-- `Object::computeNeedsReflection`, with the names that it has pushed.
abbrev pub compute_needs_reflection : Object → List Bytes → Object × List Bytes
compute_needs_reflection o names =
    let b = any_wants_reflection o.items in
    (record o { needs_reflection = b }, if b then names ++ o.name ∷ [] else names)

-- `Object::computeReflectionMembers`
abbrev pub compute_reflection_members : List Bytes → Object → Object
compute_reflection_members names o = record o {
  items = map (member_needs_reflection names) o.items;
}

-- The first loop of `importComplete`.
unfoldable pub reflection_names : List Object → List Bytes → List Object × List Bytes
reflection_names [] names = ([], names)
reflection_names (o ∷ os) names =
    let (o', names') = compute_needs_reflection o names in
    let (os', names'') = reflection_names os names' in (o' ∷ os', names'')

-- The inner loop over `j`: the inheritance of the last object named `parent` that has one.
unfoldable pub multiple_from : Bytes → List Object → Bytes → Bytes
multiple_from parent [] m = m
multiple_from parent (j ∷ js) m =
    multiple_from parent js (
      if text_eq parent j.name
      then (if is_empty j.inherits_from then m else j.inherits_from)
      else m)

-- One round of the loop over `i`, among the objects as the rounds before have left them.
abbrev pub compute_multiple : List Object → Object → Object
compute_multiple all i = if is_empty i.inherits_from then i else record i {
  multiple_inheritance = multiple_from i.inherits_from all i.multiple_inheritance;
}

-- The loop over `i`, which changes the objects in place: those whose round is done, and the others.
unfoldable pub multiple_loop : List Object → List Object → List Object
unfolding multiple_from
multiple_loop done [] = done
multiple_loop done (i ∷ rest) =
    multiple_loop (done ++ compute_multiple (done ++ i ∷ rest) i ∷ []) rest

-- `mIsEnum` and `mIsClass` are set, and never cleared.
abbrev pub compute_kind : Object → Object
compute_kind i = record i {
  is_enum = if stricmp_eq i.type (codes "Enum") then true else i.is_enum;
  is_class = if stricmp_eq i.type (codes "Class") then true else i.is_class;
}

-- `m[name] = i`
unfoldable pub assign : Bytes → ℕ → List (Bytes × ℕ) → List (Bytes × ℕ)
assign k i [] = (k, i) ∷ []
assign k i ((j, n) ∷ m) = if text_eq j k then (j, i) ∷ m else (j, n) ∷ assign k i m

unfoldable pub lookup : Bytes → List (Bytes × ℕ) → Option ℕ
lookup k [] = none
lookup k ((j, n) ∷ m) = if text_eq j k then some n else lookup k m

-- The last loop, from position `i` on.
unfoldable pub index_objects : ℕ → List Object → List (Bytes × ℕ) → List (Bytes × ℕ)
index_objects i [] m = m
index_objects i (o ∷ os) m = index_objects (i + 1) os (assign o.name i m)

unfoldable pub import_complete : Dom → Dom
unfolding reflection_names multiple_loop assign index_objects
import_complete d =
    let (first, names) = reflection_names d.objects [] in
    let members = map (compute_reflection_members names) first in
    let inherited = multiple_loop [] members in
    let objects = map compute_kind inherited in
    record d { objects = objects; object_map = index_objects 0 objects d.object_map }

unfoldable pub find_object : Dom → Bytes → Option Object
unfolding lookup
find_object d name = elim (lookup name d.object_map) [
  | none ↦ none
  | some i ↦ get_elem? d.objects i
]
