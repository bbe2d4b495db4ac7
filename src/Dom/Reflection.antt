-- ===== src/Dom/Reflection.antt =====
-- Which objects and members need reflection, by `computeNeedsReflection` and
-- `computeReflectionMembers` of src/CreateDOM.cpp.
use schema_code_gen.Base.{
  ◌≡◌, refl, sym, ap, ap₂, ◌∙◌, Bool, true, false, ◌&&◌, ◌||◌, ◌++◌, List, [], ◌∷◌, map, Bytes,
  text_eq, if◌then◌else◌, Bool-cases, inl, inr, append_assoc, append-nil, arith,
}
use schema_code_gen.Dom.Complete.{any_wants_reflection, reflection_names}
use schema_code_gen.Dom.{
  MemberVariable, wants_reflection, member_needs_reflection, contains, Object,
}

-- Some member is as the test says.
abbrev pub some_member : (MemberVariable → Bool) → List MemberVariable → Bool
some_member test [] = false
some_member test (v ∷ vs) = test v || some_member test vs

-- There is an array, a pointer or a string.
abbrev pub has_indirect : List MemberVariable → Bool
has_indirect vs =
    some_member (λ v. v.is_array) vs
    || some_member (λ v. v.is_pointer) vs
    || some_member (λ v. v.is_string) vs

-- Some object with the name `type` has one.
abbrev pub is_indirect_type : List Object → Bytes → Bool
is_indirect_type [] type = false
is_indirect_type (o ∷ os) type =
    text_eq o.name type && has_indirect o.items || is_indirect_type os type

abbrev pub reflected_member : List Object → MemberVariable → MemberVariable
reflected_member all v = record v {
  needs_reflection = v.is_pointer || v.is_string || is_indirect_type all v.type;
}

spread_or :
    (a b c x y z : Bool) → ((a || b || c) || (x || y || z)) ≡ ((a || x) || (b || y) || (c || z))
spread_or a b c x y z = ground arith

pub any_wants_reflection-has_indirect :
    (vs : List MemberVariable) → any_wants_reflection vs ≡ has_indirect vs
unfolding wants_reflection
any_wants_reflection-has_indirect [] = refl
any_wants_reflection-has_indirect (v ∷ vs) =
    ap (λ b. wants_reflection v || b) (any_wants_reflection-has_indirect vs)
    ∙ spread_or v.is_array v.is_pointer v.is_string (some_member (λ v. v.is_array) vs)
        (some_member (λ v. v.is_pointer) vs) (some_member (λ v. v.is_string) vs)

-- The names that the first loop pushes.
abbrev pub reflecting : List Object → List Bytes
reflecting [] = []
reflecting (o ∷ os) = if any_wants_reflection o.items then o.name ∷ reflecting os else reflecting os

abbrev pub mark : Object → Object
mark o = record o { needs_reflection = any_wants_reflection o.items }

pub reflection_names_marks :
    (os : List Object) (names : List Bytes) → (reflection_names os names).0 ≡ map mark os
unfolding reflection_names
reflection_names_marks [] names = refl
reflection_names_marks (o ∷ os) names = ap (◌∷◌ (mark o)) (reflection_names_marks os _)

pub reflection_names_names :
    (os : List Object) (names : List Bytes) → (reflection_names os names).1 ≡ names ++ reflecting os
unfolding reflection_names
reflection_names_names [] names = sym (append-nil names)
reflection_names_names (o ∷ os) names = elim (Bool-cases (any_wants_reflection o.items)) [
  | inl e ↦ rw e (reflection_names_names os (names ++ o.name ∷ []) ∙ rw append_assoc)
  | inr e ↦ rw e (reflection_names_names os names)
]

contains-if :
    (b : Bool) (name type : Bytes) (names : List Bytes)
    → contains (if b then name ∷ names else names) type
      ≡ (text_eq name type && b || contains names type)
contains-if true name type names = ground arith
contains-if false name type names = ground arith

contains-reflecting :
    (os : List Object) (type : Bytes) → contains (reflecting os) type ≡ is_indirect_type os type
contains-reflecting [] type = refl
contains-reflecting (o ∷ os) type =
    contains-if (any_wants_reflection o.items) o.name type (reflecting os)
    ∙ ap₂ (λ b c. text_eq o.name type && b || c) (any_wants_reflection-has_indirect o.items)
        (contains-reflecting os type)

if-or : (a b c : Bool) → (if a || b then true else c) ≡ (a || b || c)
if-or a b c = ground arith

member_needs_reflection-reflected_member :
    (all : List Object) (v : MemberVariable)
    → member_needs_reflection (reflecting all) v ≡ reflected_member all v
unfolding member_needs_reflection
member_needs_reflection-reflected_member all v =
    ap (λ b. record v { needs_reflection = b })
      (if-or v.is_pointer v.is_string (contains (reflecting all) v.type)
        ∙ ap (λ b. v.is_pointer || v.is_string || b) (contains-reflecting all v.type))

pub items-reflected_member :
    (all : List Object) (vs : List MemberVariable)
    → map (member_needs_reflection (reflecting all)) vs ≡ map (reflected_member all) vs
items-reflected_member all [] = refl
items-reflected_member all (v ∷ vs) =
    ap₂ ◌∷◌ (member_needs_reflection-reflected_member all v) (items-reflected_member all vs)
