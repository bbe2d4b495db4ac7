-- ===== src/Save/Faults.antt =====
-- Which schemas src/CreateDOM.cpp generates code for: where no assertion fails and no buffer is left
-- without a terminator.
pub mod Readers
pub mod Classes
pub mod Whole
use schema_code_gen.Base.{
  ◌≡◌, refl, sym, ap, ap₂, ◌∙◌, Bool, true, false, not, ◌&&◌, ◌||◌, List, [], ◌∷◌, ◌++◌, Option,
  none, some, arith, Bytes, codes, text_eq, ltb, leb, length, if◌then◌else◌,
}
use schema_code_gen.CString.{stricmp_eq}
use schema_code_gen.Dom.{MemberVariable, Object, Dom, is_empty}
use schema_code_gen.Emit.{Entry, fill}
use schema_code_gen.Outcome.{Outcome, ok, fault, ◌>>=◌}
use schema_code_gen.Printer.Lines.{Line}
use schema_code_gen.Save.Class.Fields.{is_named, field_slot}
use schema_code_gen.Save.Class.{own, declare_field, declare_fields, class_lines, save_class}
use schema_code_gen.Save.Deserialize.{
  deserialize_known, deserialize_body, deserialize_member, deserialize_members, has_non_map,
  save_deserialize,
}
use schema_code_gen.Save.Files.{each_ok, Sources, save_sources}
use schema_code_gen.Save.Serialize.{
  serialize_found, serialize_member, serialize_members, save_serialize,
}
use schema_code_gen.Save.Slots.{enum_of}
use schema_code_gen.TypeNames.{
  StandardType, not_standard, u64, u32, u16, u8, i64, i32, i16, i8, float_type, double_type,
  bool_type, string_type, get_standard_type, get_cpp_type_string, is_standard_type,
  deserialize_type_name,
}
use schema_code_gen.Values.{FloatStream}

abbrev pub is_ok {ℓ} : {A : Type ℓ} → Outcome A → Bool
is_ok (ok a) = true
is_ok (fault e) = false

abbrev pub every {ℓ} : {A : Type ℓ} → (A → Bool) → List A → Bool
every p [] = true
every p (x ∷ xs) = p x && every p xs

pub is_ok-if {ℓ} :
    {A : Type ℓ} (b : Bool) (x y : Outcome A)
    → is_ok (if b then x else y) ≡ (if b then is_ok x else is_ok y)
is_ok-if true x y = refl
is_ok-if false x y = refl

-- A step whose rest returns.
pub is_ok-then {ℓ κ} :
    {A : Type ℓ} {B : Type κ} (m : Outcome A) (f : A → B) → is_ok (m >>= λ a. ok (f a)) ≡ is_ok m
is_ok-then (ok a) f = refl
is_ok-then (fault e) f = refl

pub is_ok-both {ℓ κ η} :
    {A : Type ℓ} {B : Type κ} {C : Type η} (m : Outcome A) (n : Outcome B) (f : A → B → C)
    → is_ok (m >>= λ a. n >>= λ b. ok (f a b)) ≡ is_ok m && is_ok n
is_ok-both (ok a) (ok b) f = refl
is_ok-both (ok a) (fault e) f = refl
is_ok-both (fault e) n f = refl

if_own : (b x y : Bool) → (if b then x && y else y) ≡ (not b || x) && y
if_own true x y = refl
if_own false x y = refl

-- The items that are not inherited pass a test.
abbrev pub own_items : (MemberVariable → Bool) → List MemberVariable → Bool
own_items p items = every (λ i. not (own i) || p i) items

-- One item of a loop that skips the inherited ones.
pub item-is_ok :
    (i : MemberVariable) (m : Outcome (List Line)) (n : Outcome (List Line)) (p q : Bool)
    → is_ok m ≡ p
    → is_ok n ≡ q
    → is_ok (if own i then (m >>= λ ls. n >>= λ ms. ok (ls ++ ms)) else n) ≡ (not (own i) || p) && q
item-is_ok i m n p q hm hn =
    is_ok-if (own i) (m >>= λ ls. n >>= λ ms. ok (ls ++ ms)) n
    ∙ ap₂ (λ x y. if own i then x else y) (is_ok-both m n (λ ls ms. ls ++ ms) ∙ ap₂ ◌&&◌ hm hn) hn
    ∙ if_own (own i) p q

-- An object has the name.
abbrev pub declares : List Object → Bytes → Bool
declares [] type = false
declares (o ∷ os) type = text_eq o.name type || declares os type

abbrev is_some : Option Bool → Bool
is_some none = false
is_some (some b) = true

enum_of-declares :
    (os : List Object) (type : Bytes) (found : Option Bool)
    → is_some (enum_of os type found) ≡ declares os type || is_some found
unfolding enum_of
enum_of-declares [] type found = refl
enum_of-declares (o ∷ os) type found =
    enum_of-declares os type (if text_eq o.name type then some o.is_enum else found)
    ∙ joined (text_eq o.name type) (declares os type)
  where
    joined :
        (b c : Bool)
        → c || is_some (if b then some o.is_enum else found) ≡ (b || c) || is_some found
    joined true true = refl
    joined true false = refl
    joined false c = refl

-- The type of a member is known to the writer.
abbrev pub is_writable : List Object → MemberVariable → Bool
is_writable os i =
    is_standard_type i.type || (text_eq i.type (codes "string") || declares os i.type)

found-is_ok :
    (i : MemberVariable) (found : Option Bool) → is_ok (serialize_found i found) ≡ is_some found
found-is_ok i none = refl
found-is_ok i (some e) = refl

serialize_member-is_ok :
    (os : List Object) (i : MemberVariable) → is_ok (serialize_member os i) ≡ is_writable os i
unfolding serialize_member
serialize_member-is_ok os i =
    let found = found-is_ok i (enum_of os i.type none) ∙ enum_of-declares os i.type none in
    branches (is_standard_type i.type) (text_eq i.type (codes "string")) (declares os i.type) _ _ _
      refl refl (found ∙ or_false (declares os i.type))
  where
    or_false : (b : Bool) → b || false ≡ b
    or_false true = refl
    or_false false = refl

    branches :
        (a b c : Bool) (x y z : Outcome (List Line))
        → is_ok x ≡ true
        → is_ok y ≡ true
        → is_ok z ≡ c
        → is_ok (if a then x else if b then y else z) ≡ a || (b || c)
    branches true b c x y z hx hy hz = hx
    branches false true c x y z hx hy hz = hy
    branches false false c x y z hx hy hz = hz

serialize_members-is_ok :
    (os : List Object) (items : List MemberVariable)
    → is_ok (serialize_members os items) ≡ own_items (is_writable os) items
unfolding serialize_members
serialize_members-is_ok os [] = refl
serialize_members-is_ok os (i ∷ items) =
    item-is_ok i (serialize_member os i) (serialize_members os items) _ _
      (serialize_member-is_ok os i) (serialize_members-is_ok os items)

abbrev pub object_writable : List Object → Object → Bool
object_writable os o = o.is_enum || own_items (is_writable os) o.items

-- An object that is no enum.
pub unless_enum :
    (b p : Bool) (m : Outcome (List Line)) → is_ok m ≡ p → is_ok (if b then ok [] else m) ≡ b || p
unless_enum true p m h = refl
unless_enum false p m h = h

pub save_serialize-is_ok :
    (os : List Object) (o : Object) → is_ok (save_serialize os o) ≡ object_writable os o
unfolding save_serialize
save_serialize-is_ok os o =
    unless_enum o.is_enum (own_items (is_writable os) o.items) _
      (is_ok-then (serialize_members os o.items) _ ∙ serialize_members-is_ok os o.items)
