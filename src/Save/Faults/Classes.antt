-- ===== src/Save/Faults/Classes.antt =====
-- Which objects the first `Object::saveCPP` of src/CreateDOM.cpp declares.
use schema_code_gen.Base.{
  ◌≡◌, refl, ap₂, ◌∙◌, Bool, true, false, not, ◌&&◌, ◌||◌, List, [], ◌∷◌, ◌++◌, codes, leb, length,
  if◌then◌else◌,
}
use schema_code_gen.CString.{stricmp_eq}
use schema_code_gen.Dom.{MemberVariable, Object, Dom, is_empty}
use schema_code_gen.Emit.{Entry, fill}
use schema_code_gen.Outcome.{Outcome, ok, fault, Fault, ◌>>=◌}
use schema_code_gen.Printer.Lines.{Line}
use schema_code_gen.Save.Class.Fields.{is_named, field_slot}
use schema_code_gen.Save.Class.{own, declare_field, declare_fields, save_class}
use schema_code_gen.Save.Faults.{is_ok, is_ok-then, is_ok-both, own_items}
use schema_code_gen.TypeNames.{get_cpp_type_string}
use schema_code_gen.Values.{FloatStream}

-- The name of an array's type fits its buffer, where it is copied to one; a map is an array.
abbrev pub is_declarable : MemberVariable → Bool
is_declarable i =
    if i.is_array
    then i.is_string
      || (i.is_map && not (is_named i) || not (leb 512 (length (get_cpp_type_string i.type false))))
    else not i.is_map

field_branches {ℓ} :
    {A : Type ℓ} (array string map named long : Bool) (x y z : A) (e e' : Fault)
    → is_ok (
        if array
        then if string then ok x else if (not map || named) && long then fault e else ok y
        else if map
        then fault e'
        else ok z)
      ≡ (if array then string || (map && not named || not long) else not map)
field_branches true true m n l x y z e e' = refl
field_branches true false true true true x y z e e' = refl
field_branches true false true true false x y z e e' = refl
field_branches true false true false l x y z e e' = refl
field_branches true false false n true x y z e e' = refl
field_branches true false false n false x y z e e' = refl
field_branches false s true n l x y z e e' = refl
field_branches false s false n l x y z e e' = refl

declare_field-is_ok : (i : MemberVariable) → is_ok (declare_field i) ≡ is_declarable i
unfolding declare_field
declare_field-is_ok i =
    field_branches i.is_array i.is_string i.is_map (is_named i)
      (leb 512 (length (get_cpp_type_string i.type false))) _ _ _ _ _

-- One field of the loop.
fields-is_ok :
    (f : FloatStream) (d : Dom) (items : List MemberVariable)
    → is_ok (declare_fields f d items) ≡ own_items is_declarable items
unfolding declare_fields
fields-is_ok f d [] = refl
fields-is_ok f d (i ∷ items) =
    branch (own i) (declare_field i) (declare_fields f d items) (declare_field-is_ok i)
      (fields-is_ok f d items)
  where
    branch :
        (b : Bool) (m : Outcome (List (Entry _))) (n : Outcome (List Line)) {p q : Bool}
        → is_ok m ≡ p
        → is_ok n ≡ q
        → is_ok (if b then (m >>= λ es. n >>= λ ls. ok (fill (field_slot f d i) es ++ ls)) else n)
          ≡ (not b || p) && q
    branch true m n hm hn = is_ok-both m n _ ∙ ap₂ ◌&&◌ hm hn
    branch false m n hm hn = hn

-- An alias or an enum, or a class whose own fields can be declared.
abbrev pub object_declarable : Object → Bool
object_declarable o =
    not (is_empty o.alias) || (stricmp_eq o.type (codes "Enum") || own_items is_declarable o.items)

class_branches {ℓ} :
    {A : Type ℓ} (a e p : Bool) (x y : A) (m : Outcome A)
    → is_ok m ≡ p
    → is_ok (if a then ok x else if e then ok y else m) ≡ a || (e || p)
class_branches true e p x y m h = refl
class_branches false true p x y m h = refl
class_branches false false p x y m h = h

pub save_class-is_ok :
    (f : FloatStream) (d : Dom) (o : Object) → is_ok (save_class f d o) ≡ object_declarable o
unfolding save_class
save_class-is_ok f d o =
    class_branches (not (is_empty o.alias)) (stricmp_eq o.type (codes "Enum")) _ _ _ _
      (is_ok-then (declare_fields f d o.items) _ ∙ fields-is_ok f d o.items)
