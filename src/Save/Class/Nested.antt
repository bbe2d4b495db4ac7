-- ===== src/Save/Class/Nested.antt =====
-- The braces of the declarations that src/CreateDOM.cpp generates in C++.
use schema_code_gen.Base.{
  ℕ, suc, ◌≡◌, refl, Bool, true, false, not, ◌&&◌, ◌||◌, List, [], ◌∷◌, ◌++◌, some, All, codes,
  text_eq, leb, length, if◌then◌else◌,
}
use schema_code_gen.CString.{stricmp_eq}
use schema_code_gen.Dom.{MemberVariable, Object, Dom, is_empty}
use schema_code_gen.Emit.Depth.{depth}
use schema_code_gen.Emit.Nested.{
  IsClosed, IsClosed-append, entries_depth, each, IsNested, IsNested-append, IsNested-between,
  IsNested-each, IsNested-fill, IsNested-if,
}
use schema_code_gen.Emit.{expand_from, fill}
use schema_code_gen.Outcome.{fault, Ensures, if-Ensures, bind-Ensures}
use schema_code_gen.Save.Braceless.{
  IsBracelessMember, IsBracelessObject, object_slot-IsBraceless, enum_slot-IsBraceless,
}
use schema_code_gen.Save.Class.Calls.{
  using_alias, open_enum, enum_value, close_enum, open_class, close_class,
}
use schema_code_gen.Save.Class.Fields.{
  is_named, field_slot, array_field_type, field_type, field_value, array_operator,
}
use schema_code_gen.Save.Class.Methods.{class_methods-IsNested}
use schema_code_gen.Save.Class.Texts.{field_slot-IsBraceless}
use schema_code_gen.Save.Class.{
  own, declare_field, declare_fields, class_methods, class_lines, enum_lines, save_class,
}
use schema_code_gen.Save.Slots.{object_slot, enum_slot, is_optional_value}
use schema_code_gen.TypeNames.{get_cpp_type_string}
use schema_code_gen.Values.Plain.{IsPlain}
use schema_code_gen.Values.{FloatStream}

alias_depth : (d : ℕ) → entries_depth d using_alias ≡ some d
unfolding using_alias depth expand_from
alias_depth d = refl

open_enum_depth :
    (has_short has_long : Bool) (d : ℕ)
    → entries_depth d (open_enum has_short has_long) ≡ some (suc d)
unfolding open_enum depth expand_from
open_enum_depth true true d = refl
open_enum_depth true false d = refl
open_enum_depth false true d = refl
open_enum_depth false false d = refl

enum_value_depth : (has_default : Bool) (d : ℕ) → entries_depth d (enum_value has_default) ≡ some d
unfolding enum_value depth expand_from
enum_value_depth true d = refl
enum_value_depth false d = refl

close_enum_depth : (d : ℕ) → entries_depth (suc d) close_enum ≡ some d
unfolding close_enum depth expand_from
close_enum_depth d = refl

open_class_depth :
    (has_short has_long has_base : Bool) (d : ℕ)
    → entries_depth d (open_class has_short has_long has_base) ≡ some (suc d)
unfolding open_class depth expand_from
open_class_depth true true true d = refl
open_class_depth true true false d = refl
open_class_depth true false true d = refl
open_class_depth true false false d = refl
open_class_depth false true true d = refl
open_class_depth false true false d = refl
open_class_depth false false true d = refl
open_class_depth false false false d = refl

close_class_depth : (d : ℕ) → entries_depth (suc d) close_class ≡ some d
unfolding close_class depth expand_from
close_class_depth d = refl

array_type_depth :
    (is_string is_map : Bool) (d : ℕ) → entries_depth d (array_field_type is_string is_map) ≡ some d
unfolding array_field_type depth expand_from
array_type_depth true true d = refl
array_type_depth true false d = refl
array_type_depth false m d = refl

field_type_depth : (is_optional : Bool) (d : ℕ) → entries_depth d (field_type is_optional) ≡ some d
unfolding field_type depth expand_from
field_type_depth true d = refl
field_type_depth false d = refl

field_value_depth :
    (is_single_pointer has_default : Bool) (d : ℕ)
    → entries_depth d (field_value is_single_pointer has_default) ≡ some d
unfolding field_value depth expand_from
field_value_depth true true d = refl
field_value_depth true false d = refl
field_value_depth false true d = refl
field_value_depth false false d = refl

operator_depth :
    (is_map named : Bool) (d : ℕ)
    → entries_depth d (if is_map then array_operator named else []) ≡ some d
unfolding array_operator depth expand_from
operator_depth true true d = refl
operator_depth true false d = refl
operator_depth false n d = refl

declare_field-IsClosed : (i : MemberVariable) → Ensures IsClosed (declare_field i)
unfolding declare_field
declare_field-IsClosed i =
    let single = i.is_pointer && not i.is_array in
    let has_default = not (is_empty i.default_value) in
    let value = field_value single has_default in
    let operator = if i.is_map then array_operator (is_named i) else [] in
    if-Ensures IsClosed i.is_array _ _
      (if-Ensures IsClosed i.is_string _ _
        (IsClosed-append (array_field_type true i.is_map) value (array_type_depth true i.is_map)
          (field_value_depth single has_default))
        (if-Ensures IsClosed
          ((not i.is_map || is_named i) && leb 512 (length (get_cpp_type_string i.type false)))
          (fault _) _ tt
          (IsClosed-append (array_field_type false i.is_map) (value ++ operator)
            (array_type_depth false i.is_map)
            (IsClosed-append value operator (field_value_depth single has_default)
              (operator_depth i.is_map (is_named i))))))
      (if-Ensures IsClosed i.is_map (fault _) _ tt (
        IsClosed-append (field_type (is_optional_value i)) value
          (field_type_depth (is_optional_value i)) (field_value_depth single has_default)))

module _ (f : FloatStream) (d : Dom) (plain : IsPlain f) where
  declare_fields-IsNested :
      (items : List MemberVariable)
      → All IsBracelessMember items
      → Ensures IsNested (declare_fields f d items)
  unfolding declare_fields
  declare_fields-IsNested [] h = λ e. refl
  declare_fields-IsNested (i ∷ items) (hi, h) =
      let rest = declare_fields-IsNested items h in
      if-Ensures IsNested (own i) _ _
        (bind-Ensures IsClosed IsNested (declare_field i) _ (declare_field-IsClosed i) λ es k.
          bind-Ensures IsNested IsNested (declare_fields f d items) _ rest λ ls m.
            IsNested-append (fill (field_slot f d i) es) ls
              (IsNested-fill (field_slot f d i) es (field_slot-IsBraceless f d i plain hi) k) m)
        rest

  class_lines-IsNested : (o : Object) → IsBracelessObject o → Ensures IsNested (class_lines f d o)
  class_lines-IsNested o h =
      let has_short = not (is_empty o.short_description) in
      let has_long = not (is_empty o.long_description) in
      let has_base = not (is_empty o.inherits_from) in
      bind-Ensures IsNested IsNested (declare_fields f d o.items) _
        (declare_fields-IsNested o.items h.items)
        λ fields k.
          IsNested-between (object_slot o) (open_class has_short has_long has_base) close_class
            (class_methods f d o ++ fields) (object_slot-IsBraceless o h)
            (open_class_depth has_short has_long has_base) close_class_depth
            (IsNested-append (class_methods f d o) fields (class_methods-IsNested f d plain o h) k)

  enum_lines-IsNested : (o : Object) → IsBracelessObject o → IsNested (enum_lines f d o)
  enum_lines-IsNested o h =
      let has_short = not (is_empty o.short_description) in
      let has_long = not (is_empty o.long_description) in
      let values : IsNested
          (each (λ i. fill (enum_slot o i) (enum_value (not (is_empty i.default_value)))) o.items) =
        IsNested-each IsBracelessMember
          (λ i. fill (enum_slot o i) (enum_value (not (is_empty i.default_value))))
          (λ i k.
            IsNested-fill (enum_slot o i) (enum_value (not (is_empty i.default_value)))
              (enum_slot-IsBraceless o i h k) (enum_value_depth (not (is_empty i.default_value))))
          o.items h.items in
      IsNested-between (object_slot o) (open_enum has_short has_long) close_enum _
        (object_slot-IsBraceless o h) (open_enum_depth has_short has_long) close_enum_depth values

  -- The declaration of an alias, an enum or a class closes every brace that it opens, and no other.
  pub save_class-IsNested : (o : Object) → IsBracelessObject o → Ensures IsNested (save_class f d o)
  unfolding save_class
  save_class-IsNested o h =
      if-Ensures IsNested (not (is_empty o.alias)) _ _
        (IsNested-if (text_eq o.alias o.name) [] (fill (object_slot o) using_alias) (λ e. refl)
          (IsNested-fill (object_slot o) using_alias (object_slot-IsBraceless o h) alias_depth))
        (if-Ensures IsNested (stricmp_eq o.type (codes "Enum")) _ _ (enum_lines-IsNested o h)
          (class_lines-IsNested o h))
