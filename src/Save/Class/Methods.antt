-- ===== src/Save/Class/Methods.antt =====
-- The braces of the methods and constructors that src/CreateDOM.cpp generates for a class.
use schema_code_gen.Base.{
  refl, Bool, true, false, not, List, [], ◌∷◌, ◌++◌, All, Bytes, if◌then◌else◌,
}
use schema_code_gen.Dom.{MemberVariable, Object, Dom, is_empty}
use schema_code_gen.Emit.Depth.{IsBraceless}
use schema_code_gen.Emit.Nested.{
  IsBracelessSlot, each, IsNested, IsNested-append, IsNested-between, IsNested-each, IsNested-fill,
  IsNested-if,
}
use schema_code_gen.Emit.{fill}
use schema_code_gen.Save.Braceless.{IsBracelessMember, IsBracelessObject, object_slot-IsBraceless}
use schema_code_gen.Save.Class.Around.{
  argument_depth, assign_depth, body_depth, close_assignment_depth, close_constructor_depth,
  close_equality_depth, close_is_member_depth, compare_depth, default_depth, first_test_depth,
  found_depth, last_test_depth, middle_test_depth, open_assignment_depth, open_constructor_depth,
  open_equality_depth, open_is_member_depth, single_test_depth,
}
use schema_code_gen.Save.Class.Calls.{
  open_is_member, close_is_member, tested_name, single_test, first_test, middle_test, last_test,
  found_lines, open_equality, close_equality, open_assignment, assignment_body, close_assignment,
  open_constructor, close_constructor,
}
use schema_code_gen.Save.Class.Fields.{
  field_slot, compare_field, assign_argument, assign_field, default_field,
}
use schema_code_gen.Save.Class.Texts.{field_slot-IsBraceless}
use schema_code_gen.Save.Class.{
  name_slot, non_map_items, other_tests, name_tests, own, sets_inherited, has_inherited_default,
  compare_line, assign_arguments, default_line, assignment_constructor, default_constructor,
  constructors, class_methods,
}
use schema_code_gen.Save.Slots.{object_slot}
use schema_code_gen.Values.Plain.{IsPlain}
use schema_code_gen.Values.{FloatStream}

name_slot-IsBraceless : (n : Bytes) → IsBraceless n → IsBracelessSlot (name_slot n)
name_slot-IsBraceless n h tested_name = h

non_map_items-IsBraceless :
    (items : List MemberVariable)
    → All IsBracelessMember items
    → All IsBraceless (non_map_items items)
non_map_items-IsBraceless [] h = tt
non_map_items-IsBraceless (i ∷ items) (hi, h) =
    if-All i.is_map (non_map_items items) i.member hi.member (non_map_items-IsBraceless items h)
  where
    if-All :
        (b : Bool) (names : List Bytes) (n : Bytes)
        → IsBraceless n
        → All IsBraceless names
        → All IsBraceless (if b then names else n ∷ names)
    if-All true names n hn h = h
    if-All false names n hn h = (hn, h)

other_tests-IsNested :
    (n : Bytes) (names : List Bytes)
    → IsBraceless n
    → All IsBraceless names
    → IsNested (other_tests n names)
other_tests-IsNested n [] hn h =
    IsNested-fill (name_slot n) last_test (name_slot-IsBraceless n hn) last_test_depth
other_tests-IsNested n (m ∷ names) hn (hm, h) =
    IsNested-append (fill (name_slot n) middle_test) (other_tests m names)
      (IsNested-fill (name_slot n) middle_test (name_slot-IsBraceless n hn) middle_test_depth)
      (other_tests-IsNested m names hm h)

name_tests-IsNested :
    (o : Object) (names : List Bytes)
    → IsBracelessObject o
    → All IsBraceless names
    → IsNested (name_tests o names)
name_tests-IsNested o [] ho h = λ d. refl
name_tests-IsNested o (n ∷ []) ho (hn, h) =
    IsNested-fill (name_slot n) single_test (name_slot-IsBraceless n hn) single_test_depth
name_tests-IsNested o (n ∷ m ∷ names) ho (hn, (hm, h)) =
    IsNested-append (fill (name_slot n) first_test)
      (other_tests m names ++ fill (object_slot o) found_lines)
      (IsNested-fill (name_slot n) first_test (name_slot-IsBraceless n hn) first_test_depth)
      (IsNested-append (other_tests m names) (fill (object_slot o) found_lines)
        (other_tests-IsNested m names hm h)
        (IsNested-fill (object_slot o) found_lines (object_slot-IsBraceless o ho) found_depth))

module _ (f : FloatStream) (d : Dom) (plain : IsPlain f) where
  assign_arguments-IsNested :
      (need_comma : Bool) (items : List MemberVariable)
      → All IsBracelessMember items
      → IsNested (assign_arguments f d need_comma items)
  assign_arguments-IsNested c [] h = λ e. refl
  assign_arguments-IsNested c (i ∷ items) (hi, h) =
      IsNested-append (fill (field_slot f d i) (assign_argument c))
        (assign_arguments f d true items)
        (IsNested-fill (field_slot f d i) (assign_argument c)
          (field_slot-IsBraceless f d i plain hi) (argument_depth c))
        (assign_arguments-IsNested true items h)

  compare_line-IsNested : (i : MemberVariable) → IsBracelessMember i → IsNested (compare_line f d i)
  compare_line-IsNested i h =
      IsNested-if (own i) (fill (field_slot f d i) compare_field) []
        (IsNested-fill (field_slot f d i) compare_field (field_slot-IsBraceless f d i plain h)
          compare_depth)
        (λ e. refl)

  default_line-IsNested : (i : MemberVariable) → IsBracelessMember i → IsNested (default_line f d i)
  default_line-IsNested i h =
      IsNested-if (sets_inherited i) (fill (field_slot f d i) default_field) []
        (IsNested-fill (field_slot f d i) default_field (field_slot-IsBraceless f d i plain h)
          default_depth)
        (λ e. refl)

  assignment-IsNested : (o : Object) → IsBracelessObject o → IsNested (assignment_constructor f d o)
  assignment-IsNested o h =
      let slots = object_slot-IsBraceless o h in
      let lines = each (λ i. fill (field_slot f d i) assign_field) o.items in
      IsNested-append (fill (object_slot o) open_assignment ++ assign_arguments f d false o.items)
        (fill (object_slot o) assignment_body ++ (lines ++ fill (object_slot o) close_assignment))
        (IsNested-append (fill (object_slot o) open_assignment) (assign_arguments f d false o.items)
          (IsNested-fill (object_slot o) open_assignment slots open_assignment_depth)
          (assign_arguments-IsNested false o.items h.items))
        (IsNested-between (object_slot o) assignment_body close_assignment lines slots body_depth
          close_assignment_depth
          (IsNested-each IsBracelessMember (λ i. fill (field_slot f d i) assign_field)
            (λ i k.
              IsNested-fill (field_slot f d i) assign_field (field_slot-IsBraceless f d i plain k)
                assign_depth)
            o.items h.items))

  constructors-IsNested : (o : Object) → IsBracelessObject o → IsNested (constructors f d o)
  unfolding constructors
  constructors-IsNested o h =
      let inherited = has_inherited_default o.items in
      IsNested-if o.assignment (assignment_constructor f d o)
        (if inherited then default_constructor f d o else []) (assignment-IsNested o h)
        (IsNested-if inherited (default_constructor f d o) []
          (IsNested-between (object_slot o) open_constructor close_constructor
            (each (default_line f d) o.items) (object_slot-IsBraceless o h) open_constructor_depth
            close_constructor_depth
            (IsNested-each IsBracelessMember (default_line f d) default_line-IsNested o.items
              h.items))
          (λ e. refl))

  pub class_methods-IsNested : (o : Object) → IsBracelessObject o → IsNested (class_methods f d o)
  unfolding class_methods
  class_methods-IsNested o h =
      let slots = object_slot-IsBraceless o h in
      let has_base = not (is_empty o.inherits_from) in
      let names = non_map_items o.items in
      let equality =
        fill (object_slot o) (open_equality has_base)
        ++ (each (compare_line f d) o.items ++ fill (object_slot o) close_equality) in
      IsNested-append
        (fill (object_slot o) (open_is_member has_base)
          ++ (name_tests o names ++ fill (object_slot o) close_is_member))
        (equality ++ constructors f d o)
        (IsNested-between (object_slot o) (open_is_member has_base) close_is_member
          (name_tests o names) slots (open_is_member_depth has_base) close_is_member_depth
          (name_tests-IsNested o names h (non_map_items-IsBraceless o.items h.items)))
        (IsNested-append equality (constructors f d o)
          (IsNested-between (object_slot o) (open_equality has_base) close_equality
            (each (compare_line f d) o.items) slots (open_equality_depth has_base)
            close_equality_depth
            (IsNested-each IsBracelessMember (compare_line f d) compare_line-IsNested o.items
              h.items))
          (constructors-IsNested o h))
