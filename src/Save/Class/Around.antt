-- ===== src/Save/Class/Around.antt =====
-- The braces of src/CreateDOM.cpp's calls for the methods and constructors of a class.
use schema_code_gen.Base.{ℕ, suc, ◌≡◌, refl, Bool, true, false, some}
use schema_code_gen.Emit.Depth.{depth}
use schema_code_gen.Emit.Nested.{entries_depth}
use schema_code_gen.Emit.{expand_from}
use schema_code_gen.Save.Class.Calls.{
  open_is_member, close_is_member, single_test, first_test, middle_test, last_test, found_lines,
  open_equality, close_equality, open_assignment, assignment_body, close_assignment,
  open_constructor, close_constructor,
}
use schema_code_gen.Save.Class.Fields.{compare_field, assign_argument, assign_field, default_field}

pub open_is_member_depth :
    (has_base : Bool) (d : ℕ) → entries_depth d (open_is_member has_base) ≡ some (suc d)
unfolding open_is_member depth expand_from
open_is_member_depth true d = refl
open_is_member_depth false d = refl

pub close_is_member_depth : (d : ℕ) → entries_depth (suc d) close_is_member ≡ some d
unfolding close_is_member depth expand_from
close_is_member_depth d = refl

pub single_test_depth : (d : ℕ) → entries_depth d single_test ≡ some d
unfolding single_test depth expand_from
single_test_depth d = refl

pub first_test_depth : (d : ℕ) → entries_depth d first_test ≡ some d
unfolding first_test depth expand_from
first_test_depth d = refl

pub middle_test_depth : (d : ℕ) → entries_depth d middle_test ≡ some d
unfolding middle_test depth expand_from
middle_test_depth d = refl

pub last_test_depth : (d : ℕ) → entries_depth d last_test ≡ some d
unfolding last_test depth expand_from
last_test_depth d = refl

pub found_depth : (d : ℕ) → entries_depth d found_lines ≡ some d
unfolding found_lines depth expand_from
found_depth d = refl

pub open_equality_depth :
    (has_base : Bool) (d : ℕ) → entries_depth d (open_equality has_base) ≡ some (suc d)
unfolding open_equality depth expand_from
open_equality_depth true d = refl
open_equality_depth false d = refl

pub close_equality_depth : (d : ℕ) → entries_depth (suc d) close_equality ≡ some d
unfolding close_equality depth expand_from
close_equality_depth d = refl

pub compare_depth : (d : ℕ) → entries_depth d compare_field ≡ some d
unfolding compare_field depth expand_from
compare_depth d = refl

pub open_assignment_depth : (d : ℕ) → entries_depth d open_assignment ≡ some d
unfolding open_assignment depth expand_from
open_assignment_depth d = refl

pub argument_depth :
    (need_comma : Bool) (d : ℕ) → entries_depth d (assign_argument need_comma) ≡ some d
unfolding assign_argument depth expand_from
argument_depth true d = refl
argument_depth false d = refl

pub body_depth : (d : ℕ) → entries_depth d assignment_body ≡ some (suc d)
unfolding assignment_body depth expand_from
body_depth d = refl

pub assign_depth : (d : ℕ) → entries_depth d assign_field ≡ some d
unfolding assign_field depth expand_from
assign_depth d = refl

pub close_assignment_depth : (d : ℕ) → entries_depth (suc d) close_assignment ≡ some d
unfolding close_assignment depth expand_from
close_assignment_depth d = refl

pub open_constructor_depth : (d : ℕ) → entries_depth d open_constructor ≡ some (suc d)
unfolding open_constructor depth expand_from
open_constructor_depth d = refl

pub default_depth : (d : ℕ) → entries_depth d default_field ≡ some d
unfolding default_field depth expand_from
default_depth d = refl

pub close_constructor_depth : (d : ℕ) → entries_depth (suc d) close_constructor ≡ some d
unfolding close_constructor depth expand_from
close_constructor_depth d = refl
