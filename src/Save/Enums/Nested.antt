-- ===== src/Save/Enums/Nested.antt =====
-- The braces of the functions that src/CreateDOM.cpp generates for an enum.
use schema_code_gen.Base.{ℕ, suc, ◌≡◌, refl, List, [], ◌∷◌, ◌++◌, some, All}
use schema_code_gen.Dom.{MemberVariable, Object}
use schema_code_gen.Emit.Depth.{depth}
use schema_code_gen.Emit.Nested.{
  entries_depth, each, IsNested, IsNested-append, IsNested-between, IsNested-each, IsNested-fill,
}
use schema_code_gen.Emit.{expand_from, fill}
use schema_code_gen.Save.Braceless.{
  IsBracelessMember, IsBracelessObject, object_slot-IsBraceless, enum_slot-IsBraceless,
}
use schema_code_gen.Save.Enums.{
  declare_enum, open_list, list_value, stringify_enum, open_unstringify, default_value_line,
  no_default_line, default_lines, close_unstringify, save_enum_functions, save_enum_header,
}
use schema_code_gen.Save.Slots.{object_slot, enum_slot}

open_list_opens : (d : ℕ) → entries_depth d open_list ≡ some (suc d)
unfolding open_list depth expand_from
open_list_opens d = refl

list_value_closed : (d : ℕ) → entries_depth d list_value ≡ some d
unfolding list_value depth expand_from
list_value_closed d = refl

stringify_enum_closes : (d : ℕ) → entries_depth (suc d) stringify_enum ≡ some d
unfolding stringify_enum depth expand_from
stringify_enum_closes d = refl

open_unstringify_opens : (d : ℕ) → entries_depth d open_unstringify ≡ some (suc d)
unfolding open_unstringify depth expand_from
open_unstringify_opens d = refl

default_value_closed : (d : ℕ) → entries_depth d default_value_line ≡ some d
unfolding default_value_line depth expand_from
default_value_closed d = refl

no_default_closed : (d : ℕ) → entries_depth d no_default_line ≡ some d
unfolding no_default_line depth expand_from
no_default_closed d = refl

close_unstringify_closes : (d : ℕ) → entries_depth (suc d) close_unstringify ≡ some d
unfolding close_unstringify depth expand_from
close_unstringify_closes d = refl

default_lines-IsNested :
    (o : Object) (items : List MemberVariable)
    → IsBracelessObject o
    → All IsBracelessMember items
    → IsNested (default_lines o items)
default_lines-IsNested o [] h k =
    IsNested-fill (object_slot o) no_default_line (object_slot-IsBraceless o h) no_default_closed
default_lines-IsNested o (i ∷ items) h (k, _) =
    IsNested-fill (enum_slot o i) default_value_line (enum_slot-IsBraceless o i h k)
      default_value_closed

pub save_enum_functions-IsNested :
    (o : Object) → IsBracelessObject o → IsNested (save_enum_functions o)
unfolding save_enum_functions
save_enum_functions-IsNested o h =
    let slots = object_slot-IsBraceless o h in
    let values : IsNested (each (λ i. fill (enum_slot o i) list_value) o.items) =
      IsNested-each IsBracelessMember (λ i. fill (enum_slot o i) list_value)
        (λ i k.
          IsNested-fill (enum_slot o i) list_value (enum_slot-IsBraceless o i h k)
            list_value_closed)
        o.items h.items in
    let start = default_lines-IsNested o o.items h h.items in
    IsNested-append
      (fill (object_slot o) open_list
        ++ (each (λ i. fill (enum_slot o i) list_value) o.items
            ++ fill (object_slot o) stringify_enum))
      (fill (object_slot o) open_unstringify
        ++ (default_lines o o.items ++ fill (object_slot o) close_unstringify))
      (IsNested-between (object_slot o) open_list stringify_enum _ slots open_list_opens
        stringify_enum_closes values)
      (IsNested-between (object_slot o) open_unstringify close_unstringify _ slots
        open_unstringify_opens close_unstringify_closes start)

declare_enum_closed : (d : ℕ) → entries_depth d declare_enum ≡ some d
unfolding declare_enum depth expand_from
declare_enum_closed d = refl

pub save_enum_header-IsNested : (o : Object) → IsBracelessObject o → IsNested (save_enum_header o)
unfolding save_enum_header
save_enum_header-IsNested o h =
    IsNested-fill (object_slot o) declare_enum (object_slot-IsBraceless o h) declare_enum_closed
