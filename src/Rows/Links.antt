-- ===== src/Rows/Links.antt =====
-- Every row keeps the links between the objects, in `processArgs` of src/CreateDOM.cpp.
use mathlib.Core.List.{cons-ne-nil}
use schema_code_gen.Base.{
  ◌≡◌, ◌≢◌, refl, sym, subst, ◌∙◌, Bool, true, false, List, [], ◌∷◌, ◌++◌, Option, none, some,
  arith, Bytes, get_elem?, inl, inr,
}
use schema_code_gen.Dom.{MemberVariable, Object}
use schema_code_gen.Outcome.{Outcome-cases, Ensures}
use schema_code_gen.Rows.Member.{parse_member}
use schema_code_gen.Rows.Children.{heirs-append, Linked, Linked-adopt, Linked-append}
use schema_code_gen.Rows.Cases.{process_args-Ensures}
use schema_code_gen.Rows.{
  Row, Importer, push_at, push_current, adopt_all, set_flags, object_columns, start_object,
  add_member, name_row, process_args,
}

-- The finished objects with the current one, if there is one.
abbrev pub all_at : Bool → List Object → Object → List Object
all_at true os o = os ++ o ∷ []
all_at false os o = os

abbrev pub all_objects : Importer → List Object
all_objects s = all_at s.have_object s.dom.objects s.current_object

-- Before the first object row the current object has neither children nor a base.
abbrev pub BlankAt : Bool → Object → Type 0
BlankAt true o = Unit
BlankAt false o = (o.children ≡ []) × (o.inherits_from ≡ [])

pub record IsLinked (s : Importer) : Type 0 where
  pub linked : Linked (all_objects s)
  pub blank : BlankAt s.have_object s.current_object

record Ready (s : Importer) : Type 0 where
  ready : Linked s.dom.objects
  childless : s.current_object.children ≡ []
  baseless : s.current_object.inherits_from ≡ []

push_at-Ready :
    (b : Bool) (s : Importer)
    → Linked (all_at b s.dom.objects s.current_object)
    → BlankAt b s.current_object
    → Ready (push_at b s)
push_at-Ready true s l b = record { ready = l; childless = refl; baseless = refl }
push_at-Ready false s l b = record { ready = l; childless = b.0; baseless = b.1 }

set_flags_keeps :
    (a : Option Bytes) (o : Object)
    → ((set_flags a o).name ≡ o.name)
      × ((set_flags a o).children ≡ o.children)
      × ((set_flags a o).inherits_from ≡ o.inherits_from)
set_flags_keeps none o = (refl, refl, refl)
set_flags_keeps (some a) o = (ground arith, ground arith, ground arith)

adopt_all-Linked :
    (base : Option Bytes) (name : Bytes) (os : List Object) (o : Object)
    → Linked os
    → name ≢ []
    → o.name ≡ name
    → o.inherits_from ≡ (elim base [ none ↦ [] | some a ↦ a ])
    → o.children ≡ []
    → Linked (adopt_all base name os ++ o ∷ [])
adopt_all-Linked none name os o l n e b c = Linked-append os o l (rw e n) b c
adopt_all-Linked (some base) name os o l n e b c = Linked-adopt base name os o l n e b c

start_object-IsLinked :
    (name : Bytes) (args : List Bytes) (s : Importer)
    → name ≢ []
    → IsLinked s
    → IsLinked (start_object name args s)
unfolding start_object
start_object-IsLinked name args s n h =
    let t = push_current s in
    let r : Ready t = push_at-Ready s.have_object s h.linked h.blank in
    let (en, ec, eb) = set_flags_keeps (get_elem? args 4) _ in
    record {
      linked =
          adopt_all-Linked (get_elem? args 2) name t.dom.objects
            (object_columns name args t.current_object) r.ready n en (eb ∙ rw r.baseless)
            (ec ∙ r.childless);
      blank = tt;
    }

Linked-items :
    (os : List Object) (o : Object) (items : List MemberVariable)
    → Linked (os ++ o ∷ [])
    → Linked (os ++ record o { items = items } ∷ [])
Linked-items [] o items l = l
Linked-items (j ∷ os) o items (jn, jc, l) = (
  jn,
  jc ∙ heirs-append j.name os o ∙ sym (heirs-append j.name os (record o { items = items })),
  Linked-items os o items l,
)

items-LinkedAt :
    (b : Bool) (os : List Object) (o : Object) (items : List MemberVariable)
    → Linked (all_at b os o)
    → Linked (all_at b os (record o { items = items }))
items-LinkedAt true os o items l = Linked-items os o items l
items-LinkedAt false os o items l = l

items-BlankAt :
    (b : Bool) (o : Object) (items : List MemberVariable)
    → BlankAt b o
    → BlankAt b (record o { items = items })
items-BlankAt true o items h = h
items-BlankAt false o items h = h

add_member-IsLinked :
    (args : List Bytes) (s : Importer) → IsLinked s → Ensures IsLinked (add_member args s)
unfolding add_member
add_member-IsLinked [] s h = h
add_member-IsLinked ([] ∷ args) s h = h
add_member-IsLinked ((c ∷ name) ∷ args) s h = elim (Outcome-cases (parse_member c name args)) [
  | inl (di, e) ↦
      let items = s.current_object.items ++ di ∷ [] in
      rw e (record {
        linked = items-LinkedAt s.have_object s.dom.objects s.current_object items h.linked;
        blank = items-BlankAt s.have_object s.current_object items h.blank;
      })
  | inr (f, e) ↦ rw e tt
]

name_row-IsLinked :
    (first : Bytes) (args : List Bytes) (s : Importer)
    → IsLinked s
    → Ensures IsLinked (name_row first args s)
unfolding name_row
name_row-IsLinked [] args s h = add_member-IsLinked args s h
name_row-IsLinked (c ∷ name) args s h =
    start_object-IsLinked (c ∷ name) args s (cons-ne-nil c name) h

-- Every row keeps the links.
pub process_args-IsLinked :
    (s : Importer) (r : Row) → IsLinked s → Ensures IsLinked (process_args s r)
process_args-IsLinked s r h =
    process_args-Ensures IsLinked s r h (record { linked = h.linked; blank = h.blank })
      (λ d e. record {
        linked = subst (λ os. Linked (all_at s.have_object os s.current_object)) (sym e) h.linked;
        blank = h.blank;
      })
      (λ _. name_row-IsLinked r.first r.others s h)
