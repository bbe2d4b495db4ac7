-- ===== src/Rows/Outline.antt =====
-- How the rows of src/CreateDOM.cpp's `processArgs` are grouped into objects, read from the last
-- row to the first, and that one row makes one step of that grouping.
use schema_code_gen.Base.{
  ◌≡◌, refl, sym, ap, ap₂, ◌∙◌, Bool, true, false, List, [], ◌∷◌, ◌++◌, map, Option, none, some,
  arith, Bytes, append_assoc, append-nil,
}
use mathlib.Core.List.{map-append}
use schema_code_gen.Dom.{MemberVariable, Object}
use schema_code_gen.Outcome.{ok, fault}
use schema_code_gen.Rows.Links.{all_at}
use schema_code_gen.Rows.Member.{parse_member}
use schema_code_gen.Rows.{
  Row, Importer, RowKind, eof, named, row_kind, push_at, adopt_all, set_flags,
}

-- A group is an object's name with the members of the rows up to the next object.
abbrev pub Group : Type 0
Group = Bytes × List MemberVariable

-- The members that stand before the first object, and the groups.
abbrev pub Groups : Type 0
Groups = List MemberVariable × List Group

abbrev pub member_of : List Bytes → List MemberVariable
member_of [] = []
member_of ([] ∷ args) = []
member_of ((c ∷ name) ∷ args) = elim (parse_member c name args) [ ok di ↦ di ∷ [] | fault e ↦ [] ]

-- A row in front of grouped rows.
abbrev pub group_row : Bytes → List Bytes → Groups → Groups
group_row [] args g = (member_of args ++ g.0, g.1)
group_row (c ∷ name) args g = ([], (c ∷ name, g.0) ∷ g.1)

abbrev pub group_kind : RowKind → Bytes → List Bytes → Groups → Groups
group_kind eof first args g = ([], [])
group_kind named first args g = group_row first args g
group_kind _ first args g = g

abbrev pub group_rows : List Row → Groups
group_rows [] = ([], [])
group_rows (r ∷ rs) = group_kind (row_kind r.first) r.first r.others (group_rows rs)

-- Members with no object before them go to the first object.
abbrev pub attach : List MemberVariable → List Group → List Group
attach items [] = []
attach items (g ∷ gs) = (g.0, items ++ g.1) ∷ gs

abbrev pub group_of : Object → Group
group_of o = (o.name, o.items)

-- The groups of an importer that grouped rows follow. The flag is `mHaveObject`.
abbrev pub after : Bool → List Object → Object → Groups → List Group
after true os o g = map group_of os ++ (o.name, o.items ++ g.0) ∷ g.1
after false os o g = map group_of os ++ attach (o.items ++ g.0) g.1

abbrev pub groups_after : Importer → Groups → List Group
groups_after s g = after s.have_object s.dom.objects s.current_object g

-- With no row behind, these are the importer's objects.
pub after_none :
    (b : Bool) (os : List Object) (o : Object)
    → after b os o ([], []) ≡ map group_of (all_at b os o)
after_none true os o =
    ap (λ is. map group_of os ++ (o.name, is) ∷ []) (append-nil o.items)
    ∙ sym (map-append group_of os (o ∷ []))
after_none false os o = append-nil _

adopt_all-groups :
    (base : Option Bytes) (name : Bytes) (os : List Object)
    → map group_of (adopt_all base name os) ≡ map group_of os
adopt_all-groups none name os = refl
adopt_all-groups (some base) name [] = refl
adopt_all-groups (some base) name (o ∷ os) =
    ap₂ ◌∷◌ (ground arith) (adopt_all-groups (some base) name os)

pub set_flags-group : (a : Option Bytes) (o : Object) → group_of (set_flags a o) ≡ group_of o
set_flags-group none o = refl
set_flags-group (some a) o = ground arith

-- A new object starts a group behind those before it, and takes the members that had none.
pub start_groups :
    (b : Bool) (base : Option Bytes) (name : Bytes) (s : Importer) (o : Object) (g : Groups)
    → group_of o ≡ (name, (push_at b s).current_object.items)
    → after true (adopt_all base name (push_at b s).dom.objects) o g
      ≡ after b s.dom.objects s.current_object ([], (name, g.0) ∷ g.1)
start_groups true base name s o g e =
    let c = s.current_object in
    ap₂ ◌++◌ (adopt_all-groups base name (s.dom.objects ++ c ∷ [])) (with_group e)
    ∙ ap (λ gs. gs ++ (name, g.0) ∷ g.1) (map-append group_of s.dom.objects (c ∷ []))
    ∙ append_assoc (map group_of s.dom.objects) (group_of c ∷ []) ((name, g.0) ∷ g.1)
    ∙ ap (λ is. map group_of s.dom.objects ++ (c.name, is) ∷ (name, g.0) ∷ g.1)
        (sym (append-nil c.items))
  where
    with_group :
        {p : Group} → group_of o ≡ p → (o.name, o.items ++ g.0) ∷ g.1 ≡ (p.0, p.1 ++ g.0) ∷ g.1
    with_group = ap (λ (p : Group). (p.0, p.1 ++ g.0) ∷ g.1)
start_groups false base name s o g e =
    let items = s.current_object.items in
    ap₂ ◌++◌ (adopt_all-groups base name s.dom.objects)
      (ap (λ (p : Group). (p.0, p.1 ++ g.0) ∷ g.1) e)
    ∙ ap (λ is. map group_of s.dom.objects ++ (name, is ++ g.0) ∷ g.1) (sym (append-nil items))
