-- ===== src/Rows/Steps.antt =====
-- One row of src/CreateDOM.cpp's `processArgs` makes one step of the grouping.
use schema_code_gen.Base.{
  ℕ, ◌≡◌, ◌≢◌, refl, sym, ap, ◌∙◌, Bool, true, false, List, [], ◌∷◌, ◌++◌, map, Bytes, append_assoc,
  get_elem?, inl, inr,
}
use schema_code_gen.Dom.{MemberVariable, Object, Dom}
use schema_code_gen.Outcome.{ok, Ensures, Outcome-cases}
use schema_code_gen.Rows.Member.{parse_member}
use schema_code_gen.Rows.Outline.{
  Groups, attach, group_of, member_of, group_row, group_kind, after, groups_after, set_flags-group,
  start_groups,
}
use schema_code_gen.Rows.{
  Importer, RowKind, eof, header, named, push_at, push_current, object_columns, start_object,
  add_member, set_setting, dispatch,
}

-- `t` is `s` with grouped rows moved forward by `step`.
pub record Moves (s : Importer) (step : Groups → Groups) (t : Importer) : Type 0 where
  pub groups : (g : Groups) → groups_after t g ≡ groups_after s (step g)
  pub same_end : t.end_of_file ≡ s.end_of_file

member_groups :
    (b : Bool) (os : List Object) (o : Object) (di : MemberVariable) (g : Groups)
    → after b os (record o { items = o.items ++ di ∷ [] }) g ≡ after b os o (di ∷ g.0, g.1)
member_groups true os o di g =
    ap (λ is. map group_of os ++ (o.name, is) ∷ g.1) (append_assoc o.items (di ∷ []) g.0)
member_groups false os o di g =
    ap (λ is. map group_of os ++ attach is g.1) (append_assoc o.items (di ∷ []) g.0)

member_of-ok :
    (c : ℕ) (name : Bytes) (args : List Bytes) (di : MemberVariable)
    → parse_member c name args ≡ ok di
    → member_of ((c ∷ name) ∷ args) ≡ di ∷ []
member_of-ok c name args di e = rw (e, member_of)

add_member-Moves :
    (args : List Bytes) (s : Importer) → Ensures (Moves s (group_row [] args)) (add_member args s)
unfolding add_member
add_member-Moves [] s = record { groups = λ g. refl; same_end = refl }
add_member-Moves ([] ∷ args) s = record { groups = λ g. refl; same_end = refl }
add_member-Moves ((c ∷ name) ∷ args) s = elim (Outcome-cases (parse_member c name args)) [
  | inl (di, e) ↦ rw e (record {
    groups = λ g.
        member_groups s.have_object s.dom.objects s.current_object di g
        ∙ ap (λ ms. groups_after s (ms ++ g.0, g.1)) (sym (member_of-ok c name args di e));
    same_end = refl;
  })
  | inr (f, e) ↦ rw e tt
]

push_end : (b : Bool) (s : Importer) → (push_at b s).end_of_file ≡ s.end_of_file
push_end true s = refl
push_end false s = refl

start_object-Moves :
    (c : ℕ) (name : Bytes) (args : List Bytes) (s : Importer)
    → Moves s (group_row (c ∷ name) args) (start_object (c ∷ name) args s)
unfolding start_object
start_object-Moves c name args s =
    let o = object_columns (c ∷ name) args (push_current s).current_object in
    record {
      groups = λ g.
          start_groups s.have_object (get_elem? args 2) (c ∷ name) s o g
            (set_flags-group (get_elem? args 4) _);
      same_end = push_end s.have_object s;
    }

setting-Moves :
    (args : List Bytes) (f : Bytes → Dom) (s : Importer)
    → ((a : Bytes) → (f a).objects ≡ s.dom.objects)
    → Moves s (λ g. g) (set_setting args f s)
setting-Moves [] f s e = record { groups = λ g. refl; same_end = refl }
setting-Moves (a ∷ _) f s e = record {
  groups = λ g. ap (λ os. after s.have_object os s.current_object g) (e a);
  same_end = refl;
}

pub dispatch-Moves :
    (k : RowKind) (first : Bytes) (args : List Bytes) (s : Importer)
    → k ≢ eof
    → Ensures (Moves s (group_kind k first args)) (dispatch k first args s)
unfolding dispatch
dispatch-Moves eof first args s n = absurd (n refl)
dispatch-Moves header first args s n = record { groups = λ g. refl; same_end = refl }
dispatch-Moves named [] args s n = add_member-Moves args s
dispatch-Moves named (c ∷ first) args s n = start_object-Moves c first args s
dispatch-Moves _ first args s n = setting-Moves args _ s (λ a. refl)
