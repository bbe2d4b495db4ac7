-- ===== src/Csv/Groups.antt =====
-- The objects that the rows of a whole file make in src/CreateDOM.cpp, against the rows grouped by
-- object.
use schema_code_gen.Base.{
  ◌≡◌, ◌≢◌, refl, sym, ap, ◌∙◌, Bool, true, false, List, [], ◌∷◌, map, Bytes, ◌⊎◌, inl, inr,
}
use schema_code_gen.Csv.RoundTrip.{feed, feed_end, feed_step}
use schema_code_gen.Outcome.{Outcome, ok, fault, Ensures-ok, bind-eq-ok, ◌>>=◌}
use schema_code_gen.Rows.Links.{all_objects}
use schema_code_gen.Rows.Outline.{
  Group, attach, group_of, group_kind, group_rows, after_none, groups_after,
}
use schema_code_gen.Rows.Steps.{Moves, dispatch-Moves}
use schema_code_gen.Rows.{
  Row, Importer, create, RowKind, eof, row_kind, dispatch, process_at, process_args,
}

RowKind-cases : (k : RowKind) → (k ≡ eof) ⊎ (k ≢ eof)
RowKind-cases eof = inl refl
RowKind-cases _ = inr (λ e. cc)

process_at-dispatch :
    (b : Bool) (s : Importer) (r : Row)
    → b ≡ false
    → process_at b s r ≡ dispatch (row_kind r.first) r.first r.others s
unfolding process_at
process_at-dispatch b s r e = rw e

process_args-dispatch :
    (s : Importer) (r : Row)
    → s.end_of_file ≡ false
    → process_args s r ≡ dispatch (row_kind r.first) r.first r.others s
unfolding process_args
process_args-dispatch s r e = process_at-dispatch s.end_of_file s r e

feed-ended : (s : Importer) (rs : List Row) → s.end_of_file ≡ true → feed s rs ≡ ok s
unfolding feed
feed-ended s [] e = refl
feed-ended s (r ∷ rs) e = feed_end s r rs e

-- The end of the rows, and an `EOF` row, leave the groups as they are.
none_after : (s : Importer) → groups_after s ([], []) ≡ map group_of (all_objects s)
none_after s = after_none s.have_object s.dom.objects s.current_object

feed_eof :
    (s : Importer) (r : Row) (rs : List Row)
    → s.end_of_file ≡ false
    → row_kind r.first ≡ eof
    → feed s (r ∷ rs) ≡ ok (record s { end_of_file = true })
unfolding dispatch
feed_eof s r rs e k =
    feed_step s r rs e
    ∙ ap (λ m. m >>= λ t. feed t rs)
        (process_args-dispatch s r e ∙ ap (λ k. dispatch k r.first r.others s) k)
    ∙ feed-ended (record s { end_of_file = true }) rs refl

abbrev groups_in : Outcome Importer → List Group
groups_in (ok t) = map group_of (all_objects t)
groups_in (fault e) = []

feed-groups :
    (s : Importer) (rs : List Row) (t : Importer)
    → s.end_of_file ≡ false
    → feed s rs ≡ ok t
    → map group_of (all_objects t) ≡ groups_after s (group_rows rs)
unfolding feed
feed-groups s [] t e f = ap groups_in (sym f) ∙ sym (none_after s)
feed-groups s (r ∷ rs) t e f = elim (RowKind-cases (row_kind r.first)) [
  | inl k ↦
      ap groups_in (sym f ∙ feed_eof s r rs e k)
      ∙ sym (none_after s)
      ∙ ap (λ k. groups_after s (group_kind k r.first r.others (group_rows rs))) (sym k)
  | inr n ↦
      let (s', p, f') =
        bind-eq-ok (process_args s r) (λ s. feed s rs) (sym (feed_step s r rs e) ∙ f) in
      let m : Moves s (group_kind (row_kind r.first) r.first r.others) s' =
        Ensures-ok (Moves s _) _ s' (sym (process_args-dispatch s r e) ∙ p)
          (dispatch-Moves (row_kind r.first) r.first r.others s n) in
      feed-groups s' rs t (m.same_end ∙ e) f' ∙ m.groups (group_rows rs)
]

-- The objects of a new importer, once it is fed any rows without a fault, are the groups of the
-- rows before the first `EOF`: one for each object row, in order, with the members of the member
-- rows up to the next object row. Members with no object before them go to the first object,
-- and are dropped if there is none.
pub feed-group_rows :
    (dir : Bytes) (rs : List Row) (t : Importer)
    → feed (create dir) rs ≡ ok t
    → map group_of (all_objects t) ≡ attach (group_rows rs).0 (group_rows rs).1
feed-group_rows dir rs t f = feed-groups (create dir) rs t refl f
