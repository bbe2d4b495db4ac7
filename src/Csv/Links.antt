-- ===== src/Csv/Links.antt =====
-- The links between the objects after a whole import, `parseCSV` of src/CreateDOM.cpp.
use schema_code_gen.Base.{◌≡◌, refl, sym, ap, subst, ◌∙◌, Bool, true, false, map, some, Bytes}
use schema_code_gen.Csv.Invariant.{Ends, parse_csv-Ends}
use schema_code_gen.Csv.{finish, parse_csv}
use schema_code_gen.Dom.Spec.{completed, import_complete-objects}
use schema_code_gen.Outcome.{ok}
use schema_code_gen.Rows.Children.{Linked, Linked-map}
use schema_code_gen.Rows.Links.{all_at, all_objects, IsLinked, process_args-IsLinked}
use schema_code_gen.Rows.{Importer, create, push_at, push_current}

push_at_objects :
    (b : Bool) (s : Importer) → (push_at b s).dom.objects ≡ all_at b s.dom.objects s.current_object
push_at_objects true s = refl
push_at_objects false s = refl

-- The end of the import completes the finished objects and the current one.
pub finish_objects :
    (s : Importer) → (finish s).dom.objects ≡ map (completed (all_objects s)) (all_objects s)
finish_objects s =
    import_complete-objects (push_current s).dom
    ∙ ap (λ os. map (completed os) os) (push_at_objects s.have_object s)

finish-Linked : (s : Importer) → IsLinked s → Linked (finish s).dom.objects
finish-Linked s h = subst Linked (sym (finish_objects s)) (
    Linked-map (completed (all_objects s)) (record { name_kept = λ o. refl; base_kept = λ o. refl })
      (λ o. refl) (all_objects s) h.linked)

-- After the import of any file into a new importer every object has a name, and its children are
-- the names, in file order, of exactly those later objects that name it as their base.
pub parse_csv-Linked :
    (dir file : Bytes) (t : Importer)
    → parse_csv (create dir) (some file) ≡ some (ok t)
    → Linked t.dom.objects
parse_csv-Linked dir file t e =
    let start : IsLinked (create dir) = record { linked = tt; blank = (refl, refl) } in
    let again : IsLinked (record (create dir) { end_of_file = false }) = record {
      linked = tt;
      blank = (refl, refl);
    } in
    subst (Ends (λ s. Linked s.dom.objects)) e (
      parse_csv-Ends IsLinked process_args-IsLinked (λ s. Linked s.dom.objects) finish-Linked
        (create dir) file start again)
