-- ===== src/Rows/Kept.antt =====
-- Rows whose columns have no braces keep the model without braces, in src/CreateDOM.cpp's
-- `processArgs`.
use schema_code_gen.Base.{Bool, true, false, List, [], ◌∷◌, ◌++◌, Bytes, All, All-append, get_elem?}
use schema_code_gen.Dom.{Dom}
use schema_code_gen.Emit.Depth.{IsBraceless}
use schema_code_gen.Outcome.{Ensures, bind-Ensures}
use schema_code_gen.Rows.Braceless.{parse_member-Ensures}
use schema_code_gen.Rows.Columns.{
  new_object-IsBraceless, adopt_all-IsBraceless, object_columns-IsBraceless,
}
use schema_code_gen.Rows.Member.{parse_member}
use schema_code_gen.Rows.{
  Importer, push_at, push_current, start_object, add_member, name_row, set_setting, RowKind, eof,
  filename, namespace, pod, export_xml, url, header, named, row_kind, dispatch, process_at,
  process_args,
}
use schema_code_gen.Save.Braceless.{IsBracelessMember, IsBracelessObject}

pub record IsBracelessImporter (s : Importer) : Type 0 where
  pub namespace : IsBraceless s.dom.namespace
  pub filename : IsBraceless s.dom.filename
  pub url : IsBraceless s.dom.url
  pub objects : All IsBracelessObject s.dom.objects
  pub current : IsBracelessObject s.current_object

pub push_at-IsBraceless :
    (b : Bool) (s : Importer) → IsBracelessImporter s → IsBracelessImporter (push_at b s)
push_at-IsBraceless true s h = record {
  namespace = h.namespace;
  filename = h.filename;
  url = h.url;
  objects = All-append _ s.dom.objects (s.current_object ∷ []) h.objects (h.current, tt);
  current = new_object-IsBraceless;
}
push_at-IsBraceless false s h = h

start_object-IsBraceless :
    (name : Bytes) (args : List Bytes) (s : Importer)
    → IsBraceless name
    → All IsBraceless args
    → IsBracelessImporter s
    → IsBracelessImporter (start_object name args s)
unfolding start_object
start_object-IsBraceless name args s hn ha hs =
    let t = push_current s in
    let h = push_at-IsBraceless s.have_object s hs in
    record {
      namespace = h.namespace;
      filename = h.filename;
      url = h.url;
      objects = adopt_all-IsBraceless (get_elem? args 2) name t.dom.objects h.objects;
      current = object_columns-IsBraceless name args t.current_object hn ha h.current;
    }

add_member-Ensures :
    (args : List Bytes) (s : Importer)
    → All IsBraceless args
    → IsBracelessImporter s
    → Ensures IsBracelessImporter (add_member args s)
unfolding add_member
add_member-Ensures [] s ha h = h
add_member-Ensures ([] ∷ args) s ha h = h
add_member-Ensures ((c ∷ name) ∷ args) s (hn, ha) h =
    let o = h.current in
    bind-Ensures IsBracelessMember IsBracelessImporter (parse_member c name args) _
      (parse_member-Ensures c name args hn ha)
      λ di k.
        let current : IsBracelessObject
            (record s.current_object { items = s.current_object.items ++ di ∷ [] }) =
          record {
            name = o.name;
            inherits_from = o.inherits_from;
            alias = o.alias;
            short_description = o.short_description;
            long_description = o.long_description;
            items = All-append _ s.current_object.items (di ∷ []) o.items (k, tt);
          } in
        record {
          namespace = h.namespace;
          filename = h.filename;
          url = h.url;
          objects = h.objects;
          current = current;
        }

name_row-Ensures :
    (first : Bytes) (args : List Bytes) (s : Importer)
    → IsBraceless first
    → All IsBraceless args
    → IsBracelessImporter s
    → Ensures IsBracelessImporter (name_row first args s)
unfolding name_row
name_row-Ensures [] args s hf ha h = add_member-Ensures args s ha h
name_row-Ensures (c ∷ name) args s hf ha h = start_object-IsBraceless (c ∷ name) args s hf ha h

set_setting-IsBraceless :
    (args : List Bytes) (f : Bytes → Dom) (s : Importer)
    → All IsBraceless args
    → IsBracelessImporter s
    → ((a : Bytes) → IsBraceless a → IsBracelessImporter (record s { dom = f a }))
    → IsBracelessImporter (set_setting args f s)
set_setting-IsBraceless [] f s ha h k = h
set_setting-IsBraceless (a ∷ args) f s (ha, _) h k = k a ha

dispatch-Ensures :
    (k : RowKind) (first : Bytes) (args : List Bytes) (s : Importer)
    → IsBraceless first
    → All IsBraceless args
    → IsBracelessImporter s
    → Ensures IsBracelessImporter (dispatch k first args s)
unfolding dispatch
dispatch-Ensures eof first args s hf ha h = record {
  namespace = h.namespace;
  filename = h.filename;
  url = h.url;
  objects = h.objects;
  current = h.current;
}
dispatch-Ensures filename first args s hf ha h = set_setting-IsBraceless args _ s ha h λ a k.
    record {
      namespace = h.namespace;
      filename = k;
      url = h.url;
      objects = h.objects;
      current = h.current;
    }
dispatch-Ensures namespace first args s hf ha h = set_setting-IsBraceless args _ s ha h λ a k.
    record {
      namespace = k;
      filename = h.filename;
      url = h.url;
      objects = h.objects;
      current = h.current;
    }
dispatch-Ensures pod first args s hf ha h = set_setting-IsBraceless args _ s ha h λ a k. record {
  namespace = h.namespace;
  filename = h.filename;
  url = h.url;
  objects = h.objects;
  current = h.current;
}
dispatch-Ensures export_xml first args s hf ha h = set_setting-IsBraceless args _ s ha h λ a k.
    record {
      namespace = h.namespace;
      filename = h.filename;
      url = h.url;
      objects = h.objects;
      current = h.current;
    }
dispatch-Ensures url first args s hf ha h = set_setting-IsBraceless args _ s ha h λ a k. record {
  namespace = h.namespace;
  filename = h.filename;
  url = k;
  objects = h.objects;
  current = h.current;
}
dispatch-Ensures header first args s hf ha h = h
dispatch-Ensures named first args s hf ha h = name_row-Ensures first args s hf ha h

pub process_args-IsBraceless :
    (s : Importer) (first : Bytes) (others : List Bytes)
    → IsBraceless first
    → All IsBraceless others
    → IsBracelessImporter s
    → Ensures IsBracelessImporter (process_args s record { first = first; others = others })
unfolding process_args process_at
process_args-IsBraceless s first others hf ha h = at_flag s.end_of_file
  where
    at_flag :
        (b : Bool)
        → Ensures IsBracelessImporter (process_at b s record { first = first; others = others })
    at_flag true = h
    at_flag false = dispatch-Ensures (row_kind first) first others s hf ha h
