-- ===== src/Console/Nested.antt =====
-- From a file in CSV to generated files, app/main.cpp: the braces.
use schema_code_gen.Base.{suc, ◌≡◌, subst, false, [], ◌∷◌, Option, none, some, Bytes, length}
use schema_code_gen.CString.{c_string}
use schema_code_gen.Console.{files, main, main_files}
use schema_code_gen.Csv.Braceless.{c_string-IsBraceless, scan_rows-IsBraceless}
use schema_code_gen.Csv.Invariant.{Ends}
use schema_code_gen.Csv.{finish, finished, import_text, parse_csv}
use schema_code_gen.Dom.Braceless.{import_complete-IsBracelessDom}
use schema_code_gen.Dom.{is_empty}
use schema_code_gen.Emit.Depth.{IsBraceless}
use schema_code_gen.Outcome.{Outcome, ok, fault}
use schema_code_gen.Rows.Columns.{new_object-IsBraceless}
use schema_code_gen.Rows.Kept.{IsBracelessImporter, push_at-IsBraceless}
use schema_code_gen.Rows.{Importer, create, push_current}
use schema_code_gen.Save.Files.Nested.{IsBracelessDom}
use schema_code_gen.Save.Files.Printed.{FitsSources, WritesNestedFiles, saved_files_nested}
use schema_code_gen.Save.Files.{Sources, save_sources, print_sources}
use schema_code_gen.Values.Plain.{IsPlain}
use schema_code_gen.Values.{FloatStream}

-- The model of an importer.
abbrev HasBracelessDom : Importer → Type 0
HasBracelessDom s = IsBracelessDom s.dom

create-IsBraceless : (dir : Bytes) → IsBracelessImporter (create dir)
create-IsBraceless dir = record {
  namespace = tt;
  filename = tt;
  url = tt;
  objects = tt;
  current = new_object-IsBraceless;
}

finish-IsBraceless : (s : Importer) → IsBracelessImporter s → HasBracelessDom (finish s)
finish-IsBraceless s h =
    let t = push_at-IsBraceless s.have_object s h in
    import_complete-IsBracelessDom (push_current s).dom
      record { namespace = t.namespace; filename = t.filename; url = t.url; objects = t.objects }

finished-IsBraceless :
    (o : Option (Outcome Importer)) → Ends IsBracelessImporter o → Ends HasBracelessDom (finished o)
finished-IsBraceless none h = tt
finished-IsBraceless (some (ok t)) h = finish-IsBraceless t h
finished-IsBraceless (some (fault e)) h = tt

-- The file cannot be opened, or holds no brace.
abbrev pub IsBracelessFile : Option Bytes → Type 0
IsBracelessFile none = Unit
IsBracelessFile (some text) = IsBraceless text

pub parse_csv-IsBraceless :
    (dir : Bytes) (file : Option Bytes)
    → IsBracelessFile file
    → Ends HasBracelessDom (parse_csv (create dir) file)
unfolding parse_csv import_text
parse_csv-IsBraceless dir none h = record { namespace = tt; filename = tt; url = tt; objects = tt }
parse_csv-IsBraceless dir (some []) h = finish-IsBraceless (create dir) (create-IsBraceless dir)
parse_csv-IsBraceless dir (some (c ∷ text)) h =
    let bytes = c_string (c ∷ text) in
    finished-IsBraceless _ (
      scan_rows-IsBraceless (suc (length bytes)) (create dir) bytes
        (c_string-IsBraceless (c ∷ text) h) (create-IsBraceless dir))

-- Where a file without braces is imported as a schema with a namespace and a file name, which is not
-- plain old data and which code is generated for, in lines that fit the printer's buffer, and floating
-- point numbers print without braces, the program ends with the printers of these lines, and what is
-- written to the header and to the source file closes every brace that it opens, and no other, whatever
-- they held before.
pub main_nested :
    (f : FloatStream) (disk : Bytes → Option Bytes) (program csv dest_dir : Bytes) (s : Importer)
    (lines : Sources)
    → IsPlain f
    → IsBracelessFile (disk csv)
    → parse_csv (create dest_dir) (disk csv) ≡ some (ok s)
    → s.dom.plain_old_data ≡ false
    → is_empty s.dom.namespace ≡ false
    → is_empty s.dom.filename ≡ false
    → save_sources f s.dom ≡ ok lines
    → FitsSources lines
    → let printed = print_sources s.dest_dir false s.dom lines in
      (main f disk (program ∷ csv ∷ dest_dir ∷ []) ≡ some (ok (files printed)))
      × WritesNestedFiles printed
main_nested f disk program csv dest_dir s lines plain h e p n m g fit =
    let dom : IsBracelessDom s.dom =
      subst (Ends HasBracelessDom) e (parse_csv-IsBraceless dest_dir (disk csv) h) in
    (
      main_files f disk program csv dest_dir s lines e p n m g,
      saved_files_nested f s.dom s.dest_dir false lines plain dom g fit,
    )
