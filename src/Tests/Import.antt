-- ===== src/Tests/Import.antt =====
-- The import of a small schema, and the theorems about it at concrete inputs.
use Prim.Native.String.{String}
use schema_code_gen.Base.{
  ℕ, zero, suc, ◌≡◌, refl, inr, false, List, [], ◌∷◌, ◌++◌, map, All, ◌<◌, Option, none, some,
  arith, Bytes, codes, replicate, length, text_eq,
}
use schema_code_gen.CString.{stricmp_eq}
use schema_code_gen.Csv.Fuel.{parse_csv_total}
use schema_code_gen.Csv.Groups.{feed-group_rows}
use schema_code_gen.Csv.LastRow.{import_text_drops_last, IsPartial}
use schema_code_gen.Csv.Links.{parse_csv-Linked}
use schema_code_gen.Csv.Overrun.{import_text_overrun}
use schema_code_gen.Csv.Print.{print_table, print_columns, IsPrintable, IsPlain}
use schema_code_gen.Csv.RoundTrip.{feed, import_text-print_table}
use schema_code_gen.Csv.{
  scan_field, scan_row, skip_linefeeds, round_at, import_text, parse_csv, max_argv,
}
use schema_code_gen.Dom.Complete.{import_complete, find_object}
use schema_code_gen.Dom.Lookup.{last_named, find_object-import_complete}
use schema_code_gen.Dom.Spec.{completed, import_complete-objects}
use schema_code_gen.Dom.{Object}
use schema_code_gen.Outcome.{Outcome, ok, fault, argv_overrun}
use schema_code_gen.Rows.Children.{Linked}
use schema_code_gen.Rows.Links.{all_objects}
use schema_code_gen.Rows.Member.{parse_member}
use schema_code_gen.Rows.Outline.{attach, group_of, group_rows}
use schema_code_gen.Rows.{Row, Importer, create, start_object, add_member, process_args}

abbrev row : String → List Bytes → Row
row first others = record { first = codes first; others = others }

abbrev demo_rows : List Row
demo_rows =
    row "Filename" (codes "demo" ∷ [])
    ∷ row "Base" ([] ∷ codes "Class" ∷ [])
    ∷ row "" (codes "id" ∷ codes "u32" ∷ [])
    ∷ row "Leaf" ([] ∷ codes "Class" ∷ codes "Base" ∷ [])
    ∷ row "" (codes "tags[]" ∷ codes "string" ∷ [])
    ∷ row "" (codes "note?" ∷ codes "string" ∷ [] ∷ [] ∷ codes "hello, you" ∷ [])
    ∷ row "EOF" ([] ∷ [])
    ∷ []

abbrev demo_text : Bytes
demo_text =
    codes "Filename,demo\nBase,,Class\n,id,u32\nLeaf,,Class,Base\n,tags[],string\n"
    ++ codes ",note?,string,,,\"hello, you\"\nEOF,\n"

demo_printed : print_table demo_rows ≡ demo_text
demo_printed = refl

-- The names of the objects, and the members with their flags.
abbrev objects_of : Option (Outcome Importer) → List Object
objects_of (some (ok t)) = t.dom.objects
objects_of _ = []

abbrev names_in : Option (Outcome Importer) → List Bytes
names_in (some (ok t)) = map (λ (o : Object). o.name) t.dom.objects
names_in _ = []

demo_names : names_in (parse_csv (create []) (some demo_text)) ≡ codes "Base" ∷ codes "Leaf" ∷ []
unfolding parse_csv round_at skip_linefeeds scan_row scan_field process_args start_object add_member
    parse_member import_complete stricmp_eq text_eq
demo_names = refl

-- The column with the comma is the default value of the last member.
demo_outline :
    map (λ (o : Object). length o.items) (objects_of (parse_csv (create []) (some demo_text)))
    ≡ 1 ∷ 2 ∷ []
unfolding parse_csv round_at skip_linefeeds scan_row scan_field process_args start_object add_member
    parse_member import_complete stricmp_eq text_eq
demo_outline = refl

printable :
    (first : String) (column : Bytes) (columns : List Bytes)
    → length columns < 127
    → IsPlain (codes first)
    → IsPlain column
    → All IsPlain columns
    → IsPrintable (row first (column ∷ columns))
printable first column columns h p q ps = record {
  fits = omega arith;
  first_plain = p;
  others_plain = (q, ps);
  not_blank = inr (λ n. cc);
}

demo_rows-IsPrintable : All IsPrintable demo_rows
demo_rows-IsPrintable = (
  printable "Filename" (codes "demo") [] (omega arith) (ground arith) (ground arith) (ground arith),
  (
    printable "Base" [] (codes "Class" ∷ []) (omega arith) (ground arith) (ground arith)
        (ground arith),
    (
      printable "" (codes "id") (codes "u32" ∷ []) (omega arith) (ground arith) (ground arith)
          (ground arith),
      (
        printable "Leaf" [] (codes "Class" ∷ codes "Base" ∷ []) (omega arith) (ground arith)
            (ground arith) (ground arith),
        (
          printable "" (codes "tags[]") (codes "string" ∷ []) (omega arith) (ground arith)
              (ground arith) (ground arith),
          (
            printable "" (codes "note?") (codes "string" ∷ [] ∷ [] ∷ codes "hello, you" ∷ [])
                (omega arith) (ground arith) (ground arith) (ground arith),
            (printable "EOF" [] [] (omega arith) (ground arith) (ground arith) (ground arith), tt),
          ),
        ),
      ),
    ),
  ),
)

import_text-print_table_example :
    import_text (create []) (print_table demo_rows)
    ≡ some (feed (record (create []) { end_of_file = false }) demo_rows)
import_text-print_table_example =
    import_text-print_table (create []) demo_rows demo_rows-IsPrintable

All-replicate : (n : ℕ) (f : Bytes) → IsPlain f → All IsPlain (replicate n f)
All-replicate zero f h = tt
All-replicate (suc n) f h = (h, All-replicate n f h)

-- The importer after the rows of the schema, before and behind the end of the import.
abbrev fed : Importer
fed = elim (feed (create []) demo_rows) [ ok t ↦ t | fault e ↦ create [] ]

feed-fed : feed (create []) demo_rows ≡ ok fed
unfolding process_args start_object add_member parse_member stricmp_eq text_eq feed
feed-fed = refl

abbrev imported : Option (Outcome Importer) → Importer
imported (some (ok t)) = t
imported _ = create []

abbrev demo : Importer
demo = imported (parse_csv (create []) (some demo_text))

parse_csv-demo : parse_csv (create []) (some demo_text) ≡ some (ok demo)
unfolding parse_csv round_at skip_linefeeds scan_row scan_field process_args start_object add_member
    parse_member import_complete stricmp_eq text_eq
parse_csv-demo = refl

feed-group_rows_example :
    map group_of (all_objects fed) ≡ attach (group_rows demo_rows).0 (group_rows demo_rows).1
feed-group_rows_example = feed-group_rows [] demo_rows fed feed-fed

parse_csv-Linked_example : Linked demo.dom.objects
parse_csv-Linked_example = parse_csv-Linked [] demo_text demo parse_csv-demo

parse_csv_total_example : (r : Outcome Importer) × (parse_csv (create []) (some demo_text) ≡ some r)
parse_csv_total_example = parse_csv_total (create []) (some demo_text)

import_complete-objects_example :
    (import_complete fed.dom).objects ≡ map (completed fed.dom.objects) fed.dom.objects
import_complete-objects_example = import_complete-objects fed.dom

fed_unmapped : fed.dom.object_map ≡ []
unfolding process_args start_object add_member parse_member stricmp_eq text_eq feed
fed_unmapped = refl

find_object-import_complete_example :
    find_object (import_complete fed.dom) (codes "Base")
    ≡ last_named (codes "Base") (map (completed fed.dom.objects) fed.dom.objects) none
find_object-import_complete_example =
    find_object-import_complete fed.dom (codes "Base") fed_unmapped

-- A member row with no linefeed behind it.
abbrev demo_last : Bytes
demo_last = codes ",size,u16"

demo_last-IsPartial : IsPartial max_argv demo_last
demo_last-IsPartial = record { plain = ground arith; one_line = ground arith; few = omega arith }

import_text_drops_last_example :
    import_text (create []) (print_table demo_rows ++ demo_last)
    ≡ some (feed (record (create []) { end_of_file = false }) demo_rows)
import_text_drops_last_example =
    import_text_drops_last (create []) demo_rows demo_last demo_rows-IsPrintable demo_last-IsPartial

-- The name of an object and 128 columns behind it.
abbrev long_columns : List Bytes
long_columns = replicate 128 (codes "x")

long_columns-IsPlain : All IsPlain long_columns
long_columns-IsPlain = All-replicate 128 (codes "x") (ground arith)

import_text_overrun_example :
    import_text (create []) (print_columns (codes "Base") long_columns ++ codes "EOF\n")
    ≡ some (fault argv_overrun)
import_text_overrun_example =
    import_text_overrun (create []) (codes "Base") long_columns (codes "EOF\n") (omega arith)
      (ground arith) long_columns-IsPlain
