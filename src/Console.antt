-- ===== src/Console.antt =====
-- The console program, app/main.cpp: the import of a file, and the files that are generated.
pub mod Nested
use schema_code_gen.Base.{
  ◌≡◌, refl, ap, ap₂, ◌∙◌, Bool, true, false, List, [], ◌∷◌, Option, none, some, Bytes,
  if◌then◌else◌,
}
use schema_code_gen.Csv.{parse_csv}
use schema_code_gen.Dom.{is_empty}
use schema_code_gen.Outcome.{Outcome, ok, fault, ◌>>=◌}
use schema_code_gen.Rows.{Importer, create}
use schema_code_gen.Save.Files.{Sources, save_sources, Printers, print_sources, save_cpp}
use schema_code_gen.Values.{FloatStream}

-- The usage; the files, where the names are set; for "plain old data" the state that the other branch
-- of `saveCPP` starts with, which is not modelled.
pub data Exit : Type 0 where
  usage : Exit
  no_names : Exit
  files : Printers → Exit
  plain_data : Importer → Exit

abbrev exit_of : Option Printers → Exit
exit_of none = no_names
exit_of (some p) = files p

-- `cdom->saveCPP(true, false)`, whose first tests are the same for plain old data.
unfoldable pub generate : FloatStream → Importer → Outcome Exit
unfolding save_cpp
generate f s =
    if s.dom.plain_old_data
    then ok (plain_data s)
    else save_cpp f s.dest_dir false s.dom >>= λ p. ok (exit_of p)

-- `saveCPP` behind `parseCSV`.
abbrev after_import : FloatStream → Option (Outcome Importer) → Option (Outcome Exit)
after_import f none = none
after_import f (some r) = some (r >>= generate f)

-- `main`, with the bytes of the files on disk.
unfoldable pub main :
    FloatStream → (disk : Bytes → Option Bytes) (argv : List Bytes) → Option (Outcome Exit)
unfolding parse_csv generate
main f disk (program ∷ csv ∷ dest_dir ∷ more) =
    after_import f (parse_csv (create dest_dir) (disk csv))
main f disk _ = some (ok usage)

-- What the program leaves for a file is what is generated from the model that the import of the file
-- leaves: where the schema is not plain old data and the files are printed, they are the printed
-- lines of the three writers, and the file for TypeScript has no name.
pub main_files :
    (f : FloatStream) (disk : Bytes → Option Bytes) (program csv dest_dir : Bytes) (s : Importer)
    (lines : Sources)
    → parse_csv (create dest_dir) (disk csv) ≡ some (ok s)
    → s.dom.plain_old_data ≡ false
    → is_empty s.dom.namespace ≡ false
    → is_empty s.dom.filename ≡ false
    → save_sources f s.dom ≡ ok lines
    → main f disk (program ∷ csv ∷ dest_dir ∷ [])
      ≡ some (ok (files (print_sources s.dest_dir false s.dom lines)))
unfolding main generate save_cpp
main_files f disk program csv dest_dir s lines e p n m h =
    let printed = ap (λ l. l >>= λ x. ok (some (print_sources s.dest_dir false s.dom x))) h in
    let named : save_cpp f s.dest_dir false s.dom
        ≡ ok (some (print_sources s.dest_dir false s.dom lines)) =
      ap₂
        (λ x y.
          if x
          then ok none
          else if y
          then ok none
          else save_sources f s.dom >>= λ x. ok (some (print_sources s.dest_dir false s.dom x)))
        n m
      ∙ printed in
    ap (after_import f) e
    ∙ ap₂ (λ x l. some (if x then ok (plain_data s) else l >>= λ q. ok (exit_of q))) p named
