-- ===== src/Save/Files.antt =====
-- `CreateDOMDef::saveCPP` of src/CreateDOM.cpp where the schema is not "plain old data": the header,
-- the source file and the file for TypeScript.
pub mod Calls
pub mod Deserializer
pub mod Around
pub mod Nested
pub mod Printed
use schema_code_gen.Base.{
  Bool, true, false, ◌++◌, List, [], ◌∷◌, Option, none, some, Bytes, codes, if◌then◌else◌,
}
use schema_code_gen.CString.{stricmp_eq, truncate}
use schema_code_gen.Dom.{Object, Dom, is_empty}
use schema_code_gen.Emit.Nested.{each}
use schema_code_gen.Emit.{fill}
use schema_code_gen.Outcome.{Outcome, ok, fault, ◌>>=◌}
use schema_code_gen.Paths.{fpout}
use schema_code_gen.Printer.Lines.{Line, print_lines}
use schema_code_gen.Printer.{CodePrinter, new_printer}
use schema_code_gen.Save.Class.{save_class}
use schema_code_gen.Save.Deserialize.{save_deserialize, save_deserialize_header}
use schema_code_gen.Save.Enums.{save_enum_functions, save_enum_header}
use schema_code_gen.Save.Script.{save_script}
use schema_code_gen.Save.Serialize.{save_serialize, save_serialize_header}
use schema_code_gen.Values.{FloatStream}
use Calls.{
  file_slot, header_begin, declare_unstringify, source_begin, serializer_begin, header_end,
  source_end,
}
use Deserializer.{string_to_int, deserializer_begin, deserializer_header}

-- The lines of each object in order, up to the first fault.
unfoldable pub each_ok : (Object → Outcome (List Line)) → List Object → Outcome (List Line)
each_ok save [] = ok []
each_ok save (o ∷ os) = let rest = each_ok save os in save o >>= λ ls. rest >>= λ ms. ok (ls ++ ms)

-- What `Object::saveTypeScript` prints besides TypeScript, for an enum only.
abbrev pub enum_header : Object → List Line
enum_header o = if stricmp_eq o.type (codes "Enum") then save_enum_header o else []

abbrev pub enum_functions : Object → List Line
enum_functions o = if stricmp_eq o.type (codes "Enum") then save_enum_functions o else []

-- What the three files are printed from.
pub record Sources : Type 0 where
  pub header : List Line
  pub source : List Line
  pub script : List Line

-- The lines of the header, with those of the classes.
unfoldable pub header_lines : Dom → List Line → List Line
unfolding header_begin declare_unstringify deserializer_header header_end stricmp_eq
    save_enum_header save_serialize_header save_deserialize_header
header_lines d classes =
    fill (file_slot d) header_begin
    ++ ((classes
          ++ (fill (file_slot d) declare_unstringify
              ++ (each enum_header d.objects
                  ++ (each save_serialize_header d.objects
                      ++ (fill (file_slot d) deserializer_header
                          ++ each save_deserialize_header d.objects)))))
        ++ fill (file_slot d) header_end)

-- The lines of the source file, with those of the writers and readers.
unfoldable pub source_lines : Dom → (writers readers : List Line) → List Line
unfolding source_begin serializer_begin string_to_int deserializer_begin source_end stricmp_eq
    save_enum_functions
source_lines d writers readers =
    fill (file_slot d) source_begin
    ++ ((each enum_functions d.objects
          ++ (fill (file_slot d) serializer_begin
              ++ (writers
                  ++ (fill (file_slot d) string_to_int
                      ++ (fill (file_slot d) deserializer_begin ++ readers)))))
        ++ fill (file_slot d) source_end)

unfoldable pub save_sources : FloatStream → Dom → Outcome Sources
unfolding each_ok header_lines source_lines save_class save_serialize save_deserialize save_script
save_sources f d = each_ok (save_class f d) d.objects >>= λ classes.
    each_ok (save_serialize d.objects) d.objects >>= λ writers.
    each_ok (save_deserialize d.objects) d.objects >>= λ readers. ok record {
      header = header_lines d classes;
      source = source_lines d writers readers;
      script = each save_script d.objects;
    }

-- The printers, with the names of their files; the one for TypeScript has no name where it is not
-- asked for.
pub record Printers : Type 0 where
  pub dom : CodePrinter
  pub cpp : CodePrinter
  pub type_script : CodePrinter

abbrev pub file_path : Dom → Bytes → Bytes → Bytes
file_path d suffix dest_dir = (fpout (truncate 512 (d.filename ++ suffix)) dest_dir).1

unfoldable pub print_sources :
    (dest_dir : Bytes) (save_type_script : Bool) → Dom → Sources → Printers
unfolding truncate
print_sources dest_dir save_type_script d s = record {
  dom = print_lines s.header (new_printer (file_path d (codes ".h") dest_dir));
  cpp = print_lines s.source (new_printer (file_path d (codes ".cpp") dest_dir));
  type_script =
      print_lines s.script
        (new_printer (if save_type_script then file_path d (codes ".ts") dest_dir else []));
}

-- `saveCPP` with the `saveTypeScript` that it calls: nothing without a namespace or a file name.
unfoldable pub save_cpp :
    FloatStream → (dest_dir : Bytes) (save_type_script : Bool) → Dom → Outcome (Option Printers)
unfolding save_sources print_sources
save_cpp f dest_dir save_type_script d =
    if is_empty d.namespace
    then ok none
    else if is_empty d.filename
    then ok none
    else save_sources f d >>= λ s. ok (some (print_sources dest_dir save_type_script d s))
