-- ===== src/Save/Files/Printed.antt =====
-- The files that `CreateDOMDef::saveCPP` of src/CreateDOM.cpp leaves on disk.
use schema_code_gen.Base.{
  ◌≡◌, subst, Bool, true, false, List, Option, none, some, Bytes, if◌then◌else◌,
}
use schema_code_gen.Dom.{Dom, is_empty}
use schema_code_gen.Emit.Depth.{depth}
use schema_code_gen.Emit.Nested.{IsNested}
use schema_code_gen.Emit.Printed.{Fits, print_lines-nested}
use schema_code_gen.Outcome.{ok, Ensures-ok}
use schema_code_gen.Printer.Lines.{Line, print_lines}
use schema_code_gen.Printer.{CodePrinter, new_printer, OldFile, need_save, finalize}
use schema_code_gen.Save.Files.Nested.{IsBracelessDom, IsNestedSources, save_sources-IsNested}
use schema_code_gen.Save.Files.{Sources, save_sources, Printers, print_sources}
use schema_code_gen.Values.Plain.{IsPlain}
use schema_code_gen.Values.{FloatStream}

-- Every line fits the buffer of `printCode`.
pub record FitsSources (s : Sources) : Type 0 where
  pub header : Fits s.header
  pub source : Fits s.source
  pub script : Fits s.script

-- What is written to the file of a printer, if anything is, closes every brace that it opens, and
-- no other.
abbrev pub WritesNested : CodePrinter → Type 0
WritesNested p =
    (old : OldFile) (out : Bytes) → (finalize p old).1 ≡ some out → depth 0 out ≡ some 0

if-some :
    (b : Bool) (o : Option Bytes) (out : Bytes) → (if b then none else o) ≡ some out → o ≡ some out
if-some true o out e = cc
if-some false o out e = e

if-some-eq : (b : Bool) (s out : Bytes) → (if b then some s else none) ≡ some out → s ≡ out
if-some-eq true s out e = cc
if-some-eq false s out e = cc

finalize-output :
    (p : CodePrinter) (old : OldFile) (out : Bytes) → (finalize p old).1 ≡ some out → p.output ≡ out
unfolding finalize
finalize-output p old out e =
    if-some-eq (need_save p.output old) p.output out
      (if-some (is_empty p.output) _ out (if-some (is_empty p.dest_file_name) _ out e))

print_lines-WritesNested :
    (ls : List Line) (dest : Bytes)
    → IsNested ls
    → Fits ls
    → WritesNested (print_lines ls (new_printer dest))
print_lines-WritesNested ls dest h k old out e =
    subst (λ s. depth 0 s ≡ some 0) (finalize-output (print_lines ls (new_printer dest)) old out e)
      (print_lines-nested ls dest h k)

pub record WritesNestedFiles (p : Printers) : Type 0 where
  pub dom : WritesNested p.dom
  pub cpp : WritesNested p.cpp
  pub type_script : WritesNested p.type_script

-- For a schema without braces in its texts, whose lines fit the printer's buffer, and floating point
-- numbers that print without braces, what is written to the header, the source file and the file for
-- TypeScript closes every brace that it opens, and no other, whatever the files held before.
pub saved_files_nested :
    (f : FloatStream) (d : Dom) (dest_dir : Bytes) (save_type_script : Bool) (s : Sources)
    → IsPlain f
    → IsBracelessDom d
    → save_sources f d ≡ ok s
    → FitsSources s
    → WritesNestedFiles (print_sources dest_dir save_type_script d s)
unfolding print_sources
saved_files_nested f d dest_dir save_type_script s p h e k =
    let nested =
      Ensures-ok IsNestedSources (save_sources f d) s e (save_sources-IsNested f d p h) in
    record {
      dom = print_lines-WritesNested s.header _ nested.header k.header;
      cpp = print_lines-WritesNested s.source _ nested.source k.source;
      type_script = print_lines-WritesNested s.script _ nested.script k.script;
    }
