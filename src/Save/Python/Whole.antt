-- ===== src/Save/Python/Whole.antt =====
-- The file that `DOM::savePython` of src/CreateDOM.cpp prints, if it ends.
use schema_code_gen.Base.{ℕ, not, ◌++◌, List, [], ◌∷◌, Option, none, some, codes, if◌then◌else◌}
use schema_code_gen.CString.{stricmp_eq}
use schema_code_gen.Dom.{Object, Dom, is_empty}
use schema_code_gen.Emit.{Entry, entry, text, fill}
use schema_code_gen.Printer.Lines.{Line}
use schema_code_gen.Save.Files.Calls.{FileSlot, file_url, file_slot}
use schema_code_gen.Save.Python.Data.{behind, as_data}
use schema_code_gen.Save.Python.{
  text_slot, python_enum, open_python_class, init_args, super_init_args, init_method, local_members,
}
use schema_code_gen.Save.Slots.{object_slot}
use schema_code_gen.Values.{FloatStream}

abbrev pub both : Option (List Line) → Option (List Line) → Option (List Line)
both none m = none
both (some ls) m = behind ls m

-- A class, before the body of `as_data`.
unfoldable pub python_class : FloatStream → Dom → Object → List Line
unfolding open_python_class init_args super_init_args
python_class f d o =
    fill (object_slot o) (
      open_python_class (not (is_empty o.inherits_from)) (not (is_empty o.short_description))
        (not (is_empty o.long_description)))
    ++ (init_method (init_args f d o) (super_init_args o) (local_members o.items)
        ++ fill (text_slot [] []) (text 0 "\n" ∷ text 1 "def as_data(self):\n" ∷ []))

-- `Object::savePython`; `none` where the loop over the bases has not ended within the fuel.
unfoldable pub save_python_object : FloatStream → (fuel : ℕ) → Dom → Object → Option (List Line)
unfolding python_class as_data stricmp_eq
save_python_object f fuel d o =
    if stricmp_eq o.type (codes "Enum")
    then some (python_enum o)
    else behind (python_class f d o) (as_data fuel d o)

unfoldable pub python_objects : FloatStream → (fuel : ℕ) → Dom → List Object → Option (List Line)
unfolding save_python_object
python_objects f fuel d [] = some []
python_objects f fuel d (o ∷ os) = both (save_python_object f fuel d o) (python_objects f fuel d os)

unfoldable pub python_begin : List (Entry FileSlot)
python_begin =
    text 0 "// clang-format off\n"
    ∷ text 0 "# CreateDOM: Schema Generation tool written by John W. Ratcliff, 2017\n"
    ∷ text 0
        "# Warning:This source file was auto-generated by the CreateDOM tool. Do not try to edit this source file manually!\n"
    ∷ entry 0 "# The Google DOCs Schema Spreadsheet for this source came from: %s\n" (file_url ∷ [])
    ∷ text 0 "\n"
    ∷ []

-- `DOM::savePython`
unfoldable pub save_python : FloatStream → (fuel : ℕ) → Dom → Option (List Line)
unfolding python_begin python_objects
save_python f fuel d = behind (fill (file_slot d) python_begin) (python_objects f fuel d d.objects)
