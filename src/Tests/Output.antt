-- ===== src/Tests/Output.antt =====
-- The theorems about member names, paths and protobuf messages at concrete inputs.
use schema_code_gen.Base.{
  ◌≡◌, refl, Bool, true, ◌++◌, List, [], ◌∷◌, arith, codes, length, take, All, text_eq, ltb, ◌&&◌,
}
use schema_code_gen.CString.Numbers.{print_nat}
use schema_code_gen.CString.{has_char, stricmp_eq}
use schema_code_gen.Dom.{new_member, optional, Object, new_object}
use schema_code_gen.Outcome.{ok}
use schema_code_gen.Paths.{recursive_create_path, parents, recursive_create_path-parents}
use schema_code_gen.Printer.Lines.{Line, IsLine, render}
use schema_code_gen.Printer.{CodePrinter, new_printer}
use schema_code_gen.Proto.Message.{message_lines, save_proto-message_lines}
use schema_code_gen.Proto.{register_arrays, save_proto}
use schema_code_gen.Rows.Member.{parse_member}
use schema_code_gen.Rows.Names.{IsNameByte, array, marked, member_of_row, parse_member-marked}
use schema_code_gen.TypeNames.{get_proto_type_string}

tags-IsNameByte : All IsNameByte (codes "tags")
tags-IsNameByte = ground arith

-- The column is `tags?[]`.
parse_member-marked_example :
    parse_member b't' (marked (codes "ags") optional array) (codes "u32" ∷ [])
    ≡ ok (member_of_row (codes "tags") optional array (codes "u32"))
unfolding has_char
parse_member-marked_example =
    parse_member-marked b't' (codes "ags") optional array (codes "u32") tags-IsNameByte
      (omega arith) (omega arith) refl

recursive_create_path-parents_example :
    recursive_create_path (codes "a/b/c")
    ≡ parents (take 511 (codes "a/b/c")) ++ take 511 (codes "a/b/c") ∷ []
recursive_create_path-parents_example = recursive_create_path-parents (codes "a/b/c")

path_parents : recursive_create_path (codes "a/b/c") ≡ codes "a" ∷ codes "a/b" ∷ codes "a/b/c" ∷ []
unfolding recursive_create_path
path_parents = refl

-- A base class with an array of numbers and one subclass.
abbrev base : Object
base = record new_object {
  name = codes "Base";
  type = codes "Class";
  children = codes "Leaf" ∷ [];
  items =
      record new_member { member = codes "id"; type = codes "u16" }
      ∷ record new_member { member = codes "xs"; type = codes "i64"; is_array = true }
      ∷ [];
}

abbrev proto_printer : CodePrinter
proto_printer = new_printer (codes "demo.proto")

base_text :
    render (message_lines base)
    ≡ codes "\nmessage Base\n{\n    uint32 id = 1;\n    repeated int64 xs = 2;\n"
      ++ codes "    oneof subtype\n    {\n        Leaf leaf = 3;\n    }\n\n}\n\n"
unfolding print_nat get_proto_type_string text_eq
base_text = refl

-- A test for short lines.
abbrev are_lines : List Line → Bool
are_lines [] = true
are_lines (l ∷ ls) =
    ltb l.indent 4 && (ltb (length l.text) 100 && (has_char 10 l.text && are_lines ls))

are_lines-IsLine : (ls : List Line) → are_lines ls ≡ true → All IsLine ls
are_lines-IsLine [] e = tt
are_lines-IsLine (l ∷ ls) e = (
  record { indent_fits = ground arith; text_fits = ground arith; has_linefeed = ground arith },
  are_lines-IsLine ls (ground arith),
)

base_lines-IsLine : All IsLine (message_lines base)
unfolding print_nat get_proto_type_string text_eq has_char
base_lines-IsLine = are_lines-IsLine (message_lines base) refl

save_proto-message_lines_example :
    (q : CodePrinter) × (save_proto base proto_printer [] ≡ ok (q, register_arrays [] base.items))
    × (q.output ≡ [] ++ render (message_lines base))
unfolding stricmp_eq text_eq
save_proto-message_lines_example =
    save_proto-message_lines base proto_printer [] refl (omega arith) (omega arith)
      (omega arith, tt) base_lines-IsLine refl
