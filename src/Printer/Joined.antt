-- ===== src/Printer/Joined.antt =====
-- Texts of src/CreateDOM.cpp's `printCode` that are printed one behind another.
use schema_code_gen.Base.{
  ◌<◌, ◌≡◌, refl, sym, ap, ◌∙◌, true, ◌++◌, append_assoc, List, [], ◌∷◌, arith, Bytes, codes,
  length, length-append, take-all, if◌then◌else◌,
}
use schema_code_gen.CString.{has_char, truncate}
use schema_code_gen.Printer.Lines.{Line, print_lines}
use schema_code_gen.Printer.{CodePrinter, print_code, padding}

pub print_lines-append :
    (xs ys : List Line) (p : CodePrinter)
    → print_lines (xs ++ ys) p ≡ print_lines ys (print_lines xs p)
print_lines-append [] ys p = refl
print_lines-append (x ∷ xs) ys p = print_lines-append xs ys (print_code x.indent x.text p)

-- A text with no indentation that fits the buffer.
abbrev appended : Bytes → CodePrinter → CodePrinter
appended text p = record p {
  output = p.output ++ text;
  last_line_feed = if has_char 10 text then length (p.output ++ text) else p.last_line_feed;
}

print_code-appended :
    (text : Bytes) (p : CodePrinter) → length text < 4096 → print_code 0 text p ≡ appended text p
unfolding print_code truncate padding
print_code-appended text p h = ap (λ buffer. appended buffer p) (take-all 4095 text (omega arith))

has_linefeed : (s : Bytes) → has_char 10 (s ++ codes "\n") ≡ true
unfolding has_char
has_linefeed [] = refl
has_linefeed (c ∷ s) = ground (arith, has_linefeed s)

appended-linefeed :
    (text : Bytes) (p : CodePrinter)
    → appended (codes "\n") (appended text p) ≡ appended (text ++ codes "\n") p
unfolding has_char
appended-linefeed text p = rw (has_linefeed text) (
    ap (λ out. record p { output = out; last_line_feed = length out })
      (append_assoc p.output text (codes "\n")))

pub print_code-linefeed :
    (text : Bytes) (p : CodePrinter)
    → length text < 4095
    → print_code 0 (codes "\n") (print_code 0 text p) ≡ print_code 0 (text ++ codes "\n") p
print_code-linefeed text p h =
    print_code-appended (codes "\n") (print_code 0 text p) (omega arith)
    ∙ ap (appended (codes "\n")) (print_code-appended text p (omega arith))
    ∙ appended-linefeed text p
    ∙ sym (
        print_code-appended (text ++ codes "\n") p (omega (arith, length-append text (codes "\n"))))
