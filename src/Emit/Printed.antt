-- ===== src/Emit/Printed.antt =====
-- The nesting of braces in what `printCode` of src/CreateDOM.cpp leaves for a list of calls.
use schema_code_gen.Base.{
  ℕ, zero, suc, ◌+◌, ◌-◌, ◌*◌, ◌/◌, ◌%◌, ◌^◌, ◌<◌, ◌≡◌, refl, sym, ap, ◌∙◌, List, [], ◌∷◌, ◌++◌,
  Option, none, some, arith, Bytes, ltb, ◌==◌, if◌then◌else◌, All, All-append, length, take-all,
}
use schema_code_gen.CString.{truncate}
use schema_code_gen.Emit.Depth.{
  depth, IsBraceless, if-IsBraceless, depth-braceless, then_depth, depth-append,
}
use schema_code_gen.Emit.Nested.{and_then, and_then_assoc, lines_depth, IsNested}
use schema_code_gen.Printer.Lines.{Line, print_lines}
use schema_code_gen.Printer.{
  CodePrinter, new_printer, spaces, pad_from, padding, current_position, print_code,
}

spaces-IsBraceless : (n : ℕ) → IsBraceless (spaces n)
spaces-IsBraceless zero = tt
spaces-IsBraceless (suc n) = (((λ e. omega arith), (λ e. omega arith)), spaces-IsBraceless n)

pad_from-IsBraceless : (indent position : ℕ) → IsBraceless (pad_from indent position)
unfolding pad_from
pad_from-IsBraceless indent position =
    let wanted = indent * 4 % 2 ^ 32 in
    let tab = position % 4 in
    let moved = position + tab in
    let rest = (wanted - moved) % 2 ^ 32 / 4 * 4 in
    if-IsBraceless (ltb position wanted)
      (spaces tab ++ (if ltb moved wanted then spaces rest else [])) (spaces 1)
      (All-append _ (spaces tab) (if ltb moved wanted then spaces rest else [])
        (spaces-IsBraceless tab)
        (if-IsBraceless (ltb moved wanted) (spaces rest) [] (spaces-IsBraceless rest) tt))
      (spaces-IsBraceless 1)

padding-IsBraceless : (indent : ℕ) (p : CodePrinter) → IsBraceless (padding indent p)
unfolding padding
padding-IsBraceless indent p =
    if-IsBraceless (indent == 0) [] (pad_from indent (current_position p)) tt
      (pad_from-IsBraceless indent (current_position p))

-- Every text fits the buffer.
abbrev pub Fits : List Line → Type 0
Fits = All (λ l. length l.text < 4096)

then_depth-braceless :
    (o : Option ℕ) (s t : Bytes)
    → IsBraceless s
    → then_depth o (s ++ t) ≡ and_then o (λ e. depth e t)
then_depth-braceless none s t h = refl
then_depth-braceless (some d) s t h = depth-braceless d s t h

depth-print_code :
    (indent : ℕ) (text : Bytes) (p : CodePrinter) (d : ℕ)
    → length text < 4096
    → depth d (print_code indent text p).output ≡ and_then (depth d p.output) (λ e. depth e text)
unfolding print_code truncate
depth-print_code indent text p d h =
    ap (λ t. depth d (p.output ++ (padding indent p ++ t))) (take-all 4095 text (omega arith))
    ∙ depth-append d p.output (padding indent p ++ text)
    ∙ then_depth-braceless (depth d p.output) (padding indent p) text (padding-IsBraceless indent p)

and_then-some : (o : Option ℕ) → o ≡ and_then o some
and_then-some none = refl
and_then-some (some d) = refl

pub depth-print_lines :
    (ls : List Line) (p : CodePrinter) (d : ℕ)
    → Fits ls
    → depth d (print_lines ls p).output ≡ and_then (depth d p.output) (λ e. lines_depth e ls)
depth-print_lines [] p d h = and_then-some (depth d p.output)
depth-print_lines (l ∷ ls) p d (hl, h) =
    depth-print_lines ls (print_code l.indent l.text p) d h
    ∙ ap (λ o. and_then o (λ e. lines_depth e ls)) (depth-print_code l.indent l.text p d hl)
    ∙ sym (and_then_assoc (depth d p.output) (λ e. depth e l.text) (λ e. lines_depth e ls))

-- A new printer that printed nested lines holds a text whose braces are nested.
pub print_lines-nested :
    (ls : List Line) (dest : Bytes)
    → IsNested ls
    → Fits ls
    → depth 0 (print_lines ls (new_printer dest)).output ≡ some 0
unfolding depth
print_lines-nested ls dest h f = depth-print_lines ls (new_printer dest) 0 f ∙ h 0
