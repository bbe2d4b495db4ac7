-- ===== src/Printer/Lines.antt =====
-- Whole lines through `printCode` of src/CreateDOM.cpp.
use schema_code_gen.Base.{
  ℕ, ◌-◌, ◌*◌, ◌/◌, ◌%◌, ◌^◌, ◌<◌, ◌≡◌, ◌≢◌, refl, sym, ap, ◌∙◌, true, List, [], ◌∷◌, ◌++◌, arith,
  Bytes, append_assoc, append-nil, length, take-all, ltb, ◌==◌, ==_iff, Bool-cases, inl, inr, All,
}
use schema_code_gen.CString.{has_char, truncate}
use schema_code_gen.Printer.{CodePrinter, spaces, pad_from, padding, current_position, print_code}

-- A line: its indentation, and a text that fits the buffer and ends in a linefeed of its own.
pub record Line : Type 0 where
  pub indent : ℕ
  pub text : Bytes

pub record IsLine (l : Line) : Type 0 where
  pub indent_fits : l.indent < 2 ^ 30
  pub text_fits : length l.text < 4096
  pub has_linefeed : has_char 10 l.text ≡ true

abbrev pub render : List Line → Bytes
render [] = []
render (l ∷ ls) = spaces (l.indent * 4) ++ (l.text ++ render ls)

abbrev pub print_lines : List Line → CodePrinter → CodePrinter
print_lines [] p = p
print_lines (l ∷ ls) p = print_lines ls (print_code l.indent l.text p)

pad_from_start :
    (indent : ℕ) → indent < 2 ^ 30 → indent ≢ 0 → pad_from indent 0 ≡ spaces (indent * 4)
unfolding pad_from
pad_from_start indent h n =
    let wide : indent * 4 % 2 ^ 32 ≡ indent * 4 = omega arith in
    let before : ltb 0 (indent * 4) ≡ true = ground arith in
    let all : (indent * 4 - 0) % 2 ^ 32 / 4 * 4 ≡ indent * 4 = omega arith in rw (wide, before, all)

position_start : (p : CodePrinter) → p.last_line_feed ≡ length p.output → current_position p ≡ 0
position_start p e = omega arith

padding_start :
    (indent : ℕ) (p : CodePrinter)
    → indent < 2 ^ 30
    → p.last_line_feed ≡ length p.output
    → padding indent p ≡ spaces (indent * 4)
unfolding padding
padding_start indent p h e = elim (Bool-cases (indent == 0)) [
  | inl z ↦ let zero_ : indent ≡ 0 = (==_iff indent 0).0 z in rw (zero_) refl
  | inr n ↦
      let more : indent ≢ 0 = ground arith in
      rw n (ap (pad_from indent) (position_start p e) ∙ pad_from_start indent h more)
]

-- A printer at the start of a line.
abbrev pub AtStart : CodePrinter → Type 0
AtStart p = p.last_line_feed ≡ length p.output

print_code-line :
    (l : Line) (p : CodePrinter)
    → IsLine l
    → AtStart p
    → ((print_code l.indent l.text p).output ≡ p.output ++ (spaces (l.indent * 4) ++ l.text))
      × AtStart (print_code l.indent l.text p)
unfolding print_code
print_code-line l p h e =
    let whole : truncate 4096 l.text ≡ l.text = take-all 4095 l.text (omega arith) in
    let feed : has_char 10 (truncate 4096 l.text) ≡ true = rw whole h.has_linefeed in
    (
      rw (padding_start l.indent p h.indent_fits e)
          (ap (λ t. p.output ++ (spaces (l.indent * 4) ++ t)) whole),
      rw feed,
    )

-- Lines that are printed from the start of a line appear one below another, each behind four spaces
-- for each step of its indentation, and nothing else is put between them. (An indentation is below
-- 2^30, a text is shorter than the buffer and holds a linefeed.)
pub print_lines-render :
    (ls : List Line) (p : CodePrinter)
    → All IsLine ls
    → AtStart p
    → (print_lines ls p).output ≡ p.output ++ render ls
print_lines-render [] p h e = sym (append-nil p.output)
print_lines-render (l ∷ ls) p (hl, h) e =
    let (printed, start) = print_code-line l p hl e in
    print_lines-render ls (print_code l.indent l.text p) h start
    ∙ ap (λ o. o ++ render ls) printed
    ∙ append_assoc p.output (spaces (l.indent * 4) ++ l.text) (render ls)
    ∙ ap (λ t. p.output ++ t) (append_assoc (spaces (l.indent * 4)) l.text (render ls))
