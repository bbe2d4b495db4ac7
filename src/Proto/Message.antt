-- ===== src/Proto/Message.antt =====
-- The text of a message that `savePROTO` of src/CreateDOM.cpp prints, line by line.
use schema_code_gen.Base.{
  ℕ, ◌+◌, ◌^◌, ◌<◌, ◌≡◌, refl, sym, ap, ◌∙◌, false, ◌++◌, List, [], ◌∷◌, map, arith, Bytes, codes,
  length, length-append, leb, if◌then◌else◌, Bool-cases, inl, inr, All,
}
use schema_code_gen.CString.Numbers.{print_nat}
use schema_code_gen.CString.{stricmp_eq}
use schema_code_gen.Dom.{MemberVariable, Object, is_empty}
use schema_code_gen.Outcome.{Outcome, ok, ◌>>=◌}
use schema_code_gen.Printer.Lines.{Line, IsLine, AtStart, render, print_lines, print_lines-render}
use schema_code_gen.Printer.Joined.{print_lines-append, print_code-linefeed}
use schema_code_gen.Printer.{CodePrinter, print_code}
use schema_code_gen.Proto.{
  print_id, next_id, comment_text, register_arrays, is_skipped, field_entry, subtype_entry,
  save_fields, save_subtypes, save_children, save_comment, save_comments, open_message,
  save_message, save_proto,
}

abbrev line : ℕ → Bytes → Line
line indent text = record { indent = indent; text = text }

-- Entries with consecutive numbers from `n`.
abbrev numbered : ℕ → ℕ → List Bytes → List Line
numbered indent n [] = []
numbered indent n (e ∷ es) =
    line indent (e ++ codes " = " ++ print_nat n ++ codes ";\n") ∷ numbered indent (n + 1) es

abbrev pub kept : List MemberVariable → List MemberVariable
kept [] = []
kept (i ∷ items) = if is_skipped i then kept items else i ∷ kept items

abbrev comment_lines : Bytes → List Line
comment_lines s = if is_empty s then [] else line 0 (comment_text s) ∷ []

abbrev subtype_lines : ℕ → List Bytes → List Line
subtype_lines n [] = []
subtype_lines n (k ∷ ks) =
    line 1 (codes "oneof subtype\n")
    ∷ line 1 (codes "{\n")
    ∷ (numbered 2 n (map subtype_entry (k ∷ ks)) ++ line 1 (codes "}\n") ∷ line 0 (codes "\n") ∷ [])

abbrev head_lines : Object → List Line
head_lines o =
    line 0 (codes "\n")
    ∷ (comment_lines o.short_description
        ++ (comment_lines o.long_description
            ++ line 0 (codes "message " ++ o.name ++ codes "\n") ∷ line 0 (codes "{\n") ∷ []))

-- A message: its head, its fields with the numbers from 1, and its subtypes with those behind.
abbrev pub message_lines : Object → List Line
message_lines o =
    head_lines o
    ++ (numbered 1 1 (map field_entry (kept o.items))
        ++ (subtype_lines (1 + length (kept o.items)) o.children
            ++ line 0 (codes "}\n") ∷ line 0 (codes "\n") ∷ []))

print_id-print_nat : (n : ℕ) → n < 2 ^ 31 → print_id n ≡ print_nat n
unfolding print_id
print_id-print_nat n h = ground arith

save_fields-numbered :
    (items : List MemberVariable) (n : ℕ) (p : CodePrinter)
    → n + length (kept items) < 2 ^ 31
    → save_fields n items p
      ≡ (print_lines (numbered 1 n (map field_entry (kept items))) p, n + length (kept items))
unfolding save_fields
save_fields-numbered [] n p h = ap (λ m. (p, m)) (omega arith)
save_fields-numbered (i ∷ items) n p h = elim (Bool-cases (is_skipped i)) [
  | inl e ↦
      let same : kept (i ∷ items) ≡ kept items = simp e refl in
      let fits : n + length (kept items) < 2 ^ 31 = omega (arith, h, ap length same) in
      simp e (save_fields-numbered items n p fits)
  | inr e ↦
      let more : kept (i ∷ items) ≡ i ∷ kept items = simp e refl in
      let fits : n + 1 + length (kept items) < 2 ^ 31 = omega (arith, h, ap length more) in
      let next : next_id n ≡ n + 1 = omega arith in
      let this = print_id-print_nat n (omega arith) in
      simp (e, this, next)
        (save_fields-numbered items (n + 1)
            (print_code 1 (field_entry i ++ codes " = " ++ print_nat n ++ codes ";\n") p) fits
          ∙ ap
              (λ m. (
                print_lines (numbered 1 (n + 1) (map field_entry (kept items)))
                    (print_code 1 (field_entry i ++ codes " = " ++ print_nat n ++ codes ";\n") p),
                m,
              ))
              (omega arith))
]

save_subtypes-numbered :
    (ks : List Bytes) (n : ℕ) (p : CodePrinter)
    → n + length ks < 2 ^ 31
    → All (λ k. length k < 512) ks
    → save_subtypes n ks p ≡ ok (print_lines (numbered 2 n (map subtype_entry ks)) p)
unfolding save_subtypes
save_subtypes-numbered [] n p h a = refl
save_subtypes-numbered (k ∷ ks) n p h (a, as_) =
    let fits : leb 512 (length k) ≡ false = ground arith in
    let next : next_id n ≡ n + 1 = omega arith in
    rw (fits, print_id-print_nat n (omega arith), next)
      (save_subtypes-numbered ks (n + 1)
        (print_code 2 (subtype_entry k ++ codes " = " ++ print_nat n ++ codes ";\n") p)
        (omega arith) as_)

save_comment-lines :
    (s : Bytes) (p : CodePrinter) → save_comment s p ≡ print_lines (comment_lines s) p
save_comment-lines s p = elim (Bool-cases (is_empty s)) [ inl e ↦ rw e refl | inr e ↦ rw e refl ]

open_message-lines :
    (o : Object) (p : CodePrinter)
    → length o.name < 4000
    → open_message o p ≡ print_lines (head_lines o) p
open_message-lines o p h =
    let text = codes "message " ++ o.name in
    let start = print_code 0 (codes "\n") p in
    let rest = line 0 (text ++ codes "\n") ∷ line 0 (codes "{\n") ∷ [] in
    ap (print_code 0 (codes "{\n")) (
      print_code-linefeed text (save_comments o p)
        (omega (arith, length-append (codes "message ") o.name)))
    ∙ ap (print_lines rest) (
        save_comment-lines o.long_description (save_comment o.short_description start)
        ∙ ap (print_lines (comment_lines o.long_description))
            (save_comment-lines o.short_description start))
    ∙ sym (
        print_lines-append (comment_lines o.short_description)
          (comment_lines o.long_description ++ rest) start
        ∙ print_lines-append (comment_lines o.long_description) rest
            (print_lines (comment_lines o.short_description) start))

save_children-lines :
    (ks : List Bytes) (n : ℕ) (p : CodePrinter)
    → n + length ks < 2 ^ 31
    → All (λ k. length k < 512) ks
    → save_children n ks p ≡ ok (print_lines (subtype_lines n ks) p)
unfolding save_children
save_children-lines [] n p h a = refl
save_children-lines (k ∷ ks) n p h a =
    let opened = print_code 1 (codes "{\n") (print_code 1 (codes "oneof subtype\n") p) in
    let closing = line 1 (codes "}\n") ∷ line 0 (codes "\n") ∷ [] in
    ap (λ r. r >>= λ q. ok (print_lines closing q)) (save_subtypes-numbered (k ∷ ks) n opened h a)
    ∙ ap ok (sym (print_lines-append (numbered 2 n (map subtype_entry (k ∷ ks))) closing opened))

save_message-lines :
    (o : Object) (p : CodePrinter)
    → length o.name < 4000
    → 1 + length (kept o.items) + length o.children < 2 ^ 31
    → All (λ k. length k < 512) o.children
    → save_message o p ≡ ok (print_lines (message_lines o) p)
unfolding save_message
save_message-lines o p hn hi hc =
    let fields = numbered 1 1 (map field_entry (kept o.items)) in
    let next = 1 + length (kept o.items) in
    let closing = line 0 (codes "}\n") ∷ line 0 (codes "\n") ∷ [] in
    let opened = print_lines (head_lines o) p in
    let close : CodePrinter → Outcome CodePrinter = λ r. ok (print_lines closing r) in
    ap
      (λ q.
        save_children (save_fields 1 o.items q).1 o.children (save_fields 1 o.items q).0 >>= close)
      (open_message-lines o p hn)
    ∙ ap (λ (r : CodePrinter × ℕ). save_children r.1 o.children r.0 >>= close)
        (save_fields-numbered o.items 1 opened (omega arith))
    ∙ ap (λ r. r >>= close) (save_children-lines o.children next (print_lines fields opened) hi hc)
    ∙ ap ok (
        sym (
          print_lines-append (head_lines o) (fields ++ (subtype_lines next o.children ++ closing)) p
          ∙ print_lines-append fields (subtype_lines next o.children ++ closing) opened
          ∙ print_lines-append (subtype_lines next o.children) closing (print_lines fields opened)))

-- An object that is no enum is printed, from the start of a line, as a message: its comments, its
-- fields with the numbers 1, 2, … in order, skipping the inherited items with a default value, and
-- its subclasses with the numbers behind them; and the types of its arrays join the list. (Every
-- line fits the printer, names are short and there are less than 2^31 numbers.)
pub save_proto-message_lines :
    (o : Object) (p : CodePrinter) (arrays : List Bytes)
    → stricmp_eq o.type (codes "Enum") ≡ false
    → length o.name < 4000
    → 1 + length (kept o.items) + length o.children < 2 ^ 31
    → All (λ k. length k < 512) o.children
    → All IsLine (message_lines o)
    → AtStart p
    → (q : CodePrinter) × (save_proto o p arrays ≡ ok (q, register_arrays arrays o.items))
      × (q.output ≡ p.output ++ render (message_lines o))
unfolding save_proto
save_proto-message_lines o p arrays e hn hi hc hl start = (
  print_lines (message_lines o) p,
  rw e (
      ap (λ r. r >>= λ q. ok (q, register_arrays arrays o.items))
        (save_message-lines o p hn hi hc)),
  print_lines-render (message_lines o) p hl start,
)
