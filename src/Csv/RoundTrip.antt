-- ===== src/Csv/RoundTrip.antt =====
-- The loop over the rows in src/CreateDOM.cpp's `parseCSV`, run over a table that was written.
use schema_code_gen.Base.{
  ℕ, zero, suc, ◌≤◌, ◌<◌, ◌≡◌, refl, sym, ap, ◌∙◌, Bool, true, false, List, [], ◌∷◌, ◌++◌,
  append_assoc, append-nil, some, arith, Bytes, length, length-append, if◌then◌else◌, Bool-cases,
  inl, inr, All,
}
use schema_code_gen.Csv.{
  skip_linefeeds, halt, continue, after_columns, after_row, round_at, round, scan_rows, import_text,
}
use schema_code_gen.Outcome.{Outcome, Outcome-cases, ok, fault, ◌>>=◌}
use schema_code_gen.Rows.{Row, Importer, process_args}
use schema_code_gen.Csv.Print.{
  print_columns, print_table, IsPrintable, scan_row-print_columns, length-print_columns,
  head_columns, start_row-cons,
}

round-print_columns :
    (s : Importer) (r : Row) (rest : Bytes)
    → s.end_of_file ≡ false
    → IsPrintable r
    → round s (print_columns r.first r.others ++ rest) ≡ after_columns rest (process_args s r)
unfolding round_at
round-print_columns s r rest e h =
    let text = print_columns r.first r.others ++ rest in
    let (c, more, shape, n) = head_columns r.first r.others rest h.not_blank in
    let fuel : length r.others < suc (length text) = omega (
      arith,
      length-print_columns r.first r.others,
      length-append (print_columns r.first r.others) rest,
    ) in
    let scanned =
      scan_row-print_columns (suc (length text)) [] r.first r.others rest fuel (omega arith)
        h.first_plain h.others_plain in
    simp (e, round_at) (start_row-cons s text c more shape n ∙ ap (after_row s) scanned)

-- The rows one after another, as long as no `EOF` row has been read.
unfoldable pub feed : Importer → List Row → Outcome Importer
feed s [] = ok s
feed s (r ∷ rs) = if s.end_of_file then ok s else (process_args s r >>= λ t. feed t rs)

pub halted :
    (fuel : ℕ) (s : Importer) (text : Bytes) (r : Outcome Importer)
    → round s text ≡ halt r
    → scan_rows (suc fuel) s text ≡ some r
unfolding scan_rows
halted fuel s text r e = rw (e, scan_rows)

continued :
    (fuel : ℕ) (s : Importer) (text : Bytes) (t : Importer) (more : Bytes)
    → round s text ≡ continue t more
    → scan_rows (suc fuel) s text ≡ scan_rows fuel t more
unfolding scan_rows
continued fuel s text t more e = rw (e, scan_rows)

round_at-nil : (b : Bool) (s : Importer) → round_at b s [] ≡ halt (ok s)
unfolding round_at skip_linefeeds
round_at-nil true s = refl
round_at-nil false s = refl

pub round_at_end :
    (b : Bool) (s : Importer) (text : Bytes) → b ≡ true → round_at b s text ≡ halt (ok s)
unfolding round_at
round_at_end b s text e = rw e

pub feed_end :
    (s : Importer) (r : Row) (rs : List Row) → s.end_of_file ≡ true → feed s (r ∷ rs) ≡ ok s
unfolding feed
feed_end s r rs e = simp e

pub feed_step :
    (s : Importer) (r : Row) (rs : List Row)
    → s.end_of_file ≡ false
    → feed s (r ∷ rs) ≡ (process_args s r >>= λ t. feed t rs)
unfolding feed
feed_step s r rs e = simp e

-- A table with a text behind it that ends the loop.
pub scan_rows-print_table :
    (rest : Bytes)
    → ((t : Importer) → round t rest ≡ halt (ok t))
    → (fuel : ℕ) (s : Importer) (rs : List Row) → length rs < fuel
    → All IsPrintable rs
    → scan_rows fuel s (print_table rs ++ rest) ≡ some (feed s rs)
scan_rows-print_table rest ends zero s rs h p = absurd (omega arith)
scan_rows-print_table rest ends (suc fuel) s [] h p =
    halted fuel s rest (ok s) (ends s) ∙ unfold feed in refl
scan_rows-print_table rest ends (suc fuel) s (r ∷ rs) h (pr, ps) =
    rw append_assoc (elim (Bool-cases s.end_of_file) [
      | inl e ↦
          halted fuel s _ (ok s) (round_at_end s.end_of_file s _ e)
          ∙ ap some (sym (feed_end s r rs e))
      | inr e ↦
          let read = round-print_columns s r (print_table rs ++ rest) e pr in
          let fed = feed_step s r rs e in
          elim (Outcome-cases (process_args s r)) [
            | inl (t, q) ↦
                continued fuel s _ t (print_table rs ++ rest) (read ∙ rw q)
                ∙ scan_rows-print_table rest ends fuel t rs (omega arith) ps
                ∙ ap some (sym (fed ∙ rw q))
            | inr (f, q) ↦ halted fuel s _ (fault f) (read ∙ rw q) ∙ ap some (sym (fed ∙ rw q))
          ]
    ])

pub length-print_table : (rs : List Row) → length rs ≤ length (print_table rs)
length-print_table [] = omega arith
length-print_table (r ∷ rs) = omega (
  arith,
  length-print_table rs,
  length-print_columns r.first r.others,
  length-append (print_columns r.first r.others) (print_table rs),
)

-- Reading a table that was written as CSV hands its rows to `processArgs`, in order and unchanged,
-- up to the first `EOF` row or fault: columns with commas and linefeeds included. The rows have at
-- most 128 columns, none of them holds a quote, and no row is one empty column.
pub import_text-print_table :
    (s : Importer) (rs : List Row)
    → All IsPrintable rs
    → import_text s (print_table rs) ≡ some (feed (record s { end_of_file = false }) rs)
unfolding import_text
import_text-print_table s rs p =
    let start = record s { end_of_file = false } in
    let all = scan_rows-print_table [] (λ t. round_at-nil t.end_of_file t) in
    let fuel = suc (length (print_table rs)) in
    ap (scan_rows fuel start) (sym (append-nil (print_table rs)))
    ∙ all fuel start rs (omega (arith, length-print_table rs)) p
