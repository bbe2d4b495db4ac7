-- ===== src/Csv/Invariant.antt =====
-- What every row keeps holds after the whole loop of src/CreateDOM.cpp's `parseCSV`.
use schema_code_gen.Base.{
  ℕ, zero, suc, subst, Bool, true, false, List, [], ◌∷◌, Option, none, some, Bytes, length, inl,
  inr,
}
use schema_code_gen.CString.{c_string}
use schema_code_gen.Csv.Fuel.{Round-cases}
use schema_code_gen.Csv.{
  RowScan, complete, at_end, overrun, spent, skip_linefeeds, process_columns, Round, halt, continue,
  lost, after_columns, after_row, start_row, round_at, round, scan_rows, finish, finished,
  import_text, parse_csv,
}
use schema_code_gen.Outcome.{Outcome, ok, fault, Ensures}
use schema_code_gen.Rows.{Row, Importer, process_args}

-- `P` holds of the result, if there is one.
abbrev pub Ends : (Importer → Type 0) → Option (Outcome Importer) → Type 0
Ends P none = Unit
Ends P (some r) = Ensures P r

module _ (P : Importer → Type 0)
    (rows : (s : Importer) (r : Row) → P s → Ensures P (process_args s r)) where
  RoundP : Round → Type 0
  RoundP (halt r) = Ensures P r
  RoundP (continue t more) = P t
  RoundP lost = Unit

  after_columns-P :
      (more : Bytes) (r : Outcome Importer) → Ensures P r → RoundP (after_columns more r)
  unfolding RoundP
  after_columns-P more (ok t) h = h
  after_columns-P more (fault e) h = tt

  process_columns-P : (s : Importer) (argv : List Bytes) → P s → Ensures P (process_columns s argv)
  process_columns-P s [] h = h
  process_columns-P s (first ∷ others) h = rows s (record { first = first; others = others }) h

  after_row-P : (s : Importer) (r : RowScan) → P s → RoundP (after_row s r)
  unfolding RoundP
  after_row-P s (complete argv more) h =
      after_columns-P more (process_columns s argv) (process_columns-P s argv h)
  after_row-P s at_end h = h
  after_row-P s overrun h = tt
  after_row-P s spent h = tt

  start_row-P : (s : Importer) (text : Bytes) → P s → RoundP (start_row s text)
  unfolding RoundP
  start_row-P s [] h = h
  start_row-P s (c ∷ rest) h = after_row-P s _ h

  round_at-P : (b : Bool) (s : Importer) (text : Bytes) → P s → RoundP (round_at b s text)
  unfolding RoundP round_at
  round_at-P true s text h = h
  round_at-P false s text h = start_row-P s (skip_linefeeds text) h

  pub scan_rows-Ends :
      (fuel : ℕ) (s : Importer) (text : Bytes) → P s → Ends P (scan_rows fuel s text)
  unfolding scan_rows RoundP
  scan_rows-Ends zero s text h = tt
  scan_rows-Ends (suc fuel) s text h =
      let next = round_at-P s.end_of_file s text h in
      elim (Round-cases (round s text)) [
        | inl (o, e) ↦ rw (e, scan_rows) (subst RoundP e next)
        | inr (inl (t, more, e)) ↦
            rw (e, scan_rows) (scan_rows-Ends fuel t more (subst RoundP e next))
        | inr (inr e) ↦ rw (e, scan_rows) tt
      ]

  -- What every row keeps, and holds with `mEndOfFile` reset, holds after the loop; `Q` holds of the
  -- state that the import returns, if it follows from it.
  pub parse_csv-Ends :
      (Q : Importer → Type 0)
      → ((t : Importer) → P t → Q (finish t))
      → (s : Importer) (file : Bytes) → P s
      → P (record s { end_of_file = false })
      → Ends Q (parse_csv s (some file))
  unfolding parse_csv import_text
  parse_csv-Ends Q keep s [] h h' = keep s h
  parse_csv-Ends Q keep s (c ∷ text) h h' =
      let text' = c_string (c ∷ text) in
      finished-Ends _
        (scan_rows-Ends (suc (length text')) (record s { end_of_file = false }) text' h')
    where
      finished-Ends : (o : Option (Outcome Importer)) → Ends P o → Ends Q (finished o)
      finished-Ends none e = tt
      finished-Ends (some (ok t)) e = keep t e
      finished-Ends (some (fault f)) e = tt
