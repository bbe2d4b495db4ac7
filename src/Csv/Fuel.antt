-- ===== src/Csv/Fuel.antt =====
-- The fuel of the scan in src/CreateDOM.cpp's `parseCSV` suffices: every round reads a byte.
use schema_code_gen.Base.{
  ℕ, zero, suc, ◌≤◌, ◌<◌, ◌≡◌, refl, Bool, true, false, List, [], ◌∷◌, ◌++◌, Option, none, some,
  arith, Bytes, length, List-cases, ◌⊎◌, inl, inr,
}
use schema_code_gen.CString.{c_string}
use schema_code_gen.Csv.{
  is_delimiter, is_quote, unread, tail, scan_field, RowScan, complete, at_end, overrun, spent,
  scan_row, skip_linefeeds, process_columns, Round, halt, continue, lost, after_columns, after_row,
  start_row, round_at, round, scan_rows, finish, finished, import_text, parse_csv,
}
use schema_code_gen.Outcome.{Outcome, ok, fault}
use schema_code_gen.Rows.{Importer}

length-unread : (at_stop : ℕ → Bool) (s : Bytes) → length (unread at_stop s) ≤ length s
unfolding unread
length-unread at_stop [] = omega arith
length-unread at_stop (c ∷ s) = ground (arith, length-unread at_stop s)

length-tail : (s : Bytes) → length (tail s) ≤ length s
length-tail [] = omega arith
length-tail (c ∷ s) = omega arith

length-scan_field : (s : Bytes) → length (scan_field s).1 ≤ length s
unfolding scan_field
length-scan_field [] = omega arith
length-scan_field (c ∷ s) = ground (
  arith,
  length-unread is_delimiter (tail (unread is_quote s)),
  length-tail (unread is_quote s),
  length-unread is_quote s,
  length-unread is_delimiter (c ∷ s),
)

-- What a scan of a row may be when `n` bytes are left and the fuel is enough.
abbrev Shortens : ℕ → RowScan → Type 0
Shortens n (complete argv rest) = length rest < n
Shortens n at_end = Unit
Shortens n overrun = Unit
Shortens n spent = ⊥

scan_row-Shortens :
    (fuel : ℕ) (argv : List Bytes) (s : Bytes) (n : ℕ)
    → length s < fuel
    → length s ≤ n
    → Shortens n (scan_row fuel argv s)
unfolding scan_row
scan_row-Shortens zero argv s n h k = absurd (omega arith)
scan_row-Shortens (suc fuel) argv s n h k = elim (List-cases (scan_field s).1) [
  | inl e ↦ ground (arith, e)
  | inr (c, rest, e) ↦
      let shorter : suc (length rest) ≤ length s = rw e at (length-scan_field s) in
      let again = scan_row-Shortens fuel (argv ++ (scan_field s).0 ∷ []) rest n in
      ground (arith, e, shorter, again (omega arith) (omega arith))
]

length-skip_linefeeds : (s : Bytes) → length (skip_linefeeds s) ≤ length s
unfolding skip_linefeeds
length-skip_linefeeds [] = omega arith
length-skip_linefeeds (c ∷ s) = ground (arith, length-skip_linefeeds s)

-- A round ends the loop or leaves a shorter text.
abbrev Advances : ℕ → Round → Type 0
Advances n (halt r) = Unit
Advances n (continue t more) = length more < n
Advances n lost = ⊥

after_columns-Advances :
    (n : ℕ) (more : Bytes) (r : Outcome Importer)
    → length more < n
    → Advances n (after_columns more r)
after_columns-Advances n more (ok t) h = h
after_columns-Advances n more (fault e) h = tt

after_row-Advances :
    (n : ℕ) (s : Importer) (r : RowScan) → Shortens n r → Advances n (after_row s r)
after_row-Advances n s (complete argv more) h =
    after_columns-Advances n more (process_columns s argv) h
after_row-Advances n s at_end h = tt
after_row-Advances n s overrun h = tt
after_row-Advances n s spent h = h

start_row-Advances :
    (n : ℕ) (s : Importer) (text : Bytes) → length text ≤ n → Advances n (start_row s text)
start_row-Advances n s [] h = tt
start_row-Advances n s (c ∷ rest) h =
    after_row-Advances n s _
      (scan_row-Shortens (suc (length (c ∷ rest))) [] (c ∷ rest) n (omega arith) h)

round_at-Advances :
    (b : Bool) (s : Importer) (text : Bytes) → Advances (length text) (round_at b s text)
unfolding round_at
round_at-Advances true s text = tt
round_at-Advances false s text =
    start_row-Advances (length text) s (skip_linefeeds text) (length-skip_linefeeds text)

round-Advances : (s : Importer) (text : Bytes) → Advances (length text) (round s text)
round-Advances s text = round_at-Advances s.end_of_file s text

pub Round-cases :
    (r : Round)
    → ((o : Outcome Importer) × (r ≡ halt o))
      ⊎ (((t : Importer) × (more : Bytes) × (r ≡ continue t more)) ⊎ (r ≡ lost))
Round-cases (halt o) = inl (o, refl)
Round-cases (continue t more) = inr (inl (t, more, refl))
Round-cases lost = inr (inr refl)

scan_rows_total :
    (fuel : ℕ) (s : Importer) (text : Bytes)
    → length text < fuel
    → (r : Outcome Importer) × (scan_rows fuel s text ≡ some r)
unfolding scan_rows
scan_rows_total zero s text h = absurd (omega arith)
scan_rows_total (suc fuel) s text h = elim (Round-cases (round s text)) [
  | inl (o, e) ↦ (o, rw (e, scan_rows))
  | inr (inl (t, more, e)) ↦
      let shorter : length more < length text = rw e at (round-Advances s text) in
      rw (e, scan_rows) (scan_rows_total fuel t more (omega arith))
  | inr (inr e) ↦ absurd (rw e at (round-Advances s text))
]

finished_total :
    (o : Option (Outcome Importer)) (r : Outcome Importer)
    → o ≡ some r
    → (q : Outcome Importer) × (finished o ≡ some q)
finished_total none r e = cc
finished_total (some (ok t)) r e = (ok (finish t), refl)
finished_total (some (fault f)) r e = (fault f, refl)

-- The import of any file, from any state, ends: it returns a new state or stops at a fault.
pub parse_csv_total :
    (s : Importer) (file : Option Bytes) → (r : Outcome Importer) × (parse_csv s file ≡ some r)
unfolding parse_csv import_text
parse_csv_total s none = (ok s, refl)
parse_csv_total s (some []) = (ok (finish s), refl)
parse_csv_total s (some (c ∷ text)) =
    let bytes = c_string (c ∷ text) in
    let start = record s { end_of_file = false } in
    let (r, e) = scan_rows_total (suc (length bytes)) start bytes (omega arith) in
    finished_total _ r e
