-- ===== src/Csv/Overrun.antt =====
-- A row with more columns than `argv` has elements, in src/CreateDOM.cpp's `parseCSV`.
use schema_code_gen.Base.{
  ℕ, zero, suc, ◌+◌, ◌≤◌, ◌<◌, ◌≡◌, ◌≢◌, refl, ap, ◌∙◌, false, List, [], ◌∷◌, ◌++◌, append_assoc,
  some, arith, Bytes, length, length-append, dec_lt, inr, All,
}
use schema_code_gen.Csv.{overrun, max_argv, scan_row, halt, after_row, round_at, import_text}
use schema_code_gen.Csv.Print.{
  print_field, print_columns, IsPlain, scan_row_step, scan_field-print_field, head_columns,
  start_row-cons, length-print_columns,
}
use schema_code_gen.Csv.RoundTrip.{halted}
use schema_code_gen.Outcome.{fault, argv_overrun}
use schema_code_gen.Rows.{Importer}

scan_row_full :
    (fuel : ℕ) (argv : List Bytes) (s : Bytes)
    → max_argv ≤ length argv
    → scan_row (suc fuel) argv s ≡ overrun
unfolding scan_row
scan_row_full fuel argv s h = ground arith

scan_row-overrun :
    (fuel : ℕ) (argv : List Bytes) (f : Bytes) (fs : List Bytes) (rest : Bytes)
    → length fs < fuel
    → max_argv ≤ length argv + length fs
    → IsPlain f
    → All IsPlain fs
    → scan_row fuel argv (print_columns f fs ++ rest) ≡ overrun
scan_row-overrun zero argv f fs rest h k p ps = absurd (omega arith)
scan_row-overrun (suc fuel) argv f [] rest h k p ps = scan_row_full fuel argv _ (omega arith)
scan_row-overrun (suc fuel) argv f (g ∷ gs) rest h k p ps = elim (dec_lt (length argv) max_argv) [
  | no full ↦ scan_row_full fuel argv _ (omega arith)
  | yes room ↦
      let later = print_columns g gs ++ rest in
      let read = scan_field-print_field f b',' later p refl in
      let longer : max_argv ≤ length (argv ++ f ∷ []) + length gs =
        omega (arith, length-append argv (f ∷ [])) in
      rw append_assoc
        (scan_row_step fuel argv (print_field f ++ b',' ∷ later) f b',' later room read)
      ∙ scan_row-overrun fuel (argv ++ f ∷ []) g gs rest (omega arith) longer ps.0 ps.1
]

longer_ne_nil : (fs : List Bytes) → max_argv ≤ length fs → fs ≢ []
longer_ne_nil fs h e = absurd (omega (arith, ap length e))

overrun_round :
    (s : Importer) (f : Bytes) (fs : List Bytes) (rest : Bytes)
    → max_argv ≤ length fs
    → IsPlain f
    → All IsPlain fs
    → round_at false s (print_columns f fs ++ rest) ≡ halt (fault argv_overrun)
unfolding round_at
overrun_round s f fs rest h p ps =
    let text = print_columns f fs ++ rest in
    let (c, more, shape, n) = head_columns f fs rest (inr (longer_ne_nil fs h)) in
    let fuel : length fs < suc (length text) =
      omega (arith, length-print_columns f fs, length-append (print_columns f fs) rest) in
    start_row-cons s text c more shape n
    ∙ ap (after_row s) (scan_row-overrun (suc (length text)) [] f fs rest fuel (omega arith) p ps)

-- A row of 129 columns or more stores behind the end of `argv`, whatever the columns hold (no
-- quote) and whatever follows the row.
pub import_text_overrun :
    (s : Importer) (f : Bytes) (fs : List Bytes) (rest : Bytes)
    → max_argv ≤ length fs
    → IsPlain f
    → All IsPlain fs
    → import_text s (print_columns f fs ++ rest) ≡ some (fault argv_overrun)
unfolding import_text
import_text_overrun s f fs rest h p ps =
    halted _ (record s { end_of_file = false }) (print_columns f fs ++ rest) (fault argv_overrun)
      (overrun_round (record s { end_of_file = false }) f fs rest h p ps)
