-- ===== src/Csv.antt =====
-- `CreateDOMDef::parseCSV` of src/CreateDOM.cpp: the scan of the file into rows, and the rows in
-- order through `processArgs`. The source ends a field by a zero byte in the buffer; the scan never
-- goes back over it, so a field is here the text up to that place. The inner loop and the outer
-- loop run on fuel; both take fewer rounds than there are bytes left.
pub mod Fuel
pub mod Print
pub mod RoundTrip
pub mod LastRow
pub mod Invariant
pub mod Groups
pub mod Links
pub mod Overrun
pub mod Braceless
use schema_code_gen.Base.{
  ℕ, zero, suc, ◌==◌, Bool, true, false, ◌||◌, List, [], ◌∷◌, ◌++◌, Option, none, some, Bytes,
  length, leb, if◌then◌else◌,
}
use schema_code_gen.CString.{c_string}
use schema_code_gen.Dom.Complete.{import_complete}
use schema_code_gen.Outcome.{Outcome, ok, fault, argv_overrun}
use schema_code_gen.Rows.{Importer, process_args, push_current}

abbrev pub quote : ℕ
quote = 34

abbrev pub is_linefeed : ℕ → Bool
is_linefeed c = c == 10 || c == 13

-- What ends an unquoted field.
abbrev pub is_delimiter : ℕ → Bool
is_delimiter c = c == b',' || c == 10 || c == 13

abbrev pub is_quote : ℕ → Bool
is_quote c = c == quote

-- `while (*scan && !stop(*scan)) scan++;`, with what it has passed and what it has not.
unfoldable pub passed : (ℕ → Bool) → Bytes → Bytes
passed stop [] = []
passed stop (c ∷ s) = if stop c then [] else c ∷ passed stop s

unfoldable pub unread : (ℕ → Bool) → Bytes → Bytes
unread stop [] = []
unread stop (c ∷ s) = if stop c then c ∷ s else unread stop s

abbrev pub tail : Bytes → Bytes
tail [] = []
tail (c ∷ s) = s

-- One field and the text from its delimiter on. Behind a closing quote everything up to the
-- delimiter is passed over.
unfoldable pub scan_field : Bytes → Bytes × Bytes
unfolding passed unread
scan_field [] = ([], [])
scan_field (c ∷ s) =
    if is_quote c
    then (passed is_quote s, unread is_delimiter (tail (unread is_quote s)))
    else (passed is_delimiter (c ∷ s), unread is_delimiter (c ∷ s))

-- What the scan of a row ends with.
pub data RowScan : Type 0 where
  -- A linefeed: the columns, and the text behind.
  complete : List Bytes → Bytes → RowScan
  -- The end of the text; the columns read so far are dropped.
  at_end : RowScan
  -- Column 129: `argv[128]` is stored to.
  overrun : RowScan
  -- The fuel has run out.
  spent : RowScan

abbrev pub max_argv : ℕ
max_argv = 128

-- The loop `for (;;)`, with the columns read so far.
unfoldable pub scan_row : ℕ → List Bytes → Bytes → RowScan
scan_row zero argv s = spent
scan_row (suc fuel) argv s = if leb max_argv (length argv) then overrun else elim (scan_field s).1 [
  | [] ↦ at_end
  | c ∷ rest ↦ elim (is_linefeed c) [
    | true ↦ complete (argv ++ (scan_field s).0 ∷ []) rest
    | false ↦ scan_row fuel (argv ++ (scan_field s).0 ∷ []) rest
  ]
]

unfoldable pub skip_linefeeds : Bytes → Bytes
skip_linefeeds [] = []
skip_linefeeds (c ∷ s) = if is_linefeed c then skip_linefeeds s else c ∷ s

-- `processArgs(argc, argv)`, where `argc` is not 0.
abbrev pub process_columns : Importer → List Bytes → Outcome Importer
process_columns s [] = ok s
process_columns s (first ∷ others) = process_args s (record { first = first; others = others })

-- One round of the loop `while (*scan && !mEndOfFile)`.
pub data Round : Type 0 where
  halt : Outcome Importer → Round
  continue : Importer → Bytes → Round
  lost : Round

abbrev pub after_columns : Bytes → Outcome Importer → Round
after_columns more (ok t) = continue t more
after_columns more (fault e) = halt (fault e)

abbrev pub after_row : Importer → RowScan → Round
after_row s (complete argv more) = after_columns more (process_columns s argv)
after_row s at_end = halt (ok s)
after_row s overrun = halt (fault argv_overrun)
after_row s spent = lost

abbrev pub start_row : Importer → Bytes → Round
start_row s [] = halt (ok s)
start_row s (c ∷ rest) = after_row s (scan_row (suc (length (c ∷ rest))) [] (c ∷ rest))

-- The flag is `mEndOfFile`.
unfoldable pub round_at : Bool → Importer → Bytes → Round
round_at true s text = halt (ok s)
round_at false s text = start_row s (skip_linefeeds text)

abbrev pub round : Importer → Bytes → Round
round s text = round_at s.end_of_file s text

-- The loop; `none` means that the fuel has run out.
unfoldable pub scan_rows : ℕ → Importer → Bytes → Option (Outcome Importer)
scan_rows zero s text = none
scan_rows (suc fuel) s text = elim (round s text) [
  | halt r ↦ some r
  | continue t more ↦ scan_rows fuel t more
  | lost ↦ none
]

-- What follows the scan: the last object is stored, and the whole model is completed.
abbrev pub finish : Importer → Importer
finish s = let t = push_current s in record t { have_object = false; dom = import_complete t.dom }

-- The loop over a text that is not empty, after `mEndOfFile = false`. The text is the file up to its
-- first zero byte, where `parse_csv` cuts it.
unfoldable pub import_text : Importer → Bytes → Option (Outcome Importer)
unfolding scan_rows
import_text s text = scan_rows (suc (length text)) (record s { end_of_file = false }) text

abbrev pub finished : Option (Outcome Importer) → Option (Outcome Importer)
finished none = none
finished (some (ok t)) = some (ok (finish t))
finished (some (fault e)) = some (fault e)

-- `parseCSV` on the content of the file, `none` where it cannot be opened.
unfoldable pub parse_csv : Importer → Option Bytes → Option (Outcome Importer)
unfolding import_text c_string
parse_csv s none = some (ok s)
parse_csv s (some []) = some (ok (finish s))
parse_csv s (some (c ∷ text)) = finished (import_text s (c_string (c ∷ text)))
