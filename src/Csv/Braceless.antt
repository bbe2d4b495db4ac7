-- ===== src/Csv/Braceless.antt =====
-- The import of a file without braces leaves a model without braces, in src/CreateDOM.cpp.
use schema_code_gen.Base.{
  ℕ, zero, suc, subst, ◌==◌, Bool, true, false, List, [], ◌∷◌, ◌++◌, Bytes, All, All-append, length,
  leb, inl, inr, if◌then◌else◌,
}
use schema_code_gen.CString.{c_string}
use schema_code_gen.Csv.Fuel.{Round-cases}
use schema_code_gen.Csv.Invariant.{Ends}
use schema_code_gen.Csv.{
  is_linefeed, is_delimiter, is_quote, passed, unread, tail, scan_field, max_argv, RowScan,
  complete, at_end, overrun, spent, scan_row, skip_linefeeds, process_columns, Round, halt,
  continue, lost, after_columns, after_row, start_row, round_at, round, scan_rows,
}
use schema_code_gen.Emit.Depth.{IsBraceless, if-IsBraceless}
use schema_code_gen.Outcome.{Outcome, ok, fault, Ensures}
use schema_code_gen.Rows.Kept.{IsBracelessImporter, process_args-IsBraceless}
use schema_code_gen.Rows.{Importer}

passed-IsBraceless : (stop : ℕ → Bool) (s : Bytes) → IsBraceless s → IsBraceless (passed stop s)
unfolding passed
passed-IsBraceless stop [] h = tt
passed-IsBraceless stop (c ∷ s) (hc, h) =
    if-IsBraceless (stop c) [] (c ∷ passed stop s) tt (hc, passed-IsBraceless stop s h)

unread-IsBraceless : (stop : ℕ → Bool) (s : Bytes) → IsBraceless s → IsBraceless (unread stop s)
unfolding unread
unread-IsBraceless stop [] h = tt
unread-IsBraceless stop (c ∷ s) (hc, h) =
    if-IsBraceless (stop c) (c ∷ s) (unread stop s) (hc, h) (unread-IsBraceless stop s h)

tail-IsBraceless : (s : Bytes) → IsBraceless s → IsBraceless (tail s)
tail-IsBraceless [] h = tt
tail-IsBraceless (c ∷ s) (hc, h) = h

skip-IsBraceless : (s : Bytes) → IsBraceless s → IsBraceless (skip_linefeeds s)
unfolding skip_linefeeds
skip-IsBraceless [] h = tt
skip-IsBraceless (c ∷ s) (hc, h) =
    if-IsBraceless (is_linefeed c) (skip_linefeeds s) (c ∷ s) (skip-IsBraceless s h) (hc, h)

pub c_string-IsBraceless : (s : Bytes) → IsBraceless s → IsBraceless (c_string s)
unfolding c_string
c_string-IsBraceless [] h = tt
c_string-IsBraceless (c ∷ s) (hc, h) =
    if-IsBraceless (c == 0) [] (c ∷ c_string s) tt (hc, c_string-IsBraceless s h)

-- The two parts of a scan.
abbrev AreBraceless : Bytes × Bytes → Type 0
AreBraceless r = IsBraceless r.0 × IsBraceless r.1

scan_field-AreBraceless : (s : Bytes) → IsBraceless s → AreBraceless (scan_field s)
unfolding scan_field
scan_field-AreBraceless [] h = (tt, tt)
scan_field-AreBraceless (c ∷ s) (hc, h) = pick (is_quote c)
  where
    pick :
        (b : Bool)
        → AreBraceless (
            if b
            then (passed is_quote s, unread is_delimiter (tail (unread is_quote s)))
            else (passed is_delimiter (c ∷ s), unread is_delimiter (c ∷ s)))
    pick true = (
      passed-IsBraceless is_quote s h,
      unread-IsBraceless is_delimiter (tail (unread is_quote s))
          (tail-IsBraceless (unread is_quote s) (unread-IsBraceless is_quote s h)),
    )
    pick false = (
      passed-IsBraceless is_delimiter (c ∷ s) (hc, h),
      unread-IsBraceless is_delimiter (c ∷ s) (hc, h),
    )

-- The columns of a row and the text behind.
abbrev IsBracelessRow : RowScan → Type 0
IsBracelessRow (complete argv more) = All IsBraceless argv × IsBraceless more
IsBracelessRow _ = Unit

scan_row-IsBraceless :
    (fuel : ℕ) (argv : List Bytes) (s : Bytes)
    → All IsBraceless argv
    → IsBraceless s
    → IsBracelessRow (scan_row fuel argv s)
unfolding scan_row
scan_row-IsBraceless zero argv s ha h = tt
scan_row-IsBraceless (suc fuel) argv s ha h =
    let (field, rest) = scan_field-AreBraceless s h in
    full (leb max_argv (length argv)) (scan_field s).1 rest
      (All-append _ argv ((scan_field s).0 ∷ []) ha (field, tt))
      (λ more k.
        scan_row-IsBraceless fuel (argv ++ (scan_field s).0 ∷ []) more
          (All-append _ argv ((scan_field s).0 ∷ []) ha (field, tt)) k)
  where
    ended :
        (b : Bool) (more : Bytes)
        → All IsBraceless (argv ++ (scan_field s).0 ∷ [])
        → IsBraceless more
        → IsBracelessRow (scan_row fuel (argv ++ (scan_field s).0 ∷ []) more)
        → IsBracelessRow (elim b [
          | true ↦ complete (argv ++ (scan_field s).0 ∷ []) more
          | false ↦ scan_row fuel (argv ++ (scan_field s).0 ∷ []) more
        ])
    ended true more hc hm k = (hc, hm)
    ended false more hc hm k = k

    full :
        (b : Bool) (rest : Bytes)
        → IsBraceless rest
        → All IsBraceless (argv ++ (scan_field s).0 ∷ [])
        → ((more : Bytes)
            → IsBraceless more
            → IsBracelessRow (scan_row fuel (argv ++ (scan_field s).0 ∷ []) more))
        → IsBracelessRow (
            if b then overrun else elim rest [
              | [] ↦ at_end
              | c ∷ more ↦ elim (is_linefeed c) [
                | true ↦ complete (argv ++ (scan_field s).0 ∷ []) more
                | false ↦ scan_row fuel (argv ++ (scan_field s).0 ∷ []) more
              ]
            ])
    full true rest hr hc k = tt
    full false [] hr hc k = tt
    full false (c ∷ more) (_, hm) hc k = ended (is_linefeed c) more hc hm (k more hm)

-- The state and the text that the next round starts with.
IsBracelessRound : Round → Type 0
IsBracelessRound (halt r) = Ensures IsBracelessImporter r
IsBracelessRound (continue t more) = IsBracelessImporter t × IsBraceless more
IsBracelessRound lost = Unit

columns-Ensures :
    (s : Importer) (argv : List Bytes)
    → All IsBraceless argv
    → IsBracelessImporter s
    → Ensures IsBracelessImporter (process_columns s argv)
columns-Ensures s [] ha h = h
columns-Ensures s (first ∷ others) (hf, ha) h = process_args-IsBraceless s first others hf ha h

after_columns-IsBraceless :
    (more : Bytes) (r : Outcome Importer)
    → IsBraceless more
    → Ensures IsBracelessImporter r
    → IsBracelessRound (after_columns more r)
unfolding IsBracelessRound
after_columns-IsBraceless more (ok t) hm h = (h, hm)
after_columns-IsBraceless more (fault e) hm h = tt

after_row-IsBraceless :
    (s : Importer) (r : RowScan)
    → IsBracelessRow r
    → IsBracelessImporter s
    → IsBracelessRound (after_row s r)
unfolding IsBracelessRound
after_row-IsBraceless s (complete argv more) (ha, hm) h =
    after_columns-IsBraceless more (process_columns s argv) hm (columns-Ensures s argv ha h)
after_row-IsBraceless s at_end hr h = h
after_row-IsBraceless s overrun hr h = tt
after_row-IsBraceless s spent hr h = tt

start_row-IsBraceless :
    (s : Importer) (text : Bytes)
    → IsBraceless text
    → IsBracelessImporter s
    → IsBracelessRound (start_row s text)
unfolding IsBracelessRound
start_row-IsBraceless s [] ht h = h
start_row-IsBraceless s (c ∷ rest) ht h =
    after_row-IsBraceless s _ (scan_row-IsBraceless (suc (length (c ∷ rest))) [] (c ∷ rest) tt ht) h

round_at-IsBraceless :
    (b : Bool) (s : Importer) (text : Bytes)
    → IsBraceless text
    → IsBracelessImporter s
    → IsBracelessRound (round_at b s text)
unfolding round_at IsBracelessRound
round_at-IsBraceless true s text ht h = h
round_at-IsBraceless false s text ht h =
    start_row-IsBraceless s (skip_linefeeds text) (skip-IsBraceless text ht) h

pub scan_rows-IsBraceless :
    (fuel : ℕ) (s : Importer) (text : Bytes)
    → IsBraceless text
    → IsBracelessImporter s
    → Ends IsBracelessImporter (scan_rows fuel s text)
unfolding scan_rows IsBracelessRound
scan_rows-IsBraceless zero s text ht h = tt
scan_rows-IsBraceless (suc fuel) s text ht h =
    let next = round_at-IsBraceless s.end_of_file s text ht h in
    elim (Round-cases (round s text)) [
      | inl (o, e) ↦ rw (e, scan_rows) (subst IsBracelessRound e next)
      | inr (inl (t, more, e)) ↦
          let both = subst IsBracelessRound e next in
          rw (e, scan_rows) (scan_rows-IsBraceless fuel t more both.1 both.0)
      | inr (inr e) ↦ rw (e, scan_rows) tt
    ]
