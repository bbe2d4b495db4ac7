-- ===== src/Csv/Print.antt =====
-- The scan of src/CreateDOM.cpp's `parseCSV` reads back a table that is written as CSV: columns
-- between commas, rows ended by a linefeed, and quotes round a column that holds a delimiter.
use schema_code_gen.Base.{
  ℕ, zero, suc, ◌+◌, ◌<◌, ◌≡◌, ◌≢◌, refl, ◌∙◌, Bool, true, false, ◌||◌, List, [], ◌∷◌, ◌++◌,
  append_assoc, arith, Bytes, length, length-append, if◌then◌else◌, Bool-cases, ◌⊎◌, inl, inr, All,
}
use schema_code_gen.Csv.{
  quote, is_linefeed, is_delimiter, is_quote, passed, unread, scan_field, complete, max_argv,
  scan_row, skip_linefeeds, after_row, start_row,
}
use schema_code_gen.Rows.{Row, Importer}

abbrev pub any : (ℕ → Bool) → Bytes → Bool
any p [] = false
any p (c ∷ s) = p c || any p s

-- One column: between quotes if it holds a comma or a linefeed.
abbrev pub print_field : Bytes → Bytes
print_field f = if any is_delimiter f then quote ∷ (f ++ quote ∷ []) else f

abbrev pub print_columns : Bytes → List Bytes → Bytes
print_columns f [] = print_field f ++ 10 ∷ []
print_columns f (g ∷ gs) = print_field f ++ (b',' ∷ print_columns g gs)

abbrev pub print_table : List Row → Bytes
print_table [] = []
print_table (r ∷ rs) = print_columns r.first r.others ++ print_table rs

-- A column that can be written: it holds no quote.
abbrev pub IsPlain : Bytes → Type 0
IsPlain f = All (λ c. c ≢ quote) f

-- A row that can be written: at most 128 columns, none with a quote, and not one empty column.
pub record IsPrintable (r : Row) : Type 0 where
  pub fits : length r.others < max_argv
  pub first_plain : IsPlain r.first
  pub others_plain : All IsPlain r.others
  pub not_blank : (r.first ≢ []) ⊎ (r.others ≢ [])

passed_to :
    (at_stop : ℕ → Bool) (f : Bytes) (d : ℕ) (rest : Bytes)
    → any at_stop f ≡ false
    → at_stop d ≡ true
    → (passed at_stop (f ++ d ∷ rest) ≡ f) × (unread at_stop (f ++ d ∷ rest) ≡ d ∷ rest)
unfolding passed unread
passed_to at_stop [] d rest h e = (rw e, rw e)
passed_to at_stop (c ∷ f) d rest h e = let ih = passed_to at_stop f d rest in ground (arith, ih, e)

no_quotes : (f : Bytes) → IsPlain f → any is_quote f ≡ false
no_quotes [] h = refl
no_quotes (c ∷ f) h = ground (arith, no_quotes f)

scan_field_quoted :
    (f : Bytes) (d : ℕ) (rest : Bytes)
    → IsPlain f
    → is_delimiter d ≡ true
    → scan_field (quote ∷ (f ++ quote ∷ d ∷ rest)) ≡ (f, d ∷ rest)
unfolding scan_field
scan_field_quoted f d rest h e =
    let (before, behind) = passed_to is_quote f quote (d ∷ rest) (no_quotes f h) refl in
    rw (before, behind, e)

scan_field_bare :
    (f : Bytes) (d : ℕ) (rest : Bytes)
    → IsPlain f
    → any is_delimiter f ≡ false
    → is_delimiter d ≡ true
    → scan_field (f ++ d ∷ rest) ≡ (f, d ∷ rest)
unfolding scan_field
scan_field_bare [] d rest h n e = ground (arith, passed_to is_delimiter [] d rest)
scan_field_bare (c ∷ f) d rest h n e =
    let (before, behind) = passed_to is_delimiter (c ∷ f) d rest n e in
    ground (arith, before, behind)

pub scan_field-print_field :
    (f : Bytes) (d : ℕ) (rest : Bytes)
    → IsPlain f
    → is_delimiter d ≡ true
    → scan_field (print_field f ++ d ∷ rest) ≡ (f, d ∷ rest)
scan_field-print_field f d rest h e = elim (Bool-cases (any is_delimiter f)) [
  | inl q ↦ rw (q, append_assoc) (scan_field_quoted f d rest h e)
  | inr n ↦ rw n (scan_field_bare f d rest h n e)
]

pub scan_row_step :
    (fuel : ℕ) (argv : List Bytes) (s f : Bytes) (c : ℕ) (rest : Bytes)
    → length argv < max_argv
    → scan_field s ≡ (f, c ∷ rest)
    → scan_row (suc fuel) argv s ≡ (
        if is_linefeed c
        then complete (argv ++ f ∷ []) rest
        else scan_row fuel (argv ++ f ∷ []) rest)
unfolding scan_row
scan_row_step fuel argv s f c rest k e = ground (arith, e)

-- The scan of a row, column by column.
pub scan_row-print_columns :
    (fuel : ℕ) (argv : List Bytes) (f : Bytes) (fs : List Bytes) (rest : Bytes)
    → length fs < fuel
    → length argv + length fs < max_argv
    → IsPlain f
    → All IsPlain fs
    → scan_row fuel argv (print_columns f fs ++ rest) ≡ complete (argv ++ f ∷ fs) rest
scan_row-print_columns zero argv f fs rest h k p ps = absurd (omega arith)
scan_row-print_columns (suc fuel) argv f [] rest h k p ps = rw append_assoc (
    scan_row_step fuel argv (print_field f ++ 10 ∷ rest) f 10 rest (omega arith)
      (scan_field-print_field f 10 rest p refl))
scan_row-print_columns (suc fuel) argv f (g ∷ gs) rest h k p ps =
    let later = print_columns g gs ++ rest in
    let read = scan_field-print_field f b',' later p refl in
    let shorter : length (argv ++ f ∷ []) + length gs < max_argv =
      omega (arith, length-append argv (f ∷ [])) in
    rw append_assoc
      (scan_row_step fuel argv (print_field f ++ b',' ∷ later) f b',' later (omega arith) read)
    ∙ scan_row-print_columns fuel (argv ++ f ∷ []) g gs rest (omega arith) shorter ps.0 ps.1
    ∙ rw append_assoc

pub length-print_columns : (f : Bytes) (fs : List Bytes) → length fs < length (print_columns f fs)
length-print_columns f [] = omega (arith, length-append (print_field f) (10 ∷ []))
length-print_columns f (g ∷ gs) =
    omega
      (arith, length-append (print_field f) (b',' ∷ print_columns g gs), length-print_columns g gs)

head_field :
    (f : Bytes) (d : ℕ) (t : Bytes)
    → (is_linefeed d ≡ false) ⊎ (f ≢ [])
    → (c : ℕ) × (more : Bytes) × (print_field f ++ d ∷ t ≡ c ∷ more) × (is_linefeed c ≡ false)
head_field [] d t (inl e) = (d, t, refl, e)
head_field [] d t (inr n) = absurd (n refl)
head_field (x ∷ f) d t _ = elim (Bool-cases (any is_delimiter (x ∷ f))) [
  | inl q ↦ (quote, (f' f ++ d ∷ t), rw q, refl)
  | inr n ↦ (x, f ++ d ∷ t, rw n, ground arith)
]
  where
    f' : Bytes → Bytes
    f' g = x ∷ (g ++ quote ∷ [])

-- A row that is not blank does not begin with a linefeed.
pub head_columns :
    (f : Bytes) (fs : List Bytes) (rest : Bytes)
    → (f ≢ []) ⊎ (fs ≢ [])
    → (c : ℕ) × (more : Bytes) × (print_columns f fs ++ rest ≡ c ∷ more) × (is_linefeed c ≡ false)
head_columns f [] rest (inl n) = rw append_assoc (head_field f 10 rest (inr n))
head_columns f [] rest (inr n) = absurd (n refl)
head_columns f (g ∷ gs) rest _ =
    rw append_assoc (head_field f b',' (print_columns g gs ++ rest) (inl refl))

pub start_row-cons :
    (s : Importer) (text : Bytes) (c : ℕ) (more : Bytes)
    → text ≡ c ∷ more
    → is_linefeed c ≡ false
    → start_row s (skip_linefeeds text) ≡ after_row s (scan_row (suc (length text)) [] text)
unfolding skip_linefeeds
start_row-cons s text c more e n = rw (e, n)
