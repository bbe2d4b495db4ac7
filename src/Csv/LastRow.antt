-- ===== src/Csv/LastRow.antt =====
-- A last row that no linefeed ends, in src/CreateDOM.cpp's `parseCSV`.
use schema_code_gen.Base.{
  ℕ, zero, suc, ◌+◌, ◌-◌, ◌≤◌, ◌<◌, ◌≡◌, ◌≢◌, refl, Bool, true, false, List, [], ◌∷◌, ◌++◌, some,
  arith, Bytes, length, length-append, ◌==◌, if◌then◌else◌, Bool-cases, List-cases, inl, inr, All,
}
use schema_code_gen.Csv.{
  is_delimiter, unread, scan_field, at_end, max_argv, scan_row, skip_linefeeds, halt, start_row,
  round_at, import_text,
}
use schema_code_gen.Csv.Print.{print_table, IsPlain, IsPrintable}
use schema_code_gen.Csv.RoundTrip.{feed, scan_rows-print_table, length-print_table}
use schema_code_gen.Outcome.{ok}
use schema_code_gen.Rows.{Row, Importer}

abbrev pub commas : Bytes → ℕ
commas [] = 0
commas (c ∷ s) = (if c == b',' then 1 else 0) + commas s

-- A text with no quote and no linefeed, and with fewer than `n` commas.
pub record IsPartial (n : ℕ) (s : Bytes) : Type 0 where
  pub plain : IsPlain s
  pub one_line : All (λ c. (c ≢ 10) × (c ≢ 13)) s
  pub few : commas s < n

-- What is left behind a field of such a text is empty, or one comma and such a text.
abbrev Rest : ℕ → Bytes → Type 0
Rest n [] = Unit
Rest n (c ∷ rest) =
    (c ≡ b',') × IsPlain rest × All (λ c. (c ≢ 10) × (c ≢ 13)) rest × (suc (commas rest) < n)

unread-Rest : (n : ℕ) (s : Bytes) → IsPartial n s → Rest n (unread is_delimiter s)
unfolding unread
unread-Rest n [] h = tt
unread-Rest n (c ∷ s) h = elim (Bool-cases (c == b',')) [
  | inl e ↦
      let delimiter : is_delimiter c ≡ true = ground arith in
      rw delimiter (ground arith, h.plain.1, h.one_line.1, ground arith)
  | inr e ↦
      let plain : is_delimiter c ≡ false = ground arith in
      rw plain (
        unread-Rest n s (record { plain = h.plain.1; one_line = h.one_line.1; few = ground arith }))
]

scan_field_rest : (s : Bytes) → IsPlain s → (scan_field s).1 ≡ unread is_delimiter s
unfolding scan_field unread
scan_field_rest [] h = refl
scan_field_rest (c ∷ s) h = ground arith

length-unread : (s : Bytes) → length (unread is_delimiter s) ≤ length s
unfolding unread
length-unread [] = omega arith
length-unread (c ∷ s) = ground (arith, length-unread s)

-- The scan of such a text, with room in `argv` for a column more than it has commas.
scan_row-at_end :
    (fuel : ℕ) (argv : List Bytes) (s : Bytes) (n : ℕ)
    → length s < fuel
    → length argv + n ≤ max_argv
    → IsPartial n s
    → scan_row fuel argv s ≡ at_end
unfolding scan_row
scan_row-at_end zero argv s n h k p = absurd (omega arith)
scan_row-at_end (suc fuel) argv s n h k p = elim (List-cases (unread is_delimiter s)) [
  | inl e ↦ let room : commas s < n = p.few in ground (arith, scan_field_rest s p.plain, e, room, k)
  | inr (c, rest, e) ↦
      let (comma, plain, line, few) = rw e at (unread-Rest n s p) in
      let shorter : suc (length rest) ≤ length s = rw e at (length-unread s) in
      let argv' = argv ++ (scan_field s).0 ∷ [] in
      let grown : length argv' ≡ length argv + 1 = length-append argv ((scan_field s).0 ∷ []) in
      let part : IsPartial (n - 1) rest = record {
        plain = plain;
        one_line = line;
        few = omega arith;
      } in
      let again = scan_row-at_end fuel argv' rest (n - 1) (omega arith) (omega arith) part in
      ground (arith, scan_field_rest s p.plain, e, comma, again, k, few)
]

start_row_dropped :
    (s : Importer) (last : Bytes) → IsPartial max_argv last → start_row s last ≡ halt (ok s)
start_row_dropped s [] p = refl
start_row_dropped s (c ∷ rest) p =
    rw (
      scan_row-at_end (suc (length (c ∷ rest))) [] (c ∷ rest) max_argv (omega arith) (omega arith)
        p)

skip_nothing : (last : Bytes) → IsPartial max_argv last → skip_linefeeds last ≡ last
unfolding skip_linefeeds
skip_nothing [] p = refl
skip_nothing (c ∷ rest) p = let h = p.one_line.0 in ground arith

round_dropped :
    (b : Bool) (s : Importer) (last : Bytes)
    → IsPartial max_argv last
    → round_at b s last ≡ halt (ok s)
unfolding round_at
round_dropped true s last p = refl
round_dropped false s last p = rw (skip_nothing last p) (start_row_dropped s last p)

-- A last row that no linefeed ends is dropped: whatever object, member or setting it holds, the
-- file is read as if it stopped at the linefeed before. (The row has no quote and at most 127
-- commas.)
pub import_text_drops_last :
    (s : Importer) (rs : List Row) (last : Bytes)
    → All IsPrintable rs
    → IsPartial max_argv last
    → import_text s (print_table rs ++ last) ≡ some (feed (record s { end_of_file = false }) rs)
unfolding import_text
import_text_drops_last s rs last p q =
    let start = record s { end_of_file = false } in
    let fuel = suc (length (print_table rs ++ last)) in
    scan_rows-print_table last (λ t. round_dropped t.end_of_file t last q) fuel start rs
      (omega (arith, length-print_table rs, length-append (print_table rs) last)) p
