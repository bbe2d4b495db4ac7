-- ===== src/Rows/Cases.antt =====
-- What holds of `processArgs` in src/CreateDOM.cpp holds by its cases: the `EOF` row, the rows that
-- set a value of the schema, and the rows that name an object or a member.
use schema_code_gen.Base.{◌≡◌, refl, Bool, true, false, List, [], ◌∷◌, Bytes}
use schema_code_gen.Dom.{Dom}
use schema_code_gen.Outcome.{Ensures}
use schema_code_gen.Rows.{
  Row, Importer, RowKind, eof, header, named, row_kind, name_row, set_setting, dispatch, process_at,
  process_args,
}

module _ (P : Importer → Type 0) (s : Importer) where
  set_setting-P :
      (args : List Bytes) (f : Bytes → Dom)
      → P s
      → ((a : Bytes) → P (record s { dom = f a }))
      → P (set_setting args f s)
  set_setting-P [] f h g = h
  set_setting-P (a ∷ _) f h g = g a

  dispatch-Ensures :
      (k : RowKind) (first : Bytes) (args : List Bytes)
      → P s
      → P (record s { end_of_file = true })
      → ((d : Dom) → d.objects ≡ s.dom.objects → P (record s { dom = d }))
      → (k ≡ named → Ensures P (name_row first args s))
      → Ensures P (dispatch k first args s)
  unfolding dispatch
  dispatch-Ensures eof first args h end setting row = end
  dispatch-Ensures header first args h end setting row = h
  dispatch-Ensures named first args h end setting row = row refl
  dispatch-Ensures _ first args h end setting row = set_setting-P args _ h (λ a. setting _ refl)

  process_at-Ensures :
      (b : Bool) (r : Row)
      → P s
      → Ensures P (dispatch (row_kind r.first) r.first r.others s)
      → Ensures P (process_at b s r)
  unfolding process_at
  process_at-Ensures true r h d = h
  process_at-Ensures false r h d = d

  -- `P` holds after a row if it holds after each kind of row.
  pub process_args-Ensures :
      (r : Row)
      → P s
      → P (record s { end_of_file = true })
      → ((d : Dom) → d.objects ≡ s.dom.objects → P (record s { dom = d }))
      → (row_kind r.first ≡ named → Ensures P (name_row r.first r.others s))
      → Ensures P (process_args s r)
  unfolding process_args
  process_args-Ensures r h end setting row =
      process_at-Ensures s.end_of_file r h
        (dispatch-Ensures (row_kind r.first) r.first r.others h end setting row)
