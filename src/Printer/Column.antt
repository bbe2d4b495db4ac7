-- ===== src/Printer/Column.antt =====
-- The column that the indentation of `printCode` in src/CreateDOM.cpp leads to.
use schema_code_gen.Base.{
  ℕ, ◌+◌, ◌-◌, ◌*◌, ◌/◌, ◌%◌, ◌^◌, ◌<◌, ◌≡◌, refl, arith, length, length-append, length-replicate,
  ltb, ◌==◌, if◌then◌else◌, append-nil, Bool-cases, inl, inr,
}
use schema_code_gen.Printer.{pad_from, spaces}

-- Where the text begins, by the column at which the output stands: at the wanted column from an
-- even one, and two columns beside it from an odd one.
abbrev pub landing : ℕ → ℕ → ℕ
landing indent position =
    let wanted = indent * 4 in
    if ltb position wanted
    then (if position % 2 == 0
        then wanted
        else if ltb (position + 1) wanted
        then wanted - 2
        else wanted + 2)
    else position + 1

-- From a column before the wanted one the padding leads to the wanted column, if the column is
-- even. From an odd one it stops two columns short, or from the last one runs two columns over.
-- From the wanted column or behind it adds one space.
pub pad_from-landing :
    (indent position : ℕ)
    → indent < 2 ^ 30
    → position + length (pad_from indent position) ≡ landing indent position
unfolding pad_from
pad_from-landing indent position h =
    let wide : indent * 4 % 2 ^ 32 ≡ indent * 4 = omega arith in
    elim (Bool-cases (ltb position (indent * 4))) [
      | inr e ↦ rw (wide, e) refl
      | inl e ↦ elim (Bool-cases (ltb (position + position % 4) (indent * 4))) [
        | inl f ↦
            let tabs = (indent * 4 - (position + position % 4)) % 2 ^ 32 / 4 * 4 in
            rw (wide, e, f)
              (ground (
                arith,
                length-append (spaces (position % 4)) (spaces tabs),
                length-replicate {A = ℕ} (position % 4) b' ',
                length-replicate {A = ℕ} tabs b' ',
              ))
        | inr f ↦
            rw (wide, e, f, append-nil)
              (ground (arith, length-replicate {A = ℕ} (position % 4) b' '))
      ]
    ]
