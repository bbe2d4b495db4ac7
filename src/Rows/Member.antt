-- ===== src/Rows/Member.antt =====
-- The row of a data item, in `CreateDOMDef::processArgs` of src/CreateDOM.cpp: its name with the
-- marks `*`, `[]`, `?`, `!` and `[type:...]`, its type, and the columns behind.
use schema_code_gen.Base.{
  ℕ, zero, suc, true, not, List, [], ◌∷◌, Option, none, some, Bytes, codes, length, text_eq,
  get_elem?, leb, take, ◌&&◌, ◌==◌, if◌then◌else◌,
}
use schema_code_gen.CString.{has_char, before_char, after_char, strip_prefix}
use schema_code_gen.Dom.{
  OptionalType, required, optional, optional_deserialize, MemberVariable, new_member, init,
}
use schema_code_gen.Outcome.{Outcome, ok, fault, assertion, unterminated, ◌>>=◌}

-- The name `c ∷ name` up to its array bracket, or up to its `*` if it has no bracket. The bracket
-- is looked for behind the first byte, where a map has its own.
unfoldable pub cut_name : ℕ → Bytes → Bytes
unfolding has_char before_char
cut_name c name =
    if has_char b'[' name then c ∷ before_char b'[' name else before_char b'*' (c ∷ name)

-- The loop that copies the name into `tempValue` without `?` and `!`; the last mark decides.
unfoldable pub strip_marks : ℕ → OptionalType → Bytes → Bytes × OptionalType
strip_marks zero o s = ([], o)
strip_marks (suc room) o [] = ([], o)
strip_marks (suc room) o (c ∷ s) =
    let question = strip_marks (suc room) optional s in
    let exclamation = strip_marks (suc room) optional_deserialize s in
    let copied = strip_marks room o s in
    if c == b'?' then question else if c == b'!' then exclamation else (c ∷ copied.0, copied.1)

-- `[member:type]` names a map; a map without `:` or `]` fails an assertion.
unfoldable pub split_map : MemberVariable → Bytes → Outcome MemberVariable
unfolding has_char before_char after_char
split_map di [] = ok (record di { member = [] })
split_map di (c ∷ name) =
    if not (c == b'[')
    then ok (record di { member = c ∷ name })
    else if not (has_char b':' name)
    then fault assertion
    else if not (has_char b']' (after_char b':' name))
    then fault assertion
    else ok (record di {
      is_map = true;
      map_type = before_char b']' (after_char b':' name);
      member = before_char b':' name;
    })

-- The type column, copied into a buffer of 512 bytes; a `!` in it ends the type. A column that fills
-- the buffer has no terminator there, which is a fault unless the search for `!` stops before.
unfoldable pub set_type : Option Bytes → MemberVariable → Outcome MemberVariable
unfolding has_char before_char
set_type none di = ok di
set_type (some text) di =
    if leb 512 (length text) && not (has_char b'!' (take 512 text))
    then fault unterminated
    else ok (record di {
      serialize_enum_as_integer = if has_char b'!' text then true else di.serialize_enum_as_integer;
      type = before_char b'!' text;
      is_string = text_eq (before_char b'!' text) (codes "string");
    })

-- The column of the base class, which a type for protobufs may stand in.
unfoldable pub set_inherits : Option Bytes → MemberVariable → MemberVariable
unfolding strip_prefix
set_inherits none di = di
set_inherits (some text) di = elim (strip_prefix (codes "PROTO:") text) [
  | none ↦ record di { inherits_from = text }
  | some proto ↦ record di { proto_type = proto }
]

-- `if (argc > i) field = argv[i];`, where the columns are counted from those that are passed.
abbrev pub column : List Bytes → ℕ → Bytes → Bytes
column args i old = elim (get_elem? args i) [ none ↦ old | some a ↦ a ]

-- `args` are the columns from the third on.
unfoldable pub set_columns : List Bytes → MemberVariable → MemberVariable
unfolding set_inherits
set_columns args di =
    let d = set_inherits (get_elem? args 1) di in
    record d {
      engine_specific = column args 2 d.engine_specific;
      default_value = column args 3 d.default_value;
      min_value = column args 4 d.min_value;
      max_value = column args 5 d.max_value;
      alias = column args 6 d.alias;
      short_description = column args 7 d.short_description;
      long_description = column args 8 d.long_description;
    }

-- The member that a row with the name `c ∷ name` and the further columns `args` adds.
unfoldable pub parse_member : ℕ → Bytes → List Bytes → Outcome MemberVariable
unfolding cut_name strip_marks split_map set_type set_columns init has_char
parse_member c name args =
    let (text, o) = strip_marks 510 required (cut_name c name) in
    split_map (record new_member { is_optional = o }) text >>= λ named.
    set_type (get_elem? args 0)
      (record named { is_array = has_char b'[' name; is_pointer = has_char b'*' (c ∷ name) })
    >>= λ typed. ok (init (set_columns args typed))
