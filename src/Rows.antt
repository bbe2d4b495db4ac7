-- ===== src/Rows.antt =====
-- `CreateDOMDef::processArgs` of src/CreateDOM.cpp: what one row of the spreadsheet does to the
-- importer. A row has a first column, `argv[0]`, and those behind it; `argc` is their number.
pub mod Member
pub mod Names
pub mod Children
pub mod Links
pub mod Outline
pub mod Steps
pub mod Marks
pub mod Braceless
pub mod Columns
pub mod Kept
pub mod Cases
use schema_code_gen.Base.{
  ℕ, Bool, true, false, List, [], ◌∷◌, ◌++◌, map, Option, none, some, Bytes, codes, text_eq,
  get_elem?, if◌then◌else◌,
}
use schema_code_gen.Base.Int.{ℤ, pos, negsuc}
use schema_code_gen.CString.{atoi, stricmp_eq}
use schema_code_gen.Dom.{MemberVariable, Object, new_object, Dom, new_dom}
use schema_code_gen.Outcome.{Outcome, ok, ◌>>=◌}
use Member.{column, parse_member}

pub record Row : Type 0 where
  pub first : Bytes
  pub others : List Bytes

-- The fields of `CreateDOMDef`.
pub record Importer : Type 0 where
  pub end_of_file : Bool
  pub have_object : Bool
  pub current_object : Object
  pub dom : Dom
  pub dest_dir : Bytes

-- `CreateDOM::create`
abbrev pub create : Bytes → Importer
create dir = record {
  end_of_file = false;
  have_object = false;
  current_object = new_object;
  dom = new_dom;
  dest_dir = dir;
}

-- `getBool` of the namespace `CREATE_DOM`: a nonzero number, or `true` in any case.
unfoldable pub get_bool : Bytes → Bool
get_bool s = elim (atoi s) [ pos ℕ.zero ↦ stricmp_eq s (codes "true") | _ ↦ true ]

-- The current object joins the finished ones. The flag is `mHaveObject`.
abbrev pub push_at : Bool → Importer → Importer
push_at true s = record s {
  dom = record s.dom { objects = s.dom.objects ++ s.current_object ∷ [] };
  current_object = new_object;
}
push_at false s = s

abbrev pub push_current : Importer → Importer
push_current s = push_at s.have_object s

-- `j.mChildren.push_back(name)` for each finished object `j` that the new one names as its base.
abbrev pub adopt : Bytes → Bytes → Object → Object
adopt base name j =
    if text_eq j.name base then record j { children = j.children ++ name ∷ [] } else j

-- The same, when the row has the fourth column, the base.
abbrev pub adopt_all : Option Bytes → Bytes → List Object → List Object
adopt_all none name os = os
adopt_all (some base) name os = map (adopt base name) os

abbrev pub set_flags : Option Bytes → Object → Object
set_flags none o = o
set_flags (some a) o =
    if stricmp_eq a (codes "CLONE")
    then record o { clone = true }
    else if stricmp_eq a (codes "ASSIGNMENT")
    then record o { assignment = true }
    else o

-- The columns of an object: its name, and those behind it.
abbrev pub object_columns : Bytes → List Bytes → Object → Object
object_columns name args o = set_flags (get_elem? args 4) (record o {
  name = name;
  type = column args 1 o.type;
  inherits_from = column args 2 o.inherits_from;
  engine_specific = column args 3 o.engine_specific;
  alias = column args 7 o.alias;
  short_description = column args 8 o.short_description;
  long_description = column args 9 o.long_description;
})

-- A row whose first column is not empty starts an object.
unfoldable pub start_object : Bytes → List Bytes → Importer → Importer
start_object name args s =
    let t = push_current s in
    record t {
      have_object = true;
      current_object = object_columns name args t.current_object;
      dom = record t.dom { objects = adopt_all (get_elem? args 2) name t.dom.objects };
    }

-- Any other row adds a member to the current object, if its second column is not empty.
unfoldable pub add_member : List Bytes → Importer → Outcome Importer
add_member [] s = ok s
add_member ([] ∷ args) s = ok s
add_member ((c ∷ name) ∷ args) s = parse_member c name args >>= λ di. ok (record s {
  current_object = record s.current_object { items = s.current_object.items ++ di ∷ [] };
})

-- The rows that are no setting.
unfoldable pub name_row : Bytes → List Bytes → Importer → Outcome Importer
unfolding start_object add_member
name_row [] args s = add_member args s
name_row (c ∷ name) args s = ok (start_object (c ∷ name) args s)

abbrev pub set_setting : List Bytes → (Bytes → Dom) → Importer → Importer
set_setting [] f s = s
set_setting (a ∷ _) f s = record s { dom = f a }

-- The tests of the first column, in the order of the source. Case does not matter.
pub data RowKind : Type 0 where
  eof filename namespace pod export_xml url header named : RowKind

unfoldable pub row_kind : Bytes → RowKind
row_kind first =
    if stricmp_eq first (codes "EOF")
    then eof
    else if stricmp_eq first (codes "Filename")
    then filename
    else if stricmp_eq first (codes "Namespace")
    then namespace
    else if stricmp_eq first (codes "POD")
    then pod
    else if stricmp_eq first (codes "ExportXML")
    then export_xml
    else if stricmp_eq first (codes "URL")
    then url
    else if stricmp_eq first (codes "ObjectName")
    then header
    else named

-- The branches of those tests.
unfoldable pub dispatch : RowKind → Bytes → List Bytes → Importer → Outcome Importer
unfolding get_bool name_row
dispatch eof first args s = ok (record s { end_of_file = true })
dispatch filename first args s = ok (set_setting args (λ a. record (s.dom) { filename = a }) s)
dispatch namespace first args s = ok (set_setting args (λ a. record (s.dom) { namespace = a }) s)
dispatch pod first args s =
    ok (set_setting args (λ a. record (s.dom) { plain_old_data = get_bool a }) s)
dispatch export_xml first args s = ok (set_setting args (λ a. record (s.dom) { export_xml = a }) s)
dispatch url first args s = ok (set_setting args (λ a. record (s.dom) { url = a }) s)
dispatch header first args s = ok s
dispatch named first args s = name_row first args s

-- The flag is `mEndOfFile`.
unfoldable pub process_at : Bool → Importer → Row → Outcome Importer
unfolding dispatch row_kind
process_at true s r = ok s
process_at false s r = dispatch (row_kind r.first) r.first r.others s

unfoldable pub process_args : Importer → Row → Outcome Importer
unfolding process_at
process_args s r = process_at s.end_of_file s r
