-- ===== src/Rows/Braceless.antt =====
-- Rows whose columns have no braces leave a model without braces, in src/CreateDOM.cpp's `processArgs`.
use schema_code_gen.Base.{
  ℕ, zero, suc, refl, Bool, true, false, not, ◌&&◌, List, [], ◌∷◌, ◌++◌, Option, none, some, Bytes,
  codes, All, All-append, get_elem?, length, leb, take, ◌==◌, if◌then◌else◌,
}
use schema_code_gen.CString.{has_char, after_char, strip_prefix, truncate}
use schema_code_gen.Dom.{required, MemberVariable, new_member, init, is_empty}
use schema_code_gen.Emit.Depth.{IsBraceless}
use schema_code_gen.Outcome.{ok, fault, Ensures, if-Ensures, bind-Ensures}
use schema_code_gen.Rows.Member.{
  cut_name, strip_marks, split_map, set_type, set_inherits, column, set_columns, parse_member,
}
use schema_code_gen.Save.Braceless.{IsBracelessMember, braceless-IsBraceless}
use schema_code_gen.Rows.Marks.{
  take-IsBraceless, before_char-IsBraceless, after_char-IsBraceless, cut_name-IsBraceless,
  strip_marks-IsBraceless,
}

split_map-Ensures :
    (di : MemberVariable) (s : Bytes)
    → IsBracelessMember di
    → IsBraceless s
    → Ensures IsBracelessMember (split_map di s)
unfolding split_map
split_map-Ensures di [] h hs = record {
  member = tt;
  type = h.type;
  map_type = h.map_type;
  alias = h.alias;
  inherits_from = h.inherits_from;
  default_value = h.default_value;
  qualified_default_value = h.qualified_default_value;
  short_description = h.short_description;
}
split_map-Ensures di (c ∷ name) h hs =
    if-Ensures IsBracelessMember (not (c == b'[')) (ok (record di { member = c ∷ name })) _
      record {
        member = hs;
        type = h.type;
        map_type = h.map_type;
        alias = h.alias;
        inherits_from = h.inherits_from;
        default_value = h.default_value;
        qualified_default_value = h.qualified_default_value;
        short_description = h.short_description;
      }
      (if-Ensures IsBracelessMember (not (has_char b':' name)) (fault _) _ tt (
        if-Ensures IsBracelessMember (not (has_char b']' (after_char b':' name))) (fault _) _ tt
          record {
            member = before_char-IsBraceless b':' name hs.1;
            type = h.type;
            map_type =
                before_char-IsBraceless b']' (after_char b':' name)
                  (after_char-IsBraceless b':' name hs.1);
            alias = h.alias;
            inherits_from = h.inherits_from;
            default_value = h.default_value;
            qualified_default_value = h.qualified_default_value;
            short_description = h.short_description;
          }))

-- A column that may be missing.
abbrev IsBracelessColumn : Option Bytes → Type 0
IsBracelessColumn none = Unit
IsBracelessColumn (some s) = IsBraceless s

get_column :
    (args : List Bytes) (i : ℕ) → All IsBraceless args → IsBracelessColumn (get_elem? args i)
get_column [] i h = tt
get_column (a ∷ args) zero (ha, h) = ha
get_column (a ∷ args) (suc i) (ha, h) = get_column args i h

pub column-IsBraceless :
    (args : List Bytes) (i : ℕ) (old : Bytes)
    → All IsBraceless args
    → IsBraceless old
    → IsBraceless (column args i old)
column-IsBraceless args i old h ho = pick (get_elem? args i) (get_column args i h)
  where
    pick :
        (a : Option Bytes) → IsBracelessColumn a → IsBraceless (elim a [ none ↦ old | some a ↦ a ])
    pick none h = ho
    pick (some a) h = h

set_type-Ensures :
    (text : Option Bytes) (di : MemberVariable)
    → IsBracelessColumn text
    → IsBracelessMember di
    → Ensures IsBracelessMember (set_type text di)
unfolding set_type
set_type-Ensures none di ht h = h
set_type-Ensures (some text) di ht h =
    if-Ensures IsBracelessMember (leb 512 (length text) && not (has_char b'!' (take 512 text)))
      (fault _) _ tt
      record {
        member = h.member;
        type = before_char-IsBraceless b'!' text ht;
        map_type = h.map_type;
        alias = h.alias;
        inherits_from = h.inherits_from;
        default_value = h.default_value;
        qualified_default_value = h.qualified_default_value;
        short_description = h.short_description;
      }

set_inherits-IsBraceless :
    (text : Option Bytes) (di : MemberVariable)
    → IsBracelessColumn text
    → IsBracelessMember di
    → IsBracelessMember (set_inherits text di)
unfolding set_inherits
set_inherits-IsBraceless none di ht h = h
set_inherits-IsBraceless (some text) di ht h = pick (strip_prefix (codes "PROTO:") text)
  where
    pick :
        (proto : Option Bytes)
        → IsBracelessMember (elim proto [
          | none ↦ record di { inherits_from = text }
          | some proto ↦ record di { proto_type = proto }
        ])
    pick none = record {
      member = h.member;
      type = h.type;
      map_type = h.map_type;
      alias = h.alias;
      inherits_from = ht;
      default_value = h.default_value;
      qualified_default_value = h.qualified_default_value;
      short_description = h.short_description;
    }
    pick (some proto) = record {
      member = h.member;
      type = h.type;
      map_type = h.map_type;
      alias = h.alias;
      inherits_from = h.inherits_from;
      default_value = h.default_value;
      qualified_default_value = h.qualified_default_value;
      short_description = h.short_description;
    }

set_columns-IsBraceless :
    (args : List Bytes) (di : MemberVariable)
    → All IsBraceless args
    → IsBracelessMember di
    → IsBracelessMember (set_columns args di)
unfolding set_columns
set_columns-IsBraceless args di ha hi =
    let d = set_inherits (get_elem? args 1) di in
    let h = set_inherits-IsBraceless (get_elem? args 1) di (get_column args 1 ha) hi in
    record {
      member = h.member;
      type = h.type;
      map_type = h.map_type;
      alias = column-IsBraceless args 6 d.alias ha h.alias;
      inherits_from = h.inherits_from;
      default_value = column-IsBraceless args 3 d.default_value ha h.default_value;
      qualified_default_value = h.qualified_default_value;
      short_description = column-IsBraceless args 7 d.short_description ha h.short_description;
    }

init-IsBraceless : (v : MemberVariable) → IsBracelessMember v → IsBracelessMember (init v)
unfolding init truncate
init-IsBraceless v h = pick (is_empty v.default_value)
  where
    pick :
        (b : Bool)
        → IsBracelessMember (
            if b then v else record v {
              qualified_default_value = take 511 (v.type ++ (codes "::" ++ v.default_value));
            })
    pick true = h
    pick false = record {
      member = h.member;
      type = h.type;
      map_type = h.map_type;
      alias = h.alias;
      inherits_from = h.inherits_from;
      default_value = h.default_value;
      qualified_default_value = take-IsBraceless 511 (v.type ++ (codes "::" ++ v.default_value)) (
          All-append _ v.type (codes "::" ++ v.default_value) h.type (
            All-append _ (codes "::") v.default_value (braceless-IsBraceless (codes "::") refl)
              h.default_value));
      short_description = h.short_description;
    }

flags-IsBraceless :
    (v : MemberVariable) (array pointer : Bool)
    → IsBracelessMember v
    → IsBracelessMember (record v { is_array = array; is_pointer = pointer })
flags-IsBraceless v array pointer h = record {
  member = h.member;
  type = h.type;
  map_type = h.map_type;
  alias = h.alias;
  inherits_from = h.inherits_from;
  default_value = h.default_value;
  qualified_default_value = h.qualified_default_value;
  short_description = h.short_description;
}

pub parse_member-Ensures :
    (c : ℕ) (name : Bytes) (args : List Bytes)
    → IsBraceless (c ∷ name)
    → All IsBraceless args
    → Ensures IsBracelessMember (parse_member c name args)
unfolding parse_member
parse_member-Ensures c name args hn ha =
    let marked = strip_marks 510 required (cut_name c name) in
    let text =
      strip_marks-IsBraceless 510 required (cut_name c name) (cut_name-IsBraceless c name hn) in
    let new : IsBracelessMember (record new_member { is_optional = marked.1 }) = record {
      member = tt;
      type = tt;
      map_type = tt;
      alias = tt;
      inherits_from = tt;
      default_value = tt;
      qualified_default_value = tt;
      short_description = tt;
    } in
    let start = record new_member { is_optional = marked.1 } in
    bind-Ensures IsBracelessMember IsBracelessMember (split_map start marked.0) _
      (split_map-Ensures start marked.0 new text)
      λ named h.
        let array = has_char b'[' name in
        let pointer = has_char b'*' (c ∷ name) in
        let next = record named { is_array = array; is_pointer = pointer } in
        bind-Ensures IsBracelessMember IsBracelessMember (set_type (get_elem? args 0) next) _
          (set_type-Ensures (get_elem? args 0) next (get_column args 0 ha)
            (flags-IsBraceless named array pointer h))
          λ typed k.
            init-IsBraceless (set_columns args typed) (set_columns-IsBraceless args typed ha k)
