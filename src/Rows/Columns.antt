-- ===== src/Rows/Columns.antt =====
-- The columns of an object's row without braces, in src/CreateDOM.cpp's `processArgs`.
use schema_code_gen.Base.{
  Bool, true, false, List, [], ◌∷◌, ◌++◌, Option, none, some, Bytes, codes, All, get_elem?, text_eq,
  if◌then◌else◌,
}
use schema_code_gen.CString.{stricmp_eq}
use schema_code_gen.Dom.{Object, new_object}
use schema_code_gen.Emit.Depth.{IsBraceless}
use schema_code_gen.Rows.Braceless.{column-IsBraceless}
use schema_code_gen.Rows.{adopt, adopt_all, set_flags, object_columns}
use schema_code_gen.Save.Braceless.{IsBracelessObject}

pub new_object-IsBraceless : IsBracelessObject new_object
new_object-IsBraceless = record {
  name = tt;
  inherits_from = tt;
  alias = tt;
  short_description = tt;
  long_description = tt;
  items = tt;
}

adopt-IsBraceless :
    (base name : Bytes) (j : Object) → IsBracelessObject j → IsBracelessObject (adopt base name j)
adopt-IsBraceless base name j h = pick (text_eq j.name base)
  where
    pick :
        (b : Bool)
        → IsBracelessObject (if b then record j { children = j.children ++ name ∷ [] } else j)
    pick true = record {
      name = h.name;
      inherits_from = h.inherits_from;
      alias = h.alias;
      short_description = h.short_description;
      long_description = h.long_description;
      items = h.items;
    }
    pick false = h

pub adopt_all-IsBraceless :
    (base : Option Bytes) (name : Bytes) (os : List Object)
    → All IsBracelessObject os
    → All IsBracelessObject (adopt_all base name os)
adopt_all-IsBraceless none name os h = h
adopt_all-IsBraceless (some base) name [] h = tt
adopt_all-IsBraceless (some base) name (o ∷ os) (ho, h) =
    (adopt-IsBraceless base name o ho, adopt_all-IsBraceless (some base) name os h)

set_flags-IsBraceless :
    (flag : Option Bytes) (o : Object) → IsBracelessObject o → IsBracelessObject (set_flags flag o)
set_flags-IsBraceless none o h = h
set_flags-IsBraceless (some a) o h =
    pick (stricmp_eq a (codes "CLONE")) (stricmp_eq a (codes "ASSIGNMENT"))
  where
    pick :
        (b c : Bool)
        → IsBracelessObject (
            if b
            then record o { clone = true }
            else if c
            then record o { assignment = true }
            else o)
    pick true c = record {
      name = h.name;
      inherits_from = h.inherits_from;
      alias = h.alias;
      short_description = h.short_description;
      long_description = h.long_description;
      items = h.items;
    }
    pick false true = record {
      name = h.name;
      inherits_from = h.inherits_from;
      alias = h.alias;
      short_description = h.short_description;
      long_description = h.long_description;
      items = h.items;
    }
    pick false false = h

pub object_columns-IsBraceless :
    (name : Bytes) (args : List Bytes) (o : Object)
    → IsBraceless name
    → All IsBraceless args
    → IsBracelessObject o
    → IsBracelessObject (object_columns name args o)
object_columns-IsBraceless name args o hn ha h = set_flags-IsBraceless (get_elem? args 4) _ record {
  name = hn;
  inherits_from = column-IsBraceless args 2 o.inherits_from ha h.inherits_from;
  alias = column-IsBraceless args 7 o.alias ha h.alias;
  short_description = column-IsBraceless args 8 o.short_description ha h.short_description;
  long_description = column-IsBraceless args 9 o.long_description ha h.long_description;
  items = h.items;
}
