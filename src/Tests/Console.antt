-- ===== src/Tests/Console.antt =====
-- The theorems about the console program at a concrete file.
use schema_code_gen.Base.{
  ◌≡◌, refl, true, false, ◌++◌, [], ◌∷◌, Option, some, Bytes, codes, text_eq,
}
use schema_code_gen.Console.Nested.{main_nested}
use schema_code_gen.Console.{files, main}
use schema_code_gen.Csv.{parse_csv, round_at, skip_linefeeds, scan_row, scan_field}
use schema_code_gen.CString.{stricmp_eq}
use schema_code_gen.Rows.Member.{parse_member}
use schema_code_gen.Dom.Complete.{import_complete}
use schema_code_gen.Save.Slots.{enum_of}
use schema_code_gen.Emit.{expand_from}
use schema_code_gen.Save.Serialize.{serialize_standard, serialize_enum}
use schema_code_gen.Save.Deserialize.Standard.{deserialize_standard}
use schema_code_gen.Save.Deserialize.Named.{deserialize_enum}
use schema_code_gen.TypeNames.{is_standard_type}
use schema_code_gen.Dom.{
  Object, new_object, new_dom, new_member, optional, init, member_needs_reflection,
  wants_reflection,
}
use schema_code_gen.Outcome.{ok}
use schema_code_gen.Rows.{Importer, create, process_args}
use schema_code_gen.Save.Braceless.{braceless-IsBraceless}
use schema_code_gen.Save.Files.Printed.{FitsSources, WritesNestedFiles}
use schema_code_gen.Save.Files.{Sources, save_sources, print_sources}
use schema_code_gen.Tests.Generated.{points, points-IsPlain, or_none, fits-Fits}

abbrev shop_csv : Bytes
shop_csv =
    codes "Namespace,shop\n"
    ++ codes "Filename,Shop\n"
    ++ codes "Shape,,Enum\n"
    ++ codes ",box\n"
    ++ codes "Box,,Class\n"
    ++ codes ",count,u32\n"
    ++ codes ",shape?,Shape\n"

-- The only file on disk.
abbrev disk : Bytes → Option Bytes
disk name = some shop_csv

abbrev shape : Object
shape = record new_object {
  name = codes "Shape";
  type = codes "Enum";
  is_enum = true;
  items = record new_member { member = codes "box" } ∷ [];
}

abbrev box : Object
box = record new_object {
  name = codes "Box";
  type = codes "Class";
  is_class = true;
  items =
      record new_member { member = codes "count"; type = codes "u32" }
      ∷ record new_member { member = codes "shape"; type = codes "Shape"; is_optional = optional }
      ∷ [];
}

abbrev shop_model : Importer
shop_model = record (create (codes "out")) {
  dom = record new_dom {
    namespace = codes "shop";
    filename = codes "Shop";
    objects = shape ∷ box ∷ [];
    object_map = (codes "Shape", 0) ∷ (codes "Box", 1) ∷ [];
  };
}

shop_imported : parse_csv (create (codes "out")) (some shop_csv) ≡ some (ok shop_model)
unfolding parse_csv round_at skip_linefeeds scan_row scan_field process_args stricmp_eq text_eq
    parse_member import_complete member_needs_reflection init wants_reflection
shop_imported = refl

abbrev model_sources : Sources
model_sources = or_none (save_sources points shop_model.dom)

model_sources_ok : save_sources points shop_model.dom ≡ ok model_sources
unfolding save_sources text_eq is_standard_type enum_of
model_sources_ok = refl

model_sources_fit : FitsSources model_sources
unfolding save_sources text_eq is_standard_type enum_of expand_from serialize_standard
    serialize_enum deserialize_standard deserialize_enum
model_sources_fit = record {
  header = fits-Fits model_sources.header refl;
  source = fits-Fits model_sources.source refl;
  script = fits-Fits model_sources.script refl;
}

main_nested_example :
    (main points disk (codes "gen" ∷ codes "shop.csv" ∷ codes "out" ∷ [])
      ≡ some (ok (files (print_sources shop_model.dest_dir false shop_model.dom model_sources))))
    × WritesNestedFiles (print_sources shop_model.dest_dir false shop_model.dom model_sources)
main_nested_example =
    main_nested points disk (codes "gen") (codes "shop.csv") (codes "out") shop_model model_sources
      points-IsPlain (braceless-IsBraceless shop_csv refl) shop_imported refl refl refl
      model_sources_ok model_sources_fit
