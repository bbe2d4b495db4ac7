-- ===== src/Tests/Generated.antt =====
-- The theorems about generated code at concrete schemas.
use schema_code_gen.Base.{
  ◌≡◌, refl, Bool, true, false, ◌&&◌, List, [], ◌∷◌, Bytes, codes, All, length, ltb, arith, text_eq,
}
use schema_code_gen.Dom.{MemberVariable, new_member, Object, new_object, Dom, new_dom, optional}
use schema_code_gen.Emit.Printed.{Fits}
use schema_code_gen.Outcome.{Outcome, ok, fault}
use schema_code_gen.Printer.Lines.{Line}
use schema_code_gen.Save.Braceless.{
  braceless, braceless-IsBraceless, IsBracelessMember, IsBracelessObject,
}
use schema_code_gen.Save.Files.Nested.{IsBracelessDom}
use schema_code_gen.Save.Files.Printed.{FitsSources, WritesNestedFiles, saved_files_nested}
use schema_code_gen.Save.Files.{Sources, save_sources, print_sources}
use schema_code_gen.Save.Faults.{is_ok}
use schema_code_gen.Save.Faults.Whole.{save_sources-is_ok}
use schema_code_gen.CString.{stricmp_eq}
use schema_code_gen.TypeNames.{get_standard_type, get_cpp_type_string, is_standard_type}
use schema_code_gen.Save.Slots.{enum_of}
use schema_code_gen.Emit.{expand_from}
use schema_code_gen.Save.Serialize.{serialize_standard, serialize_array, serialize_string}
use schema_code_gen.Save.Deserialize.Standard.{deserialize_standard}
use schema_code_gen.Save.Deserialize.Named.{deserialize_array}
use schema_code_gen.Values.Plain.{IsPlain}
use schema_code_gen.Values.{FloatStream}

-- Floats that all print the same.
abbrev pub points : FloatStream
points = record {
  Float = Unit {0};
  Double = Unit {0};
  zero_float = tt;
  one_float = tt;
  flt_max = tt;
  flt_min = tt;
  strtof = λ s. tt;
  zero_double = tt;
  widen = λ x. tt;
  strtod = λ s. tt;
  scan_floats = λ n s. [];
  print_float = λ x. codes "0.00000";
  print_double = λ x. codes "0.00000";
}

pub points-IsPlain : IsPlain points
points-IsPlain = record {
  float = λ x. braceless-IsBraceless (codes "0.00000") refl;
  double = λ x. braceless-IsBraceless (codes "0.00000") refl;
}

abbrev member_texts : MemberVariable → List Bytes
member_texts i =
    i.member ∷ i.type ∷ i.map_type ∷ i.alias ∷ i.inherits_from ∷ i.default_value
    ∷ i.qualified_default_value ∷ i.short_description ∷ []

abbrev object_texts : Object → List Bytes
object_texts o = o.name ∷ o.inherits_from ∷ o.alias ∷ o.short_description ∷ o.long_description ∷ []

abbrev braceless_all : List Bytes → Bool
braceless_all [] = true
braceless_all (s ∷ ss) = braceless s && braceless_all ss

-- The tests of texts that are written out.
abbrev Plain : List Bytes → Type 0
Plain ss = All (λ s. braceless s ≡ true) ss

braceless_all-Plain : (ss : List Bytes) → braceless_all ss ≡ true → Plain ss
braceless_all-Plain [] h = tt
braceless_all-Plain (s ∷ ss) h = (ground arith, braceless_all-Plain ss (ground arith))

member_parts : (i : MemberVariable) → Plain (member_texts i) → IsBracelessMember i
member_parts i (h0, (h1, (h2, (h3, (h4, (h5, (h6, (h7, _)))))))) = record {
  member = braceless-IsBraceless i.member h0;
  type = braceless-IsBraceless i.type h1;
  map_type = braceless-IsBraceless i.map_type h2;
  alias = braceless-IsBraceless i.alias h3;
  inherits_from = braceless-IsBraceless i.inherits_from h4;
  default_value = braceless-IsBraceless i.default_value h5;
  qualified_default_value = braceless-IsBraceless i.qualified_default_value h6;
  short_description = braceless-IsBraceless i.short_description h7;
}

member-plain : (i : MemberVariable) → braceless_all (member_texts i) ≡ true → IsBracelessMember i
member-plain i h = member_parts i (braceless_all-Plain (member_texts i) h)

object_parts :
    (o : Object) → Plain (object_texts o) → All IsBracelessMember o.items → IsBracelessObject o
object_parts o (h0, (h1, (h2, (h3, (h4, _))))) items = record {
  name = braceless-IsBraceless o.name h0;
  inherits_from = braceless-IsBraceless o.inherits_from h1;
  alias = braceless-IsBraceless o.alias h2;
  short_description = braceless-IsBraceless o.short_description h3;
  long_description = braceless-IsBraceless o.long_description h4;
  items = items;
}

object-plain :
    (o : Object)
    → braceless_all (object_texts o) ≡ true
    → All IsBracelessMember o.items
    → IsBracelessObject o
object-plain o h items = object_parts o (braceless_all-Plain (object_texts o) h) items

abbrev value : Bytes → MemberVariable
value name = record new_member { member = name; short_description = codes "a value" }

abbrev shape : Object
shape = record new_object {
  name = codes "Shape";
  type = codes "Enum";
  is_enum = true;
  items = value (codes "box") ∷ value (codes "ball") ∷ [];
}

abbrev count : MemberVariable
count = record new_member { member = codes "count"; type = codes "u32"; default_value = codes "3" }

abbrev sides : MemberVariable
sides = record new_member { member = codes "sides"; type = codes "Shape"; is_array = true }

abbrev title : MemberVariable
title = record new_member { member = codes "title"; type = codes "string"; is_optional = optional }

abbrev box : Object
box = record new_object {
  name = codes "Box";
  type = codes "Class";
  is_class = true;
  assignment = true;
  items = count ∷ sides ∷ title ∷ [];
}

abbrev shop : Dom
shop = record new_dom {
  namespace = codes "shop";
  filename = codes "Shop";
  objects = shape ∷ box ∷ [];
}

shape-plain : IsBracelessObject shape
shape-plain =
    object-plain shape refl
      (member-plain (value (codes "box")) refl, (member-plain (value (codes "ball")) refl, tt))

box-plain : IsBracelessObject box
box-plain =
    object-plain box refl
      (member-plain count refl, (member-plain sides refl, (member-plain title refl, tt)))

shop-plain : IsBracelessDom shop
shop-plain = record {
  namespace = braceless-IsBraceless (codes "shop") refl;
  filename = braceless-IsBraceless (codes "Shop") refl;
  url = tt;
  objects = (shape-plain, (box-plain, tt));
}

abbrev pub or_none : Outcome Sources → Sources
or_none (ok s) = s
or_none (fault e) = record { header = []; source = []; script = [] }

abbrev shop_sources : Sources
shop_sources = or_none (save_sources points shop)

shop_sources_ok : save_sources points shop ≡ ok shop_sources
unfolding save_sources text_eq is_standard_type enum_of
shop_sources_ok = refl

abbrev pub fits : List Line → Bool
fits [] = true
fits (l ∷ ls) = ltb (length l.text) 4096 && fits ls

pub fits-Fits : (ls : List Line) → fits ls ≡ true → Fits ls
fits-Fits [] h = tt
fits-Fits (l ∷ ls) h = (ground arith, fits-Fits ls (ground arith))

shop_sources_fit : FitsSources shop_sources
unfolding save_sources text_eq is_standard_type enum_of expand_from serialize_standard
    serialize_array serialize_string deserialize_standard deserialize_array
shop_sources_fit = record {
  header = fits-Fits shop_sources.header refl;
  source = fits-Fits shop_sources.source refl;
  script = fits-Fits shop_sources.script refl;
}

saved_files_nested_example : WritesNestedFiles (print_sources (codes "out") true shop shop_sources)
saved_files_nested_example =
    saved_files_nested points shop (codes "out") true shop_sources points-IsPlain shop-plain
      shop_sources_ok shop_sources_fit

save_sources-is_ok_example : is_ok (save_sources points shop) ≡ true
unfolding text_eq is_standard_type get_standard_type get_cpp_type_string stricmp_eq
save_sources-is_ok_example = save_sources-is_ok points shop

-- A member of a type that no object has.
abbrev lost : Object
lost = record new_object {
  name = codes "Lost";
  items = title ∷ record title { type = codes "Gone" } ∷ [];
}

lost_is_refused : is_ok (save_sources points (record shop { objects = lost ∷ [] })) ≡ false
unfolding text_eq is_standard_type get_standard_type get_cpp_type_string stricmp_eq
lost_is_refused = save_sources-is_ok points (record shop { objects = lost ∷ [] })
