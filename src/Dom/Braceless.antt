-- ===== src/Dom/Braceless.antt =====
-- `importComplete` of src/CreateDOM.cpp leaves a schema without braces as it is.
use schema_code_gen.Base.{
  Bool, true, false, List, [], ◌∷◌, map, ◌++◌, Bytes, All, All-append, if◌then◌else◌,
}
use schema_code_gen.Dom.Complete.{
  compute_needs_reflection, compute_reflection_members, reflection_names, compute_multiple,
  multiple_loop, compute_kind, import_complete,
}
use schema_code_gen.Dom.{MemberVariable, Object, Dom, member_needs_reflection, is_empty}
use schema_code_gen.Save.Braceless.{IsBracelessMember, IsBracelessObject}
use schema_code_gen.Save.Files.Nested.{IsBracelessDom}

All-map {ℓ κ} :
    {A : Type ℓ} (P : A → Type κ) (f : A → A)
    → ((x : A) → P x → P (f x))
    → (xs : List A) → All P xs
    → All P (map f xs)
All-map P f k [] h = tt
All-map P f k (x ∷ xs) (hx, h) = (k x hx, All-map P f k xs h)

reflection_names-IsBraceless :
    (os : List Object) (names : List Bytes)
    → All IsBracelessObject os
    → All IsBracelessObject (reflection_names os names).0
unfolding reflection_names
reflection_names-IsBraceless [] names h = tt
reflection_names-IsBraceless (o ∷ os) names (ho, h) = (
  record {
    name = ho.name;
    inherits_from = ho.inherits_from;
    alias = ho.alias;
    short_description = ho.short_description;
    long_description = ho.long_description;
    items = ho.items;
  },
  reflection_names-IsBraceless os (compute_needs_reflection o names).1 h,
)

item-IsBraceless :
    (names : List Bytes) (v : MemberVariable)
    → IsBracelessMember v
    → IsBracelessMember (member_needs_reflection names v)
unfolding member_needs_reflection
item-IsBraceless names v h = record {
  member = h.member;
  type = h.type;
  map_type = h.map_type;
  alias = h.alias;
  inherits_from = h.inherits_from;
  default_value = h.default_value;
  qualified_default_value = h.qualified_default_value;
  short_description = h.short_description;
}

members-IsBraceless :
    (names : List Bytes) (o : Object)
    → IsBracelessObject o
    → IsBracelessObject (compute_reflection_members names o)
members-IsBraceless names o h = record {
  name = h.name;
  inherits_from = h.inherits_from;
  alias = h.alias;
  short_description = h.short_description;
  long_description = h.long_description;
  items =
      All-map IsBracelessMember (member_needs_reflection names) (item-IsBraceless names) o.items
        h.items;
}

multiple-IsBraceless :
    (all : List Object) (o : Object)
    → IsBracelessObject o
    → IsBracelessObject (compute_multiple all o)
multiple-IsBraceless all o h = pick (is_empty o.inherits_from) _
  where
    pick :
        (b : Bool) (text : Bytes)
        → IsBracelessObject (if b then o else record o { multiple_inheritance = text })
    pick true text = h
    pick false text = record {
      name = h.name;
      inherits_from = h.inherits_from;
      alias = h.alias;
      short_description = h.short_description;
      long_description = h.long_description;
      items = h.items;
    }

multiple_loop-IsBraceless :
    (done rest : List Object)
    → All IsBracelessObject done
    → All IsBracelessObject rest
    → All IsBracelessObject (multiple_loop done rest)
unfolding multiple_loop
multiple_loop-IsBraceless done [] hd h = hd
multiple_loop-IsBraceless done (i ∷ rest) hd (hi, h) =
    let this = compute_multiple (done ++ i ∷ rest) i in
    multiple_loop-IsBraceless (done ++ this ∷ []) rest
      (All-append IsBracelessObject done (this ∷ []) hd
        (multiple-IsBraceless (done ++ i ∷ rest) i hi, tt))
      h

kind-IsBraceless : (o : Object) → IsBracelessObject o → IsBracelessObject (compute_kind o)
kind-IsBraceless o h = record {
  name = h.name;
  inherits_from = h.inherits_from;
  alias = h.alias;
  short_description = h.short_description;
  long_description = h.long_description;
  items = h.items;
}

pub import_complete-IsBracelessDom :
    (d : Dom) → IsBracelessDom d → IsBracelessDom (import_complete d)
unfolding import_complete
import_complete-IsBracelessDom d h =
    let first = reflection_names d.objects [] in
    let members = map (compute_reflection_members first.1) first.0 in
    let inherited = multiple_loop [] members in
    record {
      namespace = h.namespace;
      filename = h.filename;
      url = h.url;
      objects = All-map IsBracelessObject compute_kind kind-IsBraceless inherited (
          multiple_loop-IsBraceless [] members tt (
            All-map IsBracelessObject (compute_reflection_members first.1)
              (members-IsBraceless first.1) first.0
              (reflection_names-IsBraceless d.objects [] h.objects)));
    }
