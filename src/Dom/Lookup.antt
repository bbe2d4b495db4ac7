-- ===== src/Dom/Lookup.antt =====
-- The map of `importComplete` in src/CreateDOM.cpp, and what `findObject` finds in it.
use schema_code_gen.Base.{
  ℕ, ◌+◌, ◌≡◌, refl, ap, ◌∙◌, Bool, true, false, ◌++◌, List, [], ◌∷◌, map, Option, none, some,
  Bytes, arith, text_eq, text_eq_iff, get_elem?, length, length-append, if◌then◌else◌, append_assoc,
}
use schema_code_gen.Dom.Complete.{assign, lookup, index_objects, import_complete, find_object}
use schema_code_gen.Dom.Spec.{completed, import_complete-objects}
use schema_code_gen.Dom.{Object, Dom}

-- The last object of `os` with the name `n`, and `found` if there is none.
abbrev pub last_named : Bytes → List Object → Option Object → Option Object
last_named n [] found = found
last_named n (o ∷ os) found = last_named n os (if text_eq o.name n then some o else found)

lookup-assign :
    (k j : Bytes) (i : ℕ) (m : List (Bytes × ℕ))
    → lookup k (assign j i m) ≡ (if text_eq j k then some i else lookup k m)
unfolding lookup assign
lookup-assign k j i [] = refl
lookup-assign k j i ((a, n) ∷ m) =
    ground (arith, text_eq_iff a j, text_eq_iff a k, text_eq_iff j k, lookup-assign k j i m)

abbrev at : List Object → Option ℕ → Option Object
at os none = none
at os (some i) = get_elem? os i

get_elem?-append :
    (pre os : List Object) (o : Object) → get_elem? (pre ++ o ∷ os) (length pre) ≡ some o
get_elem?-append [] os o = refl
get_elem?-append (p ∷ pre) os o = get_elem?-append pre os o

at-if :
    (b : Bool) (pre os : List Object) (o : Object) (i : Option ℕ)
    → at (pre ++ o ∷ os) (if b then some (length pre) else i)
      ≡ (if b then some o else at (pre ++ o ∷ os) i)
at-if true pre os o i = get_elem?-append pre os o
at-if false pre os o i = refl

-- The loop over the objects `os`, behind the objects `pre` whose map is `m`.
lookup-index_objects :
    (k : Bytes) (pre os : List Object) (m : List (Bytes × ℕ))
    → at (pre ++ os) (lookup k (index_objects (length pre) os m))
      ≡ last_named k os (at (pre ++ os) (lookup k m))
unfolding index_objects
lookup-index_objects k pre [] m = refl
lookup-index_objects k pre (o ∷ os) m =
    let m' = assign o.name (length pre) m in
    let longer : length (pre ++ o ∷ []) ≡ length pre + 1 = length-append pre (o ∷ []) in
    let ih = lookup-index_objects k (pre ++ o ∷ []) os m' in
    let moved = rw (append_assoc, longer) at ih in
    moved
    ∙ ap (λ i. last_named k os (at (pre ++ o ∷ os) i)) (lookup-assign k o.name (length pre) m)
    ∙ ap (last_named k os) (at-if (text_eq o.name k) pre os o (lookup k m))

find_object-at : (d : Dom) (n : Bytes) → find_object d n ≡ at d.objects (lookup n d.object_map)
unfolding find_object
find_object-at d n = ground arith

-- After the import a name finds the last object that has it, as completed, and nothing if no object
-- has it. (The map is empty before.)
pub find_object-import_complete :
    (d : Dom) (n : Bytes)
    → d.object_map ≡ []
    → find_object (import_complete d) n ≡ last_named n (map (completed d.objects) d.objects) none
unfolding import_complete lookup
find_object-import_complete d n e =
    find_object-at (import_complete d) n
    ∙ rw e (lookup-index_objects n [] (import_complete d).objects [])
    ∙ ap (λ os. last_named n os none) (import_complete-objects d)
