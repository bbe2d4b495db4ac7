-- ===== src/Dom/Bases.antt =====
-- The second bases that `importComplete` of src/CreateDOM.cpp sets, in place, one object after the
-- other.
use schema_code_gen.Base.{
  ◌≡◌, refl, sym, ap, ap₂, ◌∙◌, Bool, true, false, not, ◌&&◌, ◌++◌, List, [], ◌∷◌, map, Option,
  none, some, Bytes, text_eq, if◌then◌else◌, append_assoc, append-nil,
}
use schema_code_gen.Dom.Complete.{multiple_from, compute_multiple, multiple_loop}
use schema_code_gen.Dom.{Object, is_empty}

-- The base of `j`, if `j` is named `parent` and has one.
abbrev pub own_base : Bytes → Object → Option Bytes
own_base parent j =
    if text_eq parent j.name && not (is_empty j.inherits_from) then some j.inherits_from else none

abbrev pub later : Option Bytes → Option Bytes → Option Bytes
later (some b) old = some b
later none old = old

-- The base of the last object named `parent` that has one.
abbrev pub second_base : Bytes → List Object → Option Bytes
second_base parent [] = none
second_base parent (j ∷ js) = later (second_base parent js) (own_base parent j)

abbrev pub or_old : Option Bytes → Bytes → Bytes
or_old none old = old
or_old (some b) old = b

-- `f` keeps what the links between objects are about.
pub record KeepsLinks (f : Object → Object) : Type 0 where
  pub name_kept : (o : Object) → (f o).name ≡ o.name
  pub base_kept : (o : Object) → (f o).inherits_from ≡ o.inherits_from

or_old-later : (a b : Option Bytes) (m : Bytes) → or_old (later a b) m ≡ or_old a (or_old b m)
or_old-later none b m = refl
or_old-later (some a) b m = refl

later-none : (a : Option Bytes) → later a none ≡ a
later-none none = refl
later-none (some b) = refl

later_assoc : (a b c : Option Bytes) → later (later a b) c ≡ later a (later b c)
later_assoc none b c = refl
later_assoc (some a) b c = refl

own_base-or_old :
    (named nameless : Bool) (base m : Bytes)
    → or_old (if named && not nameless then some base else none) m
      ≡ (if named then (if nameless then m else base) else m)
own_base-or_old true true base m = refl
own_base-or_old true false base m = refl
own_base-or_old false nameless base m = refl

multiple_from-second_base :
    (parent : Bytes) (os : List Object) (m : Bytes)
    → multiple_from parent os m ≡ or_old (second_base parent os) m
unfolding multiple_from
multiple_from-second_base parent [] m = refl
multiple_from-second_base parent (j ∷ js) m =
    multiple_from-second_base parent js _
    ∙ ap (or_old (second_base parent js))
        (sym (own_base-or_old (text_eq parent j.name) (is_empty j.inherits_from) j.inherits_from m))
    ∙ sym (or_old-later (second_base parent js) (own_base parent j) m)

second_base-append :
    (parent : Bytes) (os js : List Object)
    → second_base parent (os ++ js) ≡ later (second_base parent js) (second_base parent os)
second_base-append parent [] js = sym (later-none (second_base parent js))
second_base-append parent (o ∷ os) js =
    ap (λ b. later b (own_base parent o)) (second_base-append parent os js)
    ∙ later_assoc (second_base parent js) (second_base parent os) (own_base parent o)

own_base-kept :
    (f : Object → Object)
    → KeepsLinks f
    → (parent : Bytes) (o : Object) → own_base parent (f o) ≡ own_base parent o
own_base-kept f k parent o = rw (k.name_kept o, k.base_kept o) refl

pub second_base-map :
    (f : Object → Object)
    → KeepsLinks f
    → (parent : Bytes) (os : List Object) → second_base parent (map f os) ≡ second_base parent os
second_base-map f k parent [] = refl
second_base-map f k parent (o ∷ os) =
    ap₂ later (second_base-map f k parent os) (own_base-kept f k parent o)

compute_multiple-KeepsLinks : (all : List Object) → KeepsLinks (compute_multiple all)
compute_multiple-KeepsLinks all = record {
  name_kept = λ o. keep (λ x. x.name) o refl (is_empty o.inherits_from);
  base_kept = λ o. keep (λ x. x.inherits_from) o refl (is_empty o.inherits_from);
}
  where
    keep :
        (field : Object → Bytes) (o : Object) {m : Bytes}
        → field (record o { multiple_inheritance = m }) ≡ field o
        → (b : Bool) → field (if b then o else record o { multiple_inheritance = m }) ≡ field o
    keep field o e true = refl
    keep field o e false = e

-- One round leaves every second base as it was.
second_base-round :
    (parent : Bytes) (done rest : List Object) (i : Object)
    → second_base parent ((done ++ compute_multiple (done ++ i ∷ rest) i ∷ []) ++ rest)
      ≡ second_base parent (done ++ i ∷ rest)
second_base-round parent done rest i =
    let all = done ++ i ∷ rest in
    let kept = own_base-kept (compute_multiple all) (compute_multiple-KeepsLinks all) parent i in
    ap (second_base parent) (append_assoc done (compute_multiple all i ∷ []) rest)
    ∙ second_base-append parent done (compute_multiple all i ∷ rest)
    ∙ ap (λ b. later (later (second_base parent rest) b) (second_base parent done)) kept
    ∙ sym (second_base-append parent done (i ∷ rest))

-- What the loop does to one object.
abbrev pub with_second_base : List Object → Object → Object
with_second_base all i = if is_empty i.inherits_from then i else record i {
  multiple_inheritance = or_old (second_base i.inherits_from all) i.multiple_inheritance;
}

compute_multiple-with_second_base :
    (all seen : List Object) (i : Object)
    → ((parent : Bytes) → second_base parent seen ≡ second_base parent all)
    → compute_multiple seen i ≡ with_second_base all i
compute_multiple-with_second_base all seen i h =
    ap (λ m. if is_empty i.inherits_from then i else record i { multiple_inheritance = m })
      (multiple_from-second_base i.inherits_from seen i.multiple_inheritance
        ∙ ap (λ b. or_old b i.multiple_inheritance) (h i.inherits_from))

-- The rounds see the objects `all` as far as bases go, whichever of them are done.
pub multiple_loop-with_second_base :
    (all done rest : List Object)
    → ((parent : Bytes) → second_base parent (done ++ rest) ≡ second_base parent all)
    → multiple_loop done rest ≡ done ++ map (with_second_base all) rest
unfolding multiple_loop
multiple_loop-with_second_base all done [] h = sym (append-nil done)
multiple_loop-with_second_base all done (i ∷ rest) h =
    let this = compute_multiple (done ++ i ∷ rest) i in
    multiple_loop-with_second_base all (done ++ this ∷ []) rest
      (λ parent. second_base-round parent done rest i ∙ h parent)
    ∙ append_assoc done (this ∷ []) (map (with_second_base all) rest)
    ∙ ap (λ o. done ++ o ∷ map (with_second_base all) rest)
        (compute_multiple-with_second_base all (done ++ i ∷ rest) i h)
