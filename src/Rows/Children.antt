-- ===== src/Rows/Children.antt =====
-- The children that `processArgs` of src/CreateDOM.cpp records: every object lists the names of the
-- later objects that name it as their base.
use schema_code_gen.Base.{
  ◌≡◌, ◌≢◌, refl, sym, ap, ◌∙◌, false, List, [], ◌∷◌, ◌++◌, map, arith, Bytes, text_eq,
  if◌then◌else◌, append-nil, Bool-cases, inl, inr,
}
use schema_code_gen.Dom.Bases.{KeepsLinks}
use schema_code_gen.Dom.{Object}
use schema_code_gen.Rows.{adopt}

-- The names of the objects of `os` that name `n` as their base.
abbrev pub heirs : Bytes → List Object → List Bytes
heirs n [] = []
heirs n (o ∷ os) = if text_eq n o.inherits_from then o.name ∷ heirs n os else heirs n os

-- Every object has a name, and its children are its heirs among the objects behind it.
abbrev pub Linked : List Object → Type 0
Linked [] = Unit
Linked (o ∷ os) = (o.name ≢ []) × (o.children ≡ heirs o.name os) × Linked os

pub heirs-map :
    (f : Object → Object)
    → KeepsLinks f
    → (n : Bytes) (os : List Object) → heirs n (map f os) ≡ heirs n os
heirs-map f k n [] = refl
heirs-map f k n (o ∷ os) = rw (k.name_kept o, k.base_kept o, heirs-map f k n os)

pub heirs-append :
    (n : Bytes) (os : List Object) (o : Object)
    → heirs n (os ++ o ∷ []) ≡ heirs n os ++ (if text_eq n o.inherits_from then o.name ∷ [] else [])
heirs-append n [] o = refl
heirs-append n (j ∷ os) o = elim (Bool-cases (text_eq n j.inherits_from)) [
  | inl e ↦ rw (e, heirs-append n os o)
  | inr e ↦ rw (e, heirs-append n os o)
]

adopt-KeepsLinks : (base name : Bytes) → KeepsLinks (adopt base name)
adopt-KeepsLinks base name = record { name_kept = λ o. ground arith; base_kept = λ o. ground arith }

adopt_children :
    (base name : Bytes) (j : Object)
    → (adopt base name j).children ≡ j.children ++ (if text_eq j.name base then name ∷ [] else [])
adopt_children base name j = elim (Bool-cases (text_eq j.name base)) [
  | inl e ↦ rw e
  | inr e ↦ rw (e, append-nil)
]

heirs-adopt :
    (n base name : Bytes) (os : List Object) (o : Object)
    → o.name ≡ name
    → o.inherits_from ≡ base
    → heirs n (map (adopt base name) os ++ o ∷ [])
      ≡ heirs n os ++ (if text_eq n base then name ∷ [] else [])
heirs-adopt n base name os o e b =
    heirs-append n (map (adopt base name) os) o
    ∙ rw (heirs-map (adopt base name) (adopt-KeepsLinks base name) n os, e, b)

-- A new object behind the others, when the others have adopted it.
pub Linked-adopt :
    (base name : Bytes) (os : List Object) (o : Object)
    → Linked os
    → name ≢ []
    → o.name ≡ name
    → o.inherits_from ≡ base
    → o.children ≡ []
    → Linked (map (adopt base name) os ++ o ∷ [])
Linked-adopt base name [] o l n e b c = (rw e n, c, tt)
Linked-adopt base name (j ∷ os) o (jn, jc, l) n e b c =
    let kept = (adopt-KeepsLinks base name).name_kept j in
    (
      rw kept jn,
      adopt_children base name j
          ∙ ap (λ cs. cs ++ (if text_eq j.name base then name ∷ [] else [])) jc
          ∙ sym (heirs-adopt j.name base name os o e b)
          ∙ ap (λ n. heirs n (map (adopt base name) os ++ o ∷ [])) (sym kept),
      Linked-adopt base name os o l n e b c,
    )

not_heir : (n : Bytes) → n ≢ [] → text_eq n [] ≡ false
unfolding text_eq
not_heir [] h = absurd (h refl)
not_heir (c ∷ n) h = refl

-- A new object that names no base.
pub Linked-append :
    (os : List Object) (o : Object)
    → Linked os
    → o.name ≢ []
    → o.inherits_from ≡ []
    → o.children ≡ []
    → Linked (os ++ o ∷ [])
Linked-append [] o l n b c = (n, c, tt)
Linked-append (j ∷ os) o (jn, jc, l) n b c = (
  jn,
  jc ∙ sym (heirs-append j.name os o ∙ rw (b, not_heir j.name jn, append-nil)),
  Linked-append os o l n b c,
)

-- A change of the objects that leaves names, bases and children alone.
pub Linked-map :
    (f : Object → Object)
    → KeepsLinks f
    → ((o : Object) → (f o).children ≡ o.children)
    → (os : List Object) → Linked os
    → Linked (map f os)
Linked-map f k c [] l = l
Linked-map f k c (o ∷ os) (n, e, l) = (
  rw (k.name_kept o) n,
  c o ∙ e ∙ sym (heirs-map f k o.name os) ∙ ap (λ n. heirs n (map f os)) (sym (k.name_kept o)),
  Linked-map f k c os l,
)
