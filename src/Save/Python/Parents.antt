-- ===== src/Save/Python/Parents.antt =====
-- The loop over the base classes in `Object::savePython` of src/CreateDOM.cpp.
use schema_code_gen.Base.{
  ℕ, zero, suc, ◌<◌, ◌≡◌, ◌≢◌, refl, ap₂, ◌∙◌, Bool, true, false, List, ◌∷◌, Option, none, some,
  arith,
}
use schema_code_gen.Dom.Complete.{find_object}
use schema_code_gen.Dom.{Object, Dom, is_empty}

-- The stack of the loop with the last base on top; the loop may also meet a base that is no object,
-- or not be finished within the fuel.
pub data Parents : Type 0 where
  found : List Object → Parents
  missing unfinished : Parents

-- One round: whether the object has no base, the base, and the rounds that follow.
abbrev round : Bool → Option Object → List Object → (Object → Parents) → Parents
round true o stack next = found stack
round false none stack next = missing
round false (some p) stack next = next p

unfoldable pub parents : (fuel : ℕ) → Dom → Object → List Object → Parents
unfolding find_object
parents zero d t stack = unfinished
parents (suc fuel) d t stack =
    round (is_empty t.inherits_from) (find_object d t.inherits_from) stack
      (λ p. parents fuel d p (p ∷ stack))

-- The object `p` is the base of `t`.
pub record IsBase (d : Dom) (t p : Object) : Type 0 where
  pub named : is_empty t.inherits_from ≡ false
  pub is_found : find_object d t.inherits_from ≡ some p

-- A rank that each base has a smaller one of: no object is its own base, directly or through others.
abbrev pub Descends : Dom → (Object → ℕ) → Type 0
Descends d rank = (t p : Object) → IsBase d t p → rank p < rank t

round-ends :
    (b : Bool) (o : Option Object) (stack : List Object) (next : Object → Parents)
    → ((p : Object) → b ≡ false → o ≡ some p → next p ≢ unfinished)
    → round b o stack next ≢ unfinished
round-ends true o stack next h e = cc
round-ends false none stack next h e = cc
round-ends false (some p) stack next h e = h p refl refl e

-- The loop ends within one round more than the rank of its first object.
pub parents_end :
    (d : Dom) (rank : Object → ℕ) (fuel : ℕ) (t : Object) (stack : List Object)
    → Descends d rank
    → rank t < fuel
    → parents fuel d t stack ≢ unfinished
unfolding parents
parents_end d rank zero t stack h k = absurd (omega arith)
parents_end d rank (suc fuel) t stack h k =
    round-ends (is_empty t.inherits_from) (find_object d t.inherits_from) stack _ λ p e g.
      let below = h t p record { named = e; is_found = g } in
      parents_end d rank fuel p (p ∷ stack) h (omega (arith, below))

-- The loop does not end, however many rounds it has, among objects that all have a base among them.
pub parents_endless {ℓ} :
    (d : Dom) (P : Object → Type ℓ) (fuel : ℕ) (t : Object) (stack : List Object)
    → ((o : Object) → P o → (p : Object) × (IsBase d o p × P p))
    → P t
    → parents fuel d t stack ≡ unfinished
unfolding parents
parents_endless d P zero t stack h k = refl
parents_endless d P (suc fuel) t stack h k =
    let (p, (b, kp)) = h t k in
    ap₂ (λ x o. round x o stack (λ p. parents fuel d p (p ∷ stack))) b.named b.is_found
    ∙ parents_endless d P fuel p (p ∷ stack) h kp
