-- ===== src/Tests/Python.antt =====
-- The theorems about the file for Python at concrete schemas.
use schema_code_gen.Base.{
  ℕ, ◌<◌, ◌≡◌, ◌≢◌, refl, subst, ◌∙◌, sym, Bool, true, false, [], ◌∷◌, Option, none, some, Bytes,
  codes, text_eq, if◌then◌else◌, arith, get_elem?,
}
use schema_code_gen.CString.{stricmp_eq}
use schema_code_gen.Dom.Complete.{find_object, lookup}
use schema_code_gen.Dom.{Object, new_object, Dom, new_dom, is_empty}
use schema_code_gen.Save.Python.Ends.{save_python_ends, save_python_endless}
use schema_code_gen.Save.Python.Parents.{IsBase, Descends}
use schema_code_gen.Save.Python.Whole.{save_python}
use schema_code_gen.Tests.Generated.{points}

abbrev animal : Object
animal = record new_object { name = codes "Animal"; type = codes "Class"; is_class = true }

abbrev dog : Object
dog = record new_object {
  name = codes "Dog";
  type = codes "Class";
  inherits_from = codes "Animal";
  is_class = true;
}

abbrev zoo : Dom
zoo = record new_dom {
  objects = animal ∷ dog ∷ [];
  object_map = (codes "Animal", 0) ∷ (codes "Dog", 1) ∷ [];
}

abbrev found_rank : (is_animal is_dog : Bool) → ℕ
found_rank true d = 1
found_rank false true = 2
found_rank false false = 0

abbrev rank_by : Bool → Bytes → ℕ
rank_by true base = 0
rank_by false base = found_rank (text_eq (codes "Animal") base) (text_eq (codes "Dog") base)

abbrev zoo_rank : Object → ℕ
zoo_rank t = rank_by (is_empty t.inherits_from) t.inherits_from

zoo_find : Bool → Bool → Option Object
zoo_find true d = some animal
zoo_find false true = some dog
zoo_find false false = none

abbrev object_at : Option ℕ → Option Object
object_at none = none
object_at (some i) = get_elem? zoo.objects i

zoo_places :
    (is_animal is_dog : Bool)
    → object_at (if is_animal then some 0 else if is_dog then some 1 else none)
      ≡ zoo_find is_animal is_dog
unfolding zoo_find
zoo_places true d = refl
zoo_places false true = refl
zoo_places false false = refl

zoo_found :
    (name : Bytes)
    → find_object zoo name ≡ zoo_find (text_eq (codes "Animal") name) (text_eq (codes "Dog") name)
unfolding find_object lookup
zoo_found name = zoo_places (text_eq (codes "Animal") name) (text_eq (codes "Dog") name)

found_below :
    (is_animal is_dog : Bool) (p : Object)
    → zoo_find is_animal is_dog ≡ some p
    → zoo_rank p < found_rank is_animal is_dog
unfolding zoo_find text_eq
found_below true d p e =
    let same : animal ≡ p = cc in subst (λ q. zoo_rank q < 1) same (omega arith)
found_below false true p e =
    let same : dog ≡ p = cc in subst (λ q. zoo_rank q < 2) same (omega arith)
found_below false false p e = cc

zoo-Descends : Descends zoo zoo_rank
zoo-Descends t p b =
    subst (λ x. zoo_rank p < rank_by x t.inherits_from) (sym b.named)
      (found_below (text_eq (codes "Animal") t.inherits_from)
        (text_eq (codes "Dog") t.inherits_from) p (sym (zoo_found t.inherits_from) ∙ b.is_found))

found_bound : (is_animal is_dog : Bool) → found_rank is_animal is_dog < 3
found_bound true d = omega arith
found_bound false true = omega arith
found_bound false false = omega arith

zoo_bound : (t : Object) → zoo_rank t < 3
zoo_bound t = rank_bound (is_empty t.inherits_from)
  where
    rank_bound : (b : Bool) → rank_by b t.inherits_from < 3
    rank_bound true = omega arith
    rank_bound false =
        found_bound (text_eq (codes "Animal") t.inherits_from)
          (text_eq (codes "Dog") t.inherits_from)

save_python_ends_example : save_python points 3 zoo ≢ none
save_python_ends_example = save_python_ends points zoo zoo_rank 3 zoo-Descends zoo_bound

-- A class that inherits from itself.
abbrev snake : Object
snake = record new_object {
  name = codes "Snake";
  type = codes "Class";
  inherits_from = codes "Snake";
  is_class = true;
}

abbrev loop : Dom
loop = record new_dom { objects = snake ∷ []; object_map = (codes "Snake", 0) ∷ [] }

abbrev IsSnake : Object → Type 0
IsSnake o = o ≡ snake

IsSnake-IsBase : (o : Object) → IsSnake o → (p : Object) × (IsBase loop o p × IsSnake p)
unfolding find_object text_eq
IsSnake-IsBase o e =
    let own : IsBase loop snake snake = record { named = refl; is_found = refl } in
    (snake, (subst (λ q. IsBase loop q snake) (sym e) own, refl))

save_python_endless_example : save_python points 1000 loop ≡ none
unfolding find_object text_eq stricmp_eq
save_python_endless_example =
    save_python_endless points loop IsSnake 1000 [] [] snake snake refl refl refl refl
      IsSnake-IsBase
