-- ===== src/Save/Python/Ends.antt =====
-- When `DOM::savePython` of src/CreateDOM.cpp ends: the loop over the base classes does not where an
-- object is its own base.
use schema_code_gen.Base.{
  ℕ, ◌<◌, ◌≡◌, ◌≢◌, refl, ap, ap₂, ◌∙◌, Bool, true, false, ◌++◌, List, [], ◌∷◌, Option, none, some,
  Bytes, codes, if◌then◌else◌,
}
use schema_code_gen.CString.{stricmp_eq}
use schema_code_gen.Dom.Complete.{find_object}
use schema_code_gen.Dom.{Object, Dom, is_empty}
use schema_code_gen.Emit.{text, fill}
use schema_code_gen.Printer.Lines.{Line}
use schema_code_gen.Save.Python.Data.{
  data_end, unless_based, return_data, behind, for_found, data_begin, as_data,
}
use schema_code_gen.Save.Python.Parents.{
  Parents, found, missing, unfinished, parents, IsBase, Descends, parents_end, parents_endless,
}
use schema_code_gen.Save.Python.Whole.{
  both, python_begin, python_class, save_python_object, python_objects, save_python,
}
use schema_code_gen.Save.Python.{text_slot, python_enum}
use schema_code_gen.Save.Files.Calls.{file_slot}
use schema_code_gen.Values.{FloatStream}

behind_differs : (ls : List Line) (m : Option (List Line)) → m ≢ none → behind ls m ≢ none
behind_differs ls none h e = h refl
behind_differs ls (some ms) h e = cc

both_differs : (l m : Option (List Line)) → l ≢ none → m ≢ none → both l m ≢ none
both_differs none m hl hm e = hl refl
both_differs (some ls) m hl hm e = behind_differs ls m hm e

data_end_differs : (r : Parents) (name : Bytes) → r ≢ unfinished → data_end r name ≢ none
data_end_differs (found stack) name h e = cc
data_end_differs missing name h e = cc
data_end_differs unfinished name h e = h refl

unless_differs :
    (b : Bool) (ls : List Line) (o : Option (List Line)) → o ≢ none → unless_based b ls o ≢ none
unless_differs true ls o h e = cc
unless_differs false ls o h e = h e

found_differs :
    (o : Option Object) (next : Object → Option (List Line))
    → ((p : Object) → next p ≢ none)
    → for_found o next ≢ none
found_differs none next h e = cc
found_differs (some p) next h e = h p e

if_differs :
    (b : Bool) (ls : List Line) (o : Option (List Line))
    → o ≢ none
    → (if b then some ls else o) ≢ none
if_differs true ls o h e = cc
if_differs false ls o h e = h e

as_data_ends :
    (d : Dom) (rank : Object → ℕ) (fuel : ℕ) (o : Object)
    → Descends d rank
    → ((t : Object) → rank t < fuel)
    → as_data fuel d o ≢ none
unfolding as_data
as_data_ends d rank fuel o h k = found_differs (find_object d o.name) _ λ t.
    behind_differs (data_begin d o) (return_data fuel d t o.name) (
      unless_differs (is_empty t.inherits_from) _ _
        (data_end_differs (parents fuel d t []) o.name (parents_end d rank fuel t [] h (k t))))

object_ends :
    (f : FloatStream) (d : Dom) (rank : Object → ℕ) (fuel : ℕ) (o : Object)
    → Descends d rank
    → ((t : Object) → rank t < fuel)
    → save_python_object f fuel d o ≢ none
unfolding save_python_object
object_ends f d rank fuel o h k =
    if_differs (stricmp_eq o.type (codes "Enum")) (python_enum o) _
      (behind_differs (python_class f d o) (as_data fuel d o) (as_data_ends d rank fuel o h k))

objects_end :
    (f : FloatStream) (d : Dom) (rank : Object → ℕ) (fuel : ℕ) (os : List Object)
    → Descends d rank
    → ((t : Object) → rank t < fuel)
    → python_objects f fuel d os ≢ none
unfolding python_objects
objects_end f d rank fuel [] h k = λ e. cc
objects_end f d rank fuel (o ∷ os) h k =
    both_differs (save_python_object f fuel d o) (python_objects f fuel d os)
      (object_ends f d rank fuel o h k) (objects_end f d rank fuel os h k)

-- Where every base has a smaller rank than the object it is a base of, the file for Python is
-- generated, with one round of fuel more than the greatest rank.
pub save_python_ends :
    (f : FloatStream) (d : Dom) (rank : Object → ℕ) (fuel : ℕ)
    → Descends d rank
    → ((t : Object) → rank t < fuel)
    → save_python f fuel d ≢ none
unfolding save_python
save_python_ends f d rank fuel h k =
    behind_differs (fill (file_slot d) python_begin) (python_objects f fuel d d.objects)
      (objects_end f d rank fuel d.objects h k)

both-none : (l : Option (List Line)) → both l none ≡ none
both-none none = refl
both-none (some ls) = refl

as_data_endless {ℓ} :
    (d : Dom) (P : Object → Type ℓ) (fuel : ℕ) (o t : Object)
    → ((o : Object) → P o → (p : Object) × (IsBase d o p × P p))
    → find_object d o.name ≡ some t
    → P t
    → as_data fuel d o ≡ none
unfolding as_data
as_data_endless d P fuel o t h e k =
    let (p, (b, _)) = h t k in
    let plain = fill (text_slot [] []) (text 2 "return data\n" ∷ []) in
    ap (λ found. for_found found (λ type. behind (data_begin d o) (return_data fuel d type o.name)))
      e
    ∙ ap₂ (λ x r. behind (data_begin d o) (unless_based x plain (data_end r o.name))) b.named
        (parents_endless d P fuel t [] h k)

python_objects_endless :
    (f : FloatStream) (fuel : ℕ) (d : Dom) (before after : List Object) (o : Object)
    → save_python_object f fuel d o ≡ none
    → python_objects f fuel d (before ++ o ∷ after) ≡ none
unfolding python_objects
python_objects_endless f fuel d [] after o e = ap (λ l. both l (python_objects f fuel d after)) e
python_objects_endless f fuel d (b ∷ before) after o e =
    ap (both (save_python_object f fuel d b)) (python_objects_endless f fuel d before after o e)
    ∙ both-none (save_python_object f fuel d b)

-- Where a class of the schema is found among objects that all have a base among them, which is so
-- for a class that inherits from itself, the file for Python is never finished, whatever the fuel.
pub save_python_endless {ℓ} :
    (f : FloatStream) (d : Dom) (P : Object → Type ℓ) (fuel : ℕ) (before after : List Object)
    (o t : Object)
    → d.objects ≡ before ++ o ∷ after
    → stricmp_eq o.type (codes "Enum") ≡ false
    → find_object d o.name ≡ some t
    → P t
    → ((o : Object) → P o → (p : Object) × (IsBase d o p × P p))
    → save_python f fuel d ≡ none
unfolding save_python save_python_object
save_python_endless f d P fuel before after o t eo ee et k h =
    let never = as_data_endless d P fuel o t h et k in
    let object : save_python_object f fuel d o ≡ none =
      ap₂ (λ x l. if x then some (python_enum o) else behind (python_class f d o) l) ee never in
    let head = fill (file_slot d) python_begin in
    ap (λ os. behind head (python_objects f fuel d os)) eo
    ∙ ap (behind head) (python_objects_endless f fuel d before after o object)
