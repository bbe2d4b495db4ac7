-- ===== src/Save/Faults/Whole.antt =====
-- Which schemas src/CreateDOM.cpp generates the files of a program for.
use schema_code_gen.Base.{◌≡◌, refl, ap₂, ◌∙◌, Bool, ◌&&◌, List, [], ◌∷◌, ◌++◌}
use schema_code_gen.Dom.{Object, Dom}
use schema_code_gen.Outcome.{Outcome, ok, fault, ◌>>=◌}
use schema_code_gen.Printer.Lines.{Line}
use schema_code_gen.Save.Class.{save_class}
use schema_code_gen.Save.Deserialize.{save_deserialize}
use schema_code_gen.Save.Faults.Classes.{object_declarable, save_class-is_ok}
use schema_code_gen.Save.Faults.Readers.{object_readable, save_deserialize-is_ok}
use schema_code_gen.Save.Faults.{is_ok, is_ok-both, every, object_writable, save_serialize-is_ok}
use schema_code_gen.Save.Files.{each_ok, save_sources}
use schema_code_gen.Save.Serialize.{save_serialize}
use schema_code_gen.Values.{FloatStream}

each_ok-every :
    (save : Object → Outcome (List Line)) (p : Object → Bool)
    → ((o : Object) → is_ok (save o) ≡ p o)
    → (os : List Object) → is_ok (each_ok save os) ≡ every p os
unfolding each_ok
each_ok-every save p h [] = refl
each_ok-every save p h (o ∷ os) =
    is_ok-both (save o) (each_ok save os) (λ ls ms. ls ++ ms)
    ∙ ap₂ ◌&&◌ (h o) (each_ok-every save p h os)

three :
    {A B C D : Type 0} (l : Outcome A) (m : Outcome B) (n : Outcome C) (f : A → B → C → D)
    → is_ok (l >>= λ a. m >>= λ b. n >>= λ c. ok (f a b c)) ≡ is_ok l && (is_ok m && is_ok n)
three (ok a) m n f = is_ok-both m n (f a)
three (fault e) m n f = refl

-- The three files of a schema are generated, without an assertion that fails or a buffer that is
-- left without a terminator, exactly when the members that each object does not inherit pass three
-- tests. In an object that is neither an alias nor an enum by its type, a map is an array, and the
-- type's name of an array that is no array of strings and no map of standard types has less than 512
-- bytes. In an object that is no enum, the type is standard, `string` or an object's name, and a map
-- of integers stands among own members that are all maps.
pub save_sources-is_ok :
    (f : FloatStream) (d : Dom)
    → is_ok (save_sources f d)
      ≡ every object_declarable d.objects
        && (every (object_writable d.objects) d.objects && every object_readable d.objects)
unfolding save_sources
save_sources-is_ok f d =
    three (each_ok (save_class f d) d.objects) (each_ok (save_serialize d.objects) d.objects)
      (each_ok (save_deserialize d.objects) d.objects) _
    ∙ ap₂ ◌&&◌ (each_ok-every (save_class f d) object_declarable (save_class-is_ok f d) d.objects) (
        ap₂ ◌&&◌
          (each_ok-every (save_serialize d.objects) (object_writable d.objects)
            (save_serialize-is_ok d.objects) d.objects)
          (each_ok-every (save_deserialize d.objects) object_readable
            (save_deserialize-is_ok d.objects) d.objects))
