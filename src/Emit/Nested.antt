-- ===== src/Emit/Nested.antt =====
-- Lines and calls whose braces are nested, one after another and in one another.
use schema_code_gen.Base.{
  ℕ, suc, ◌≡◌, refl, ap, ◌∙◌, Bool, true, false, List, [], ◌∷◌, ◌++◌, map, Option, none, some,
  Bytes, All, if◌then◌else◌,
}
use schema_code_gen.Emit.{expand, Entry, fill}
use schema_code_gen.Printer.Lines.{Line}
use schema_code_gen.Emit.Depth.{depth, IsBraceless, depth-expand_from}

abbrev pub and_then : Option ℕ → (ℕ → Option ℕ) → Option ℕ
and_then none next = none
and_then (some d) next = next d

pub and_then_assoc :
    (o : Option ℕ) (f g : ℕ → Option ℕ)
    → and_then o (λ d. and_then (f d) g) ≡ and_then (and_then o f) g
and_then_assoc none f g = refl
and_then_assoc (some d) f g = refl

-- The depth behind the calls of a writer, whose arguments do not count.
abbrev pub entries_depth : {A : Type 0} → ℕ → List (Entry A) → Option ℕ
entries_depth d [] = some d
entries_depth d (e ∷ es) = and_then (depth d (expand e.format [])) (λ d'. entries_depth d' es)

abbrev pub lines_depth : ℕ → List Line → Option ℕ
lines_depth d [] = some d
lines_depth d (l ∷ ls) = and_then (depth d l.text) (λ d'. lines_depth d' ls)

-- The texts of a writer's slots have no braces.
abbrev pub IsBracelessSlot : {A : Type 0} → (A → Bytes) → Type 0
IsBracelessSlot {A} slot = (a : A) → IsBraceless (slot a)

map-IsBraceless :
    {A : Type 0} (slot : A → Bytes)
    → IsBracelessSlot slot
    → (args : List A) → All IsBraceless (map slot args)
map-IsBraceless slot h [] = tt
map-IsBraceless slot h (a ∷ args) = (h a, map-IsBraceless slot h args)

pub lines_depth-fill :
    {A : Type 0} (slot : A → Bytes) (es : List (Entry A)) (d : ℕ)
    → IsBracelessSlot slot
    → lines_depth d (fill slot es) ≡ entries_depth d es
lines_depth-fill slot [] d h = refl
lines_depth-fill slot (e ∷ es) d h =
    ap (λ o. and_then o (λ d'. lines_depth d' (fill slot es)))
      (depth-expand_from e.format false (map slot e.args) (map-IsBraceless slot h e.args) d)
    ∙ ap (and_then (depth d (expand e.format []))) (λ i d'. lines_depth-fill slot es d' h i)

pub lines_depth-append :
    (ls ms : List Line) (d : ℕ)
    → lines_depth d (ls ++ ms) ≡ and_then (lines_depth d ls) (λ e. lines_depth e ms)
lines_depth-append [] ms d = refl
lines_depth-append (l ∷ ls) ms d =
    ap (and_then (depth d l.text)) (λ i e. lines_depth-append ls ms e i)
    ∙ and_then_assoc (depth d l.text) (λ e. lines_depth e ls) (λ e. lines_depth e ms)

-- Lines that close the braces they open, and no others.
abbrev pub IsNested : List Line → Type 0
IsNested ls = (d : ℕ) → lines_depth d ls ≡ some d

-- Lines that lead from the depth `f d` to the depth `g d`.
abbrev pub Moves : (ℕ → ℕ) → (ℕ → ℕ) → List Line → Type 0
Moves f g ls = (d : ℕ) → lines_depth (f d) ls ≡ some (g d)

pub Moves-append :
    (f g h : ℕ → ℕ) (ls ms : List Line) → Moves f g ls → Moves g h ms → Moves f h (ls ++ ms)
Moves-append f g h ls ms p q d =
    lines_depth-append ls ms (f d) ∙ ap (λ o. and_then o (λ e. lines_depth e ms)) (p d) ∙ q d

pub IsNested-append : (ls ms : List Line) → IsNested ls → IsNested ms → IsNested (ls ++ ms)
IsNested-append ls ms = Moves-append (λ d. d) (λ d. d) (λ d. d) ls ms

-- Lines in one pair of braces.
pub IsNested-around :
    (head body tail : List Line)
    → Moves (λ d. d) suc head
    → IsNested body
    → Moves suc (λ d. d) tail
    → IsNested (head ++ (body ++ tail))
IsNested-around head body tail h b t =
    Moves-append (λ d. d) suc (λ d. d) head (body ++ tail) h
      (Moves-append suc suc (λ d. d) body tail (λ d. b (suc d)) t)

pub IsNested-if :
    (b : Bool) (ls ms : List Line) → IsNested ls → IsNested ms → IsNested (if b then ls else ms)
IsNested-if true ls ms h k = h
IsNested-if false ls ms h k = k

-- The lines of each element of a list, one after another.
abbrev pub each {ℓ} : {A : Type ℓ} → (A → List Line) → List A → List Line
each f [] = []
each f (x ∷ xs) = f x ++ each f xs

pub IsNested-each {ℓ κ} :
    {A : Type ℓ} (P : A → Type κ) (f : A → List Line)
    → ((x : A) → P x → IsNested (f x))
    → (xs : List A) → All P xs
    → IsNested (each f xs)
IsNested-each P f h [] p = λ d. refl
IsNested-each P f h (x ∷ xs) (p, ps) =
    IsNested-append (f x) (each f xs) (h x p) (IsNested-each P f h xs ps)

-- A writer's calls, with braceless slots.
pub Moves-fill :
    {A : Type 0} (slot : A → Bytes) (f g : ℕ → ℕ) (es : List (Entry A))
    → IsBracelessSlot slot
    → ((d : ℕ) → entries_depth (f d) es ≡ some (g d))
    → Moves f g (fill slot es)
Moves-fill slot f g es h k d = lines_depth-fill slot es (f d) h ∙ k d

pub IsNested-fill :
    {A : Type 0} (slot : A → Bytes) (es : List (Entry A))
    → IsBracelessSlot slot
    → ((d : ℕ) → entries_depth d es ≡ some d)
    → IsNested (fill slot es)
IsNested-fill slot = Moves-fill slot (λ d. d) (λ d. d)

-- Lines between a writer's opening and closing calls.
pub IsNested-between :
    {A : Type 0} (slot : A → Bytes) (head tail : List (Entry A)) (ls : List Line)
    → IsBracelessSlot slot
    → ((d : ℕ) → entries_depth d head ≡ some (suc d))
    → ((d : ℕ) → entries_depth (suc d) tail ≡ some d)
    → IsNested ls
    → IsNested (fill slot head ++ (ls ++ fill slot tail))
IsNested-between slot head tail ls h k m n =
    IsNested-around (fill slot head) ls (fill slot tail) (Moves-fill slot (λ d. d) suc head h k) n
      (Moves-fill slot suc (λ d. d) tail h m)

pub entries_depth-append :
    {A : Type 0} (es fs : List (Entry A)) (d : ℕ)
    → entries_depth d (es ++ fs) ≡ and_then (entries_depth d es) (λ e. entries_depth e fs)
entries_depth-append [] fs d = refl
entries_depth-append (e ∷ es) fs d =
    ap (and_then (depth d (expand e.format []))) (λ i d'. entries_depth-append es fs d' i)
    ∙ and_then_assoc (depth d (expand e.format [])) (λ d'. entries_depth d' es)
        (λ d'. entries_depth d' fs)

-- Calls behind calls.
pub entries-append :
    {A : Type 0} (es fs : List (Entry A)) (d e : ℕ) (o : Option ℕ)
    → entries_depth d es ≡ some e
    → entries_depth e fs ≡ o
    → entries_depth d (es ++ fs) ≡ o
entries-append es fs d e o h k =
    entries_depth-append es fs d ∙ ap (λ o. and_then o (λ e. entries_depth e fs)) h ∙ k

pub entries-if :
    {A : Type 0} (b : Bool) (es fs : List (Entry A)) (d : ℕ) (o : Option ℕ)
    → entries_depth d es ≡ o
    → entries_depth d fs ≡ o
    → entries_depth d (if b then es else fs) ≡ o
entries-if true es fs d o h k = h
entries-if false es fs d o h k = k

-- Calls that leave every depth as it is.
abbrev pub IsClosed : {A : Type 0} → List (Entry A) → Type 0
IsClosed es = (d : ℕ) → entries_depth d es ≡ some d

pub IsClosed-append :
    {A : Type 0} (es fs : List (Entry A)) → IsClosed es → IsClosed fs → IsClosed (es ++ fs)
IsClosed-append es fs h k d = entries-append es fs d d (some d) (h d) (k d)
