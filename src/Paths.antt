-- ===== src/Paths.antt =====
-- The directories and names of generated files in src/CreateDOM.cpp: `recursiveCreatePath` and
-- `fpout`. The calls of `createDir` are the list of their arguments, in order.
use schema_code_gen.Base.{
  ℕ, zero, suc, ◌≡◌, refl, sym, ap, ap₂, ◌∙◌, Bool, ◌||◌, ◌++◌, append_assoc, append-nil, List, [],
  ◌∷◌, map, Bytes, codes, take, ◌==◌, if◌then◌else◌, Bool-cases, inl, inr,
}

abbrev pub is_slash : ℕ → Bool
is_slash c = c == b'/' || c == 92

-- The loop, with the room left in `mpath` and what stands in it.
unfoldable created : ℕ → Bytes → Bytes → List Bytes
created zero done s = done ∷ []
created (suc room) done [] = done ∷ []
created (suc room) done (c ∷ s) =
    let rest = created room (done ++ c ∷ []) s in if is_slash c then done ∷ rest else rest

unfoldable pub recursive_create_path : Bytes → List Bytes
unfolding created
recursive_create_path dir_name = created 511 [] dir_name

-- `fpout`: the directories it creates, and the name it returns.
abbrev pub fpout : Bytes → Bytes → List Bytes × Bytes
fpout fname dest_dir = (recursive_create_path dest_dir, dest_dir ++ (codes "/" ++ fname))

-- The beginnings of a path that end before a slash, the shorter first.
abbrev pub parents : Bytes → List Bytes
parents [] = []
parents (c ∷ s) = let more = map (λ p. c ∷ p) (parents s) in if is_slash c then [] ∷ more else more

behind-cons :
    (done : Bytes) (c : ℕ) (ps : List Bytes)
    → map (λ p. done ++ c ∷ [] ++ p) ps ≡ map (λ p. done ++ p) (map (λ p. c ∷ p) ps)
behind-cons done c [] = refl
behind-cons done c (p ∷ ps) = ap₂ ◌∷◌ (append_assoc done (c ∷ []) p) (behind-cons done c ps)

created-parents :
    (room : ℕ) (done s : Bytes)
    → created room done s
      ≡ map (λ p. done ++ p) (parents (take room s)) ++ (done ++ take room s) ∷ []
unfolding created
created-parents zero done s = ap (λ d. d ∷ []) (sym (append-nil done))
created-parents (suc room) done [] = ap (λ d. d ∷ []) (sym (append-nil done))
created-parents (suc room) done (c ∷ s) =
    let more =
      created-parents room (done ++ c ∷ []) s
      ∙ ap₂ (λ ps d. ps ++ d ∷ []) (behind-cons done c (parents (take room s)))
          (append_assoc done (c ∷ []) (take room s)) in
    elim (Bool-cases (is_slash c)) [
      | inl e ↦ rw e (ap₂ ◌∷◌ (sym (append-nil done)) more)
      | inr e ↦ rw e more
    ]

as_they_are : (ps : List Bytes) → map (λ p. [] ++ p) ps ≡ ps
as_they_are [] = refl
as_they_are (p ∷ ps) = ap (◌∷◌ p) (as_they_are ps)

-- For a path, cut at 511 bytes, a directory is created for each beginning that ends before a slash,
-- the shorter first, so that a parent exists when its child is created, and last for the path.
pub recursive_create_path-parents :
    (dir_name : Bytes)
    → recursive_create_path dir_name ≡ parents (take 511 dir_name) ++ take 511 dir_name ∷ []
unfolding recursive_create_path
recursive_create_path-parents dir_name =
    created-parents 511 [] dir_name
    ∙ ap (λ ps. ps ++ take 511 dir_name ∷ []) (as_they_are (parents (take 511 dir_name)))
