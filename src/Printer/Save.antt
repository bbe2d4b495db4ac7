-- ===== src/Printer/Save.antt =====
-- What `finalize` of src/CreateDOM.cpp leaves on disk.
use schema_code_gen.Base.{
  ◌≡◌, ◌≢◌, ◌↔◌, refl, ap, ◌∙◌, false, Option, none, some, [], ◌∷◌, arith, Bytes, text_eq_iff,
  if◌then◌else◌, Bool-cases, inl, inr,
}
use schema_code_gen.Dom.{is_empty}
use schema_code_gen.Printer.{CodePrinter, OldFile, absent, content, unreadable, need_save, finalize}

-- The file behind `finalize`, where it can be written.
abbrev pub saved : OldFile → Option Bytes → OldFile
saved old none = old
saved old (some c) = content c

need_save_same : (output : Bytes) → need_save output (content output) ≡ false
unfolding need_save
need_save_same output = ground (arith, text_eq_iff output output)

-- A file is left alone only if it holds the output.
need_save_iff :
    (output : Bytes) (old : OldFile) → (need_save output old ≡ false) ↔ (old ≡ content output)
unfolding need_save
need_save_iff output absent = ((λ e. cc), (λ e. cc))
need_save_iff output unreadable = ((λ e. cc), (λ e. cc))
need_save_iff output (content c) = (
  (λ e. ground (arith, text_eq_iff c output)),
  (λ e. ap (need_save output) e ∙ need_save_same output),
)

is_empty-false : (s : Bytes) → s ≢ [] → is_empty s ≡ false
is_empty-false [] n = absurd (n refl)
is_empty-false (c ∷ s) n = refl

-- What is written, when name and output are not empty.
written : Bytes → OldFile → Option Bytes
written output old = if need_save output old then some output else none

finalize-written :
    (p : CodePrinter) (old : OldFile)
    → p.dest_file_name ≢ []
    → p.output ≢ []
    → (finalize p old).1 ≡ written p.output old
unfolding finalize written
finalize-written p old n m = rw (is_empty-false p.dest_file_name n, is_empty-false p.output m)

written-saved :
    (output : Bytes) (old : OldFile)
    → (saved old (written output old) ≡ content output)
      × ((written output old ≡ none) ↔ (old ≡ content output))
unfolding written
written-saved output old = elim (Bool-cases (need_save output old)) [
  | inl e ↦ rw e (refl, ((λ f. cc), (λ f. cc (e, (need_save_iff output old).1 f))))
  | inr e ↦ let same = (need_save_iff output old).0 e in rw e (same, ((λ _. same), (λ _. refl)))
]

-- A printer with a name and some output leaves the output in its file, where the file can be
-- written. It writes the file unless the file holds exactly the output before.
pub finalize-saved :
    (p : CodePrinter) (old : OldFile)
    → p.dest_file_name ≢ []
    → p.output ≢ []
    → (saved old (finalize p old).1 ≡ content p.output)
      × (((finalize p old).1 ≡ none) ↔ (old ≡ content p.output))
finalize-saved p old n m = rw (finalize-written p old n m) (written-saved p.output old)
