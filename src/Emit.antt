-- ===== src/Emit.antt =====
-- The calls of `printCode` in the writers of src/CreateDOM.cpp: a format with its arguments, and
-- what the calls print. A writer is here the list of its calls, in order, whose arguments are named
-- by slots; the texts of the slots are filled in behind.
pub mod Depth
pub mod Nested
pub mod Printed
use Prim.Native.String.{String}
use schema_code_gen.Base.{ℕ, Bool, true, false, List, [], ◌∷◌, ◌++◌, map, Bytes, codes, ◌==◌}
use schema_code_gen.Printer.Lines.{Line}

-- A byte of a format that is no conversion's: a `%` begins one.
abbrev pub plain_byte : Bool → ℕ → (Bool → Bytes) → Bytes
plain_byte true c rest = rest true
plain_byte false c rest = c ∷ rest false

-- A format with its arguments: every conversion of the source is `%s` or `%d`, whose argument is the
-- text that it prints. The flag says that a `%` stands before.
unfoldable pub expand_from : Bool → Bytes → List Bytes → Bytes
expand_from _ [] args = []
expand_from false (c ∷ s) args = plain_byte (c == b'%') c (λ flag. expand_from flag s args)
expand_from true (c ∷ s) [] = expand_from false s []
expand_from true (c ∷ s) (a ∷ args) = a ++ expand_from false s args

abbrev pub expand : Bytes → List Bytes → Bytes
expand = expand_from false

-- One call, with the slots of its arguments.
pub record Entry (A : Type 0) : Type 0 where
  pub indent : ℕ
  pub format : Bytes
  pub args : List A

abbrev pub entry : {A : Type 0} → ℕ → String → List A → Entry A
entry indent format args = record { indent = indent; format = codes format; args = args }

-- A call without arguments, and `linefeed`.
abbrev pub text : {A : Type 0} → ℕ → String → Entry A
text indent format = entry indent format []

abbrev pub empty_line : {A : Type 0} → Entry A
empty_line = text 0 "\n"

module _ {A : Type 0} (slot : A → Bytes) where
  abbrev pub fill_entry : Entry A → Line
  fill_entry e = record { indent = e.indent; text = expand e.format (map slot e.args) }

  -- The calls with their arguments.
  abbrev pub fill : List (Entry A) → List Line
  fill = map fill_entry
