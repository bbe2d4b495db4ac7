-- ===== src/Rows/Marks.antt =====
-- The parts of a name without braces, in src/CreateDOM.cpp's `processArgs`.
use schema_code_gen.Base.{
  ℕ, zero, suc, ◌≡◌, subst, Bool, true, false, [], ◌∷◌, Option, none, some, Bytes, take, ◌==◌,
  if◌then◌else◌,
}
use schema_code_gen.CString.{has_char, before_char, after_char, strip_prefix}
use schema_code_gen.Dom.{OptionalType, optional, optional_deserialize}
use schema_code_gen.Emit.Depth.{IsBraceless, if-IsBraceless}
use schema_code_gen.Rows.Member.{cut_name, strip_marks}

pub before_char-IsBraceless : (c : ℕ) (s : Bytes) → IsBraceless s → IsBraceless (before_char c s)
unfolding before_char
before_char-IsBraceless c [] h = tt
before_char-IsBraceless c (x ∷ s) (hx, h) =
    if-IsBraceless (x == c) [] (x ∷ before_char c s) tt (hx, before_char-IsBraceless c s h)

pub after_char-IsBraceless : (c : ℕ) (s : Bytes) → IsBraceless s → IsBraceless (after_char c s)
unfolding after_char
after_char-IsBraceless c [] h = tt
after_char-IsBraceless c (x ∷ s) (hx, h) =
    if-IsBraceless (x == c) s (after_char c s) h (after_char-IsBraceless c s h)

pub strip_prefix-IsBraceless :
    (p s : Bytes) (r : Bytes) → IsBraceless s → strip_prefix p s ≡ some r → IsBraceless r
unfolding strip_prefix
strip_prefix-IsBraceless [] s r h e = let same : s ≡ r = cc in subst IsBraceless same h
strip_prefix-IsBraceless (p ∷ ps) [] r h e = cc
strip_prefix-IsBraceless (p ∷ ps) (c ∷ s) r (hc, h) e =
    strip_prefix-IsBraceless ps s r h (if-some (p == c) (strip_prefix ps s) e)
  where
    if-some : (b : Bool) (o : Option Bytes) → (if b then o else none) ≡ some r → o ≡ some r
    if-some true o e = e
    if-some false o e = cc

pub cut_name-IsBraceless :
    (c : ℕ) (name : Bytes) → IsBraceless (c ∷ name) → IsBraceless (cut_name c name)
unfolding cut_name
cut_name-IsBraceless c name (hc, h) =
    if-IsBraceless (has_char b'[' name) (c ∷ before_char b'[' name) (before_char b'*' (c ∷ name))
      (hc, before_char-IsBraceless b'[' name h) (before_char-IsBraceless b'*' (c ∷ name) (hc, h))

pub strip_marks-IsBraceless :
    (room : ℕ) (o : OptionalType) (s : Bytes) → IsBraceless s → IsBraceless (strip_marks room o s).0
unfolding strip_marks
strip_marks-IsBraceless zero o s h = tt
strip_marks-IsBraceless (suc room) o [] h = tt
strip_marks-IsBraceless (suc room) o (c ∷ s) (hc, h) =
    three (c == b'?') (c == b'!') _ _ _ (strip_marks-IsBraceless (suc room) optional s h)
      (strip_marks-IsBraceless (suc room) optional_deserialize s h)
      (hc, strip_marks-IsBraceless room o s h)
  where
    three :
        (a b : Bool) (x y z : Bytes × OptionalType)
        → IsBraceless x.0
        → IsBraceless y.0
        → IsBraceless z.0
        → IsBraceless (if a then x else if b then y else z).0
    three true b x y z hx hy hz = hx
    three false true x y z hx hy hz = hy
    three false false x y z hx hy hz = hz

pub take-IsBraceless : (n : ℕ) (s : Bytes) → IsBraceless s → IsBraceless (take n s)
take-IsBraceless zero s h = tt
take-IsBraceless (suc n) [] h = tt
take-IsBraceless (suc n) (c ∷ s) (hc, h) = (hc, take-IsBraceless n s h)
