-- ===== src/Emit/Depth.antt =====
-- The nesting of braces in a text, and in the text of the calls of a writer.
use schema_code_gen.Base.{
  ℕ, zero, suc, ◌≡◌, ◌≢◌, refl, ap, ◌∙◌, Bool, true, false, List, [], ◌∷◌, ◌++◌, Option, none, some,
  arith, Bytes, ◌==◌, All, if◌then◌else◌,
}
use schema_code_gen.Emit.{plain_byte, expand_from}

pub data Brace : Type 0 where
  opening closing other : Brace

unfoldable pub brace : ℕ → Brace
brace c = if c == b'{' then opening else if c == b'}' then closing else other

-- One byte, with what follows it.
abbrev pub step : Brace → (ℕ → Option ℕ) → ℕ → Option ℕ
step opening next d = next (suc d)
step closing next zero = none
step closing next (suc d) = next d
step other next d = next d

-- The depth behind a text that starts at depth `d`; `none` where a brace closes that none opened.
unfoldable pub depth : ℕ → Bytes → Option ℕ
unfolding brace
depth d [] = some d
depth d (c ∷ s) = step (brace c) (λ e. depth e s) d

abbrev IsOther : ℕ → Type 0
IsOther c = (c ≢ b'{') × (c ≢ b'}')

abbrev pub IsBraceless : Bytes → Type 0
IsBraceless s = All IsOther s

pub if-IsBraceless :
    (b : Bool) (s t : Bytes) → IsBraceless s → IsBraceless t → IsBraceless (if b then s else t)
if-IsBraceless true s t hs ht = hs
if-IsBraceless false s t hs ht = ht

brace-other : (c : ℕ) → IsOther c → brace c ≡ other
unfolding brace
brace-other c h = ground arith

depth-other : (d c : ℕ) (s : Bytes) → IsOther c → depth d (c ∷ s) ≡ depth d s
unfolding depth
depth-other d c s h = ap (λ b. step b (λ e. depth e s) d) (brace-other c h)

pub depth-braceless : (d : ℕ) (s t : Bytes) → IsBraceless s → depth d (s ++ t) ≡ depth d t
depth-braceless d [] t h = refl
depth-braceless d (c ∷ s) t (h, hs) = depth-other d c (s ++ t) h ∙ depth-braceless d s t hs

-- Text behind text.
abbrev pub then_depth : Option ℕ → Bytes → Option ℕ
then_depth none t = none
then_depth (some d) t = depth d t

step-then :
    (b : Brace) (next : ℕ → Option ℕ) (t : Bytes) (d : ℕ)
    → step b (λ e. then_depth (next e) t) d ≡ then_depth (step b next d) t
step-then opening next t d = refl
step-then closing next t zero = refl
step-then closing next t (suc d) = refl
step-then other next t d = refl

pub depth-append : (d : ℕ) (s t : Bytes) → depth d (s ++ t) ≡ then_depth (depth d s) t
unfolding depth
depth-append d [] t = refl
depth-append d (c ∷ s) t =
    ap (λ next. step (brace c) next d) (λ i e. depth-append e s t i)
    ∙ step-then (brace c) (λ e. depth e s) t d

depth-plain_byte :
    (b : Bool) (c : ℕ) (rest rest' : Bool → Bytes)
    → ((d : ℕ) (flag : Bool) → depth d (rest flag) ≡ depth d (rest' flag))
    → (d : ℕ) → depth d (plain_byte b c rest) ≡ depth d (plain_byte b c rest')
unfolding depth
depth-plain_byte true c rest rest' h d = h d true
depth-plain_byte false c rest rest' h d = ap (λ next. step (brace c) next d) (λ i e. h e false i)

-- Arguments without braces leave the depth to the format.
pub depth-expand_from :
    (s : Bytes) (flag : Bool) (args : List Bytes)
    → All IsBraceless args
    → (d : ℕ) → depth d (expand_from flag s args) ≡ depth d (expand_from flag s [])
unfolding expand_from
depth-expand_from [] true args h d = refl
depth-expand_from [] false args h d = refl
depth-expand_from (c ∷ s) false args h d =
    depth-plain_byte (c == b'%') c _ _ (λ e flag. depth-expand_from s flag args h e) d
depth-expand_from (c ∷ s) true [] h d = refl
depth-expand_from (c ∷ s) true (a ∷ args) (ha, h) d =
    depth-braceless d a (expand_from false s args) ha ∙ depth-expand_from s false args h d
