-- ===== src/StringHelper/Search.antt =====
-- `stristr` of src/StringHelper.cpp: the first place of a text in another, case aside.
use schema_code_gen.Base.{
  ℕ, ◌+◌, ◌≡◌, ◌≢◌, refl, Bool, true, false, ◌&&◌, ◌||◌, Option, none, some, [], ◌∷◌, arith, Bytes,
  leb, ◌==◌, if◌then◌else◌,
}
use schema_code_gen.StringHelper.Chars.{upcase}

-- The inner loop, from `scan1` and `scan2` on, and the test that `scan1` is at its end.
unfoldable pub scan_matches : Bytes → Bytes → Bool
unfolding upcase
scan_matches [] s = true
scan_matches (p ∷ ps) [] = false
scan_matches (p ∷ ps) (c ∷ s) =
    let more = scan_matches ps s in if upcase p == upcase c then more else false

-- `upcase(*subString)`; the terminator is its own upper case.
abbrev pub first_char : Bytes → ℕ
first_char [] = 0
first_char (p ∷ ps) = upcase p

abbrev pub behind_first : Bytes → Bytes
behind_first [] = []
behind_first (p ∷ ps) = ps

unfoldable pub stristr : Bytes → Bytes → Option Bytes
unfolding scan_matches
stristr [] sub = none
stristr (c ∷ s) sub =
    let rest = stristr s sub in
    if upcase c == first_char sub && scan_matches (behind_first sub) s then some (c ∷ s) else rest

abbrev pub is_small : ℕ → Bool
is_small c = leb b'a' c && leb c b'z'

-- The same byte, or the two cases of one letter.
abbrev pub same_letter : ℕ → ℕ → Bool
same_letter p c = p == c || is_small p && c + 32 == p || is_small c && p + 32 == c

-- The text `s` begins with the text `p`, case aside.
abbrev pub starts_with : Bytes → Bytes → Bool
starts_with [] s = true
starts_with (p ∷ ps) [] = false
starts_with (p ∷ ps) (c ∷ s) = same_letter p c && starts_with ps s

-- The longest end of `s` that begins with `p`.
abbrev pub first_place : Bytes → Bytes → Option Bytes
first_place p [] = none
first_place p (c ∷ s) = if starts_with p (c ∷ s) then some (c ∷ s) else first_place p s

upcase-same_letter : (p c : ℕ) → (upcase p == upcase c) ≡ same_letter p c
unfolding upcase
upcase-same_letter p c = ground arith

upcase-same_letter_rev : (p c : ℕ) → (upcase c == upcase p) ≡ same_letter p c
unfolding upcase
upcase-same_letter_rev p c = ground arith

if-and : (a b : Bool) → (if a then b else false) ≡ (a && b)
if-and true b = refl
if-and false b = refl

scan_matches-starts_with : (p s : Bytes) → scan_matches p s ≡ starts_with p s
unfolding scan_matches
scan_matches-starts_with [] s = refl
scan_matches-starts_with (p ∷ ps) [] = refl
scan_matches-starts_with (p ∷ ps) (c ∷ s) =
    rw (upcase-same_letter p c, scan_matches-starts_with ps s) (if-and (same_letter p c) _)

-- The search for a text that is not empty finds the first place where it stands, each letter in
-- either case and every other byte as it is, and null if there is none.
pub stristr-first_place : (s sub : Bytes) → sub ≢ [] → stristr s sub ≡ first_place sub s
unfolding stristr
stristr-first_place [] sub h = refl
stristr-first_place (c ∷ s) [] h = absurd (h refl)
stristr-first_place (c ∷ s) (p ∷ ps) h =
    rw (upcase-same_letter_rev p c, scan_matches-starts_with ps s, stristr-first_place s (p ∷ ps) h)
      refl
