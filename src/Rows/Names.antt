-- ===== src/Rows/Names.antt =====
-- The name of a data item with its marks, in `CreateDOMDef::processArgs` of src/CreateDOM.cpp, is
-- written and read back.
use schema_code_gen.Base.{
  ℕ, zero, suc, ◌<◌, ◌≡◌, ◌≢◌, refl, sym, ap, ◌∙◌, Bool, true, false, ◌++◌, append-nil, [], ◌∷◌,
  arith, Bytes, codes, length, leb, text_eq, ◌==◌, if◌then◌else◌, All,
}
use schema_code_gen.CString.{has_char, before_char}
use schema_code_gen.Dom.{
  OptionalType, required, optional, optional_deserialize, MemberVariable, new_member, init,
}
use schema_code_gen.Outcome.{ok}
use schema_code_gen.Rows.Member.{
  cut_name, strip_marks, split_map, set_type, set_columns, parse_member,
}

-- A single value, a pointer or an array.
pub data Shape : Type 0 where
  single pointer array : Shape

abbrev pub shape_mark : Shape → Bytes
shape_mark single = []
shape_mark pointer = codes "*"
shape_mark array = codes "[]"

abbrev pub optional_mark : OptionalType → Bytes
optional_mark required = []
optional_mark optional = codes "?"
optional_mark optional_deserialize = codes "!"

-- The name, the mark of an optional item, and the mark of its shape behind it.
abbrev pub marked : Bytes → OptionalType → Shape → Bytes
marked name o shape = name ++ (optional_mark o ++ shape_mark shape)

abbrev pub IsNameByte : ℕ → Type 0
IsNameByte c = (c ≢ b'*') × (c ≢ b'[') × (c ≢ b'?') × (c ≢ b'!')

has_char-append : (d : ℕ) (s t : Bytes) → All (λ c. c ≢ d) s → has_char d (s ++ t) ≡ has_char d t
unfolding has_char
has_char-append d [] t h = refl
has_char-append d (c ∷ s) t h = ground (arith, has_char-append d s t)

before_char-append :
    (d : ℕ) (s t : Bytes) → All (λ c. c ≢ d) s → before_char d (s ++ t) ≡ s ++ before_char d t
unfolding before_char
before_char-append d [] t h = refl
before_char-append d (c ∷ s) t h = ground (arith, before_char-append d s t)

no_star : (s : Bytes) → All IsNameByte s → All (λ c. c ≢ b'*') s
no_star [] h = tt
no_star (c ∷ s) (h, hs) = (h.0, no_star s hs)

no_bracket : (s : Bytes) → All IsNameByte s → All (λ c. c ≢ b'[') s
no_bracket [] h = tt
no_bracket (c ∷ s) (h, hs) = (h.1, no_bracket s hs)

strip_marks-name :
    (room : ℕ) (o : OptionalType) (s : Bytes)
    → All IsNameByte s
    → length s < room
    → strip_marks room required (s ++ optional_mark o) ≡ (s, o)
unfolding strip_marks
strip_marks-name zero o s h k = absurd (omega arith)
strip_marks-name (suc room) required [] h k = refl
strip_marks-name (suc room) optional [] h k = refl
strip_marks-name (suc room) optional_deserialize [] h k = refl
strip_marks-name (suc room) o (c ∷ s) (h, hs) k =
    let rest = strip_marks-name room o s hs (omega arith) in
    let plain : (c == b'?') ≡ false = ground arith in
    let plain' : (c == b'!') ≡ false = ground arith in rw (plain, plain', rest) refl

optional_mark-lacks :
    (d : ℕ) (o : OptionalType) → d ≢ b'?' → d ≢ b'!' → All (λ c. c ≢ d) (optional_mark o)
optional_mark-lacks d required h k = tt
optional_mark-lacks d optional h k = ((λ e. h (sym e)), tt)
optional_mark-lacks d optional_deserialize h k = ((λ e. k (sym e)), tt)

-- A byte that neither the name nor the mark has is found in the shape's mark only.
has_char-marked :
    (d : ℕ) (s : Bytes) (o : OptionalType) (shape : Shape)
    → All (λ c. c ≢ d) s
    → All (λ c. c ≢ d) (optional_mark o)
    → has_char d (marked s o shape) ≡ has_char d (shape_mark shape)
has_char-marked d s o shape h k =
    has_char-append d s (optional_mark o ++ shape_mark shape) h
    ∙ has_char-append d (optional_mark o) (shape_mark shape) k

before_char-marked :
    (d : ℕ) (s : Bytes) (o : OptionalType) (shape : Shape)
    → All (λ c. c ≢ d) s
    → All (λ c. c ≢ d) (optional_mark o)
    → before_char d (shape_mark shape) ≡ []
    → before_char d (marked s o shape) ≡ s ++ optional_mark o
before_char-marked d s o shape h k e =
    before_char-append d s (optional_mark o ++ shape_mark shape) h
    ∙ ap (λ t. s ++ t)
        (before_char-append d (optional_mark o) (shape_mark shape) k
          ∙ ap (λ t. optional_mark o ++ t) e
          ∙ append-nil (optional_mark o))

abbrev pub is_array_shape : Shape → Bool
is_array_shape array = true
is_array_shape _ = false

abbrev pub is_pointer_shape : Shape → Bool
is_pointer_shape pointer = true
is_pointer_shape _ = false

has_bracket-shape_mark : (shape : Shape) → has_char b'[' (shape_mark shape) ≡ is_array_shape shape
unfolding has_char
has_bracket-shape_mark single = refl
has_bracket-shape_mark pointer = refl
has_bracket-shape_mark array = refl

has_star-shape_mark : (shape : Shape) → has_char b'*' (shape_mark shape) ≡ is_pointer_shape shape
unfolding has_char
has_star-shape_mark single = refl
has_star-shape_mark pointer = refl
has_star-shape_mark array = refl

has_bracket-marked :
    (s : Bytes) (o : OptionalType) (shape : Shape)
    → All IsNameByte s
    → has_char b'[' (marked s o shape) ≡ is_array_shape shape
has_bracket-marked s o shape h =
    has_char-marked b'[' s o shape (no_bracket s h)
      (optional_mark-lacks b'[' o (omega arith) (omega arith))
    ∙ has_bracket-shape_mark shape

has_star-marked :
    (s : Bytes) (o : OptionalType) (shape : Shape)
    → All IsNameByte s
    → has_char b'*' (marked s o shape) ≡ is_pointer_shape shape
has_star-marked s o shape h =
    has_char-marked b'*' s o shape (no_star s h)
      (optional_mark-lacks b'*' o (omega arith) (omega arith))
    ∙ has_star-shape_mark shape

-- Nothing of the mark stands before its first byte.
before_mark :
    (shape : Shape)
    → before_char (if is_array_shape shape then b'[' else b'*') (shape_mark shape) ≡ []
unfolding before_char
before_mark single = refl
before_mark pointer = refl
before_mark array = refl

cut_name-marked :
    (c : ℕ) (s : Bytes) (o : OptionalType) (shape : Shape)
    → All IsNameByte (c ∷ s)
    → cut_name c (marked s o shape) ≡ c ∷ (s ++ optional_mark o)
unfolding cut_name
cut_name-marked c s o array (h, hs) = rw (has_bracket-marked s o array hs) (
    ap (◌∷◌ c) (
      before_char-marked b'[' s o array (no_bracket s hs)
        (optional_mark-lacks b'[' o (omega arith) (omega arith)) (before_mark array)))
cut_name-marked c s o single (h, hs) = rw (has_bracket-marked s o single hs) (
    before_char-marked b'*' (c ∷ s) o single (no_star (c ∷ s) (h, hs))
      (optional_mark-lacks b'*' o (omega arith) (omega arith)) (before_mark single))
cut_name-marked c s o pointer (h, hs) = rw (has_bracket-marked s o pointer hs) (
    before_char-marked b'*' (c ∷ s) o pointer (no_star (c ∷ s) (h, hs))
      (optional_mark-lacks b'*' o (omega arith) (omega arith)) (before_mark pointer))

split_map-name :
    (di : MemberVariable) (c : ℕ) (s : Bytes)
    → c ≢ b'['
    → split_map di (c ∷ s) ≡ ok (record di { member = c ∷ s })
unfolding split_map
split_map-name di c s h = let other : (c == b'[') ≡ false = ground arith in rw other refl

all_before : (s : Bytes) → has_char b'!' s ≡ false → before_char b'!' s ≡ s
unfolding has_char before_char
all_before [] h = refl
all_before (c ∷ s) h = ground (arith, all_before s)

-- What a data item's row says, where it has a name and a type only.
abbrev pub member_of_row : Bytes → OptionalType → Shape → Bytes → MemberVariable
member_of_row name o shape type = record new_member {
  member = name;
  is_optional = o;
  is_array = is_array_shape shape;
  is_pointer = is_pointer_shape shape;
  type = type;
  is_string = text_eq type (codes "string");
}

-- A row with a marked name and a type is read as the member that it was written for: its name
-- without marks, optional or not, single, pointer or array, and its type. (The name has less than
-- 510 bytes and no mark of its own, the type less than 512 and no `!`.)
pub parse_member-marked :
    (c : ℕ) (name : Bytes) (o : OptionalType) (shape : Shape) (type : Bytes)
    → All IsNameByte (c ∷ name)
    → length (c ∷ name) < 510
    → length type < 512
    → has_char b'!' type ≡ false
    → parse_member c (marked name o shape) (type ∷ []) ≡ ok (member_of_row (c ∷ name) o shape type)
unfolding parse_member set_columns set_type init
parse_member-marked c name o shape type (h, hs) k kt ht =
    let cut = cut_name-marked c name o shape (h, hs) in
    let stripped = strip_marks-name 510 o (c ∷ name) (h, hs) k in
    let fits : leb 512 (length type) ≡ false = ground arith in
    let star = has_star-marked (c ∷ name) o shape (h, hs) in
    rw
      (
        cut,
        stripped,
        split_map-name (record new_member { is_optional = o }) c name h.1,
        has_bracket-marked name o shape hs,
        star,
        fits,
        ht,
        all_before type ht,
      )
      refl
