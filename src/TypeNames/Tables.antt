-- ===== src/TypeNames/Tables.antt =====
-- The tables of type names agree with one another.
use schema_code_gen.Base.{
  Bool, true, false, not, ◌&&◌, ◌||◌, ◌≡◌, ◌≢◌, ◌↔◌, refl, ap, sym, subst, Bytes, [], codes,
  text_eq, text_eq_iff, arith, Option, some, none, ◌++◌, if◌then◌else◌, ◌⊎◌, inl, inr, Bool-cases,
  List, ◌∷◌, ◌∙◌,
}
use schema_code_gen.StringHelper.Chars.{upcase}
use schema_code_gen.TypeNames.{
  StandardType, not_standard, u64, u32, u16, u8, i64, i32, i16, i8, float_type, double_type,
  bool_type, string_type, get_standard_type, is_standard_type, get_cpp_type_string,
  get_proto_type_string, deserialize_type_name,
}

-- How a schema spells a standard type.
abbrev pub spelling : StandardType → Bytes
spelling not_standard = []
spelling u64 = codes "u64"
spelling u32 = codes "u32"
spelling u16 = codes "u16"
spelling u8 = codes "u8"
spelling i64 = codes "i64"
spelling i32 = codes "i32"
spelling i16 = codes "i16"
spelling i8 = codes "i8"
spelling float_type = codes "float"
spelling double_type = codes "double"
spelling bool_type = codes "bool"
spelling string_type = codes "string"

get_standard_type-spelling : (t : StandardType) → get_standard_type (spelling t) ≡ t
unfolding get_standard_type text_eq
get_standard_type-spelling not_standard = refl
get_standard_type-spelling _ = refl

abbrev Spelled : Bytes → StandardType → Type 0
Spelled s t = (t ≡ not_standard) ⊎ (s ≡ spelling t)

if-Spelled :
    (s : Bytes) (t rest : StandardType)
    → Spelled s rest
    → Spelled s (if text_eq s (spelling t) then t else rest)
if-Spelled s t rest h = elim (Bool-cases (text_eq s (spelling t))) [
  | inl same ↦ rw same (inr ((text_eq_iff s (spelling t)).0 same))
  | inr differs ↦ rw differs h
]

get_standard_type-Spelled : (s : Bytes) → Spelled s (get_standard_type s)
unfolding get_standard_type
get_standard_type-Spelled s = if-Spelled s u64 _ (
    if-Spelled s u32 _ (
      if-Spelled s u16 _ (
        if-Spelled s u8 _ (
          if-Spelled s i64 _ (
            if-Spelled s i32 _ (
              if-Spelled s i16 _ (
                if-Spelled s i8 _ (
                  if-Spelled s float_type _ (
                    if-Spelled s double_type _
                      (if-Spelled s bool_type _ (if-Spelled s string_type _ (inl refl))))))))))))

-- A name is read as a standard type exactly when it is that type's spelling.
pub get_standard_type_iff :
    (s : Bytes) (t : StandardType) → t ≢ not_standard → (get_standard_type s ≡ t) ↔ (s ≡ spelling t)
get_standard_type_iff s t h = (
  (λ e. elim (get_standard_type-Spelled s) [
    | inl unknown ↦ absurd (h (sym e ∙ unknown))
    | inr spelled ↦ spelled ∙ ap spelling e
  ]),
  (λ e. rw e (get_standard_type-spelling t)),
)

abbrev pub is_plain : StandardType → Bool
is_plain not_standard = false
is_plain string_type = false
is_plain _ = true

-- `isStandardType` accepts exactly the standard types other than the string.
pub is_standard_type-get_standard_type :
    (s : Bytes) → is_standard_type s ≡ is_plain (get_standard_type s)
unfolding is_standard_type get_standard_type
is_standard_type-get_standard_type s = ground arith

-- Whether an integer type is signed, and its width in decimal.
abbrev pub integer_shape : StandardType → Option (Bool × Bytes)
integer_shape u64 = some (false, codes "64")
integer_shape u32 = some (false, codes "32")
integer_shape u16 = some (false, codes "16")
integer_shape u8 = some (false, codes "8")
integer_shape i64 = some (true, codes "64")
integer_shape i32 = some (true, codes "32")
integer_shape i16 = some (true, codes "16")
integer_shape i8 = some (true, codes "8")
integer_shape _ = none

abbrev pub int_word : Bool → Bytes
int_word signed = if signed then codes "int" else codes "uint"

abbrev pub cpp_of : StandardType → Bytes → Bool → Bytes
cpp_of string_type type is_def = if is_def then codes "std::string" else codes "const char *"
cpp_of t type is_def = elim (integer_shape t) [
  | none ↦ type
  | some (signed, width) ↦ int_word signed ++ width ++ codes "_t"
]

abbrev pub proto_width : Bytes → Bytes
proto_width width = if text_eq width (codes "64") then codes "64" else codes "32"

abbrev pub proto_of : StandardType → Bytes → Bytes
proto_of t type = elim (integer_shape t) [
  | none ↦ type
  | some (signed, width) ↦ int_word signed ++ proto_width width
]

-- A statement about type names holds if it holds of each spelling and of each unknown name.
by_standard_type :
    (P : Bytes → Type 0)
    → ((t : StandardType) → P (spelling t))
    → ((s : Bytes) → get_standard_type s ≡ not_standard → P s)
    → (s : Bytes) → P s
by_standard_type P known unknown s = elim (get_standard_type-Spelled s) [
  | inl e ↦ unknown s e
  | inr e ↦ subst P (sym e) (known (get_standard_type s))
]

cpp-spelling :
    (is_def : Bool) (t : StandardType)
    → get_cpp_type_string (spelling t) is_def
      ≡ cpp_of (get_standard_type (spelling t)) (spelling t) is_def
unfolding get_cpp_type_string get_standard_type text_eq
cpp-spelling is_def not_standard = refl
cpp-spelling is_def _ = refl

cpp_unknown :
    (is_def : Bool) (s : Bytes)
    → get_standard_type s ≡ not_standard
    → get_cpp_type_string s is_def ≡ cpp_of (get_standard_type s) s is_def
unfolding get_cpp_type_string get_standard_type
cpp_unknown is_def s e = ground arith

-- The C++ name of an integer type is its sign and its width, `string` has two C++ names, and every
-- other name, known or not, is passed on as it is.
pub get_cpp_type_string-cpp_of :
    (s : Bytes) (is_def : Bool)
    → get_cpp_type_string s is_def ≡ cpp_of (get_standard_type s) s is_def
get_cpp_type_string-cpp_of s is_def =
    by_standard_type (λ s. get_cpp_type_string s is_def ≡ cpp_of (get_standard_type s) s is_def)
      (cpp-spelling is_def) (cpp_unknown is_def) s

proto-spelling :
    (t : StandardType)
    → get_proto_type_string (spelling t) ≡ proto_of (get_standard_type (spelling t)) (spelling t)
unfolding get_proto_type_string get_standard_type text_eq
proto-spelling not_standard = refl
proto-spelling _ = refl

proto_unknown :
    (s : Bytes)
    → get_standard_type s ≡ not_standard
    → get_proto_type_string s ≡ proto_of (get_standard_type s) s
unfolding get_proto_type_string get_standard_type
proto_unknown s e = ground arith

-- The protobuf name of an integer type is its sign and its width, raised to 32 bits at least, and
-- every other name is passed on as it is.
pub get_proto_type_string-proto_of :
    (s : Bytes) → get_proto_type_string s ≡ proto_of (get_standard_type s) s
get_proto_type_string-proto_of s =
    by_standard_type (λ s. get_proto_type_string s ≡ proto_of (get_standard_type s) s)
      proto-spelling proto_unknown s

abbrev pub is_integer : StandardType → Bool
is_integer t = elim (integer_shape t) [ none ↦ false | some _ ↦ true ]

-- The names of the methods of a parsed JSON value that the generated reader may call.
abbrev reader_methods : List Bytes
reader_methods =
    codes "GetInt"
    ∷ codes "GetUint"
    ∷ codes "GetInt64"
    ∷ codes "GetUint64"
    ∷ codes "GetFloat"
    ∷ codes "GetDouble"
    ∷ codes "GetBool"
    ∷ codes "GetString"
    ∷ []

abbrev lists : List Bytes → Bytes → Bool
lists [] s = false
lists (m ∷ ms) s = text_eq m s || lists ms s

abbrev pub has_reader : Option Bytes → Bool
has_reader none = false
has_reader (some s) = lists reader_methods s

abbrev pub capitalised : Bytes → Bytes
capitalised [] = []
capitalised (c ∷ s) = upcase c ∷ s

-- The unsigned getter of 32 bits has no width in its name.
abbrev pub getter_width : Bool → Bytes → Bytes
getter_width signed width = if not signed && text_eq width (codes "32") then [] else width

abbrev pub getter_of : StandardType → Bytes → Bytes
getter_of t type = codes "Get" ++ elim (integer_shape t) [
  | none ↦ capitalised type
  | some (signed, width) ↦ capitalised (int_word signed) ++ getter_width signed width
]

-- The JSON library has methods for 64 bits, and for 32 bits where the name is without a width.
abbrev pub is_unreadable : StandardType → Bool
is_unreadable t = elim (integer_shape t) [
  | none ↦ false
  | some (signed, width) ↦
      not (text_eq width (codes "64")) && (signed || not (text_eq width (codes "32")))
]

abbrev Getters : Bytes → Type 0
Getters s =
    (deserialize_type_name (get_standard_type s)
      ≡ (some (getter_of (get_standard_type s) s), is_integer (get_standard_type s)))
    × (has_reader (deserialize_type_name (get_standard_type s)).0
        ≡ not (is_unreadable (get_standard_type s)))

Getters-spelling :
    (t : StandardType) → get_standard_type (spelling t) ≢ not_standard → Getters (spelling t)
unfolding deserialize_type_name get_standard_type text_eq upcase
Getters-spelling not_standard h = absurd (h refl)
Getters-spelling _ h = (refl, refl)

-- The getter of a standard type's name is `Get` and, for an integer type, its sign, capitalised, and
-- its width, where `GetUint` stands for 32 bits without a sign; for any other type it is `Get` and the
-- name, capitalised. It counts as numeric exactly for an integer type. It is a method of the JSON
-- library unless the type is an integer type of less than 32 bits or signed of 32 bits, for which
-- the generated code calls a method that does not exist.
pub deserialize_type_name_getters :
    (s : Bytes)
    → get_standard_type s ≢ not_standard
    → (deserialize_type_name (get_standard_type s)
        ≡ (some (getter_of (get_standard_type s) s), is_integer (get_standard_type s)))
      × (has_reader (deserialize_type_name (get_standard_type s)).0
          ≡ not (is_unreadable (get_standard_type s)))
deserialize_type_name_getters s =
    by_standard_type (λ s. get_standard_type s ≢ not_standard → Getters s) Getters-spelling
      (λ s e h. absurd (h e)) s
