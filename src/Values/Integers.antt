-- ===== src/Values/Integers.antt =====
-- The default values of integer members in src/CreateDOM.cpp.
use schema_code_gen.Base.{
  ◌^◌, ◌<◌, ◌≡◌, refl, ap, subst, ◌∙◌, Bool, true, false, ◌++◌, [], ◌∷◌, Option, none, some, Bytes,
  codes, text_eq,
}
use schema_code_gen.Base.Int.{ℤ, pos, negsuc}
use schema_code_gen.CString.Decimal.{IsLong, strtoll-print_int, strtoull-print_nat}
use schema_code_gen.CString.Numbers.{strtoll, strtoull, print_nat, print_int}
use schema_code_gen.Dom.{MemberVariable, Dom}
use schema_code_gen.TypeNames.Tables.{spelling, integer_shape}
use schema_code_gen.TypeNames.{StandardType, u64, u32, u16, u8, i64, i32, i16, i8}
use schema_code_gen.Values.Kinds.{
  ValueKind, signed_integer, unsigned_integer, type_kind, value_kind, signed_text, unsigned_text,
}
use schema_code_gen.Values.{
  FloatStream, python_value, cpp_value, get_python_arg_def, get_cpp_value_initializer,
  get_cpp_r_value, r_value,
}

abbrev kind_of : Bool → ValueKind
kind_of true = signed_integer
kind_of false = unsigned_integer

-- The numbers that `long long` and `unsigned long long` hold.
abbrev pub Fits : Bool → ℤ → Type 0
Fits true z = IsLong z
Fits false (pos n) = n < 2 ^ 64
Fits false (negsuc n) = ⊥

-- The kind of a type is the one that its shape tells, if it has one.
abbrev OfShape : ValueKind → Option (Bool × Bytes) → Type 0
OfShape k none = Unit
OfShape k (some (is_signed, width)) = k ≡ kind_of is_signed

type_kind-OfShape : (t : StandardType) → OfShape (type_kind (spelling t)) (integer_shape t)
unfolding type_kind text_eq
type_kind-OfShape u64 = refl
type_kind-OfShape u32 = refl
type_kind-OfShape u16 = refl
type_kind-OfShape u8 = refl
type_kind-OfShape i64 = refl
type_kind-OfShape i32 = refl
type_kind-OfShape i16 = refl
type_kind-OfShape i8 = refl
type_kind-OfShape _ = tt

type_kind-spelling :
    (t : StandardType) (is_signed : Bool) (width : Bytes)
    → integer_shape t ≡ some (is_signed, width)
    → type_kind (spelling t) ≡ kind_of is_signed
type_kind-spelling t is_signed width e =
    subst (OfShape (type_kind (spelling t))) e (type_kind-OfShape t)

signed_text-strtoll : (s : Bytes) → signed_text s ≡ print_int (strtoll s)
unfolding signed_text strtoll
signed_text-strtoll [] = refl
signed_text-strtoll (c ∷ s) = refl

unsigned_text-strtoull : (s : Bytes) → unsigned_text s ≡ print_nat (strtoull s)
unfolding unsigned_text strtoull
unsigned_text-strtoull [] = refl
unsigned_text-strtoull (c ∷ s) = refl

abbrev integer_text : Bool → Bytes → Bytes
integer_text true s = signed_text s
integer_text false s = unsigned_text s

integer_text-print_int :
    (is_signed : Bool) (z : ℤ)
    → Fits is_signed z
    → integer_text is_signed (print_int z) ≡ print_int z
unfolding print_int
integer_text-print_int true z h =
    signed_text-strtoll (print_int z) ∙ ap print_int (strtoll-print_int z h)
integer_text-print_int false (pos n) h =
    unsigned_text-strtoull (print_nat n) ∙ ap print_nat (strtoull-print_nat n h)
integer_text-print_int false (negsuc n) h = absurd h

-- The value of a member that is no array and whose type is of a known kind.
value_kind-type :
    (v : MemberVariable) (k : ValueKind)
    → v.is_array ≡ false
    → type_kind v.type ≡ k
    → value_kind v ≡ k
value_kind-type v k e g = rw (e) g

cpp_value-kind_of :
    (f : FloatStream) (is_signed : Bool) (v : MemberVariable) (d : Dom)
    → cpp_value f (kind_of is_signed) v d ≡ integer_text is_signed v.default_value
unfolding cpp_value
cpp_value-kind_of f true v d = refl
cpp_value-kind_of f false v d = refl

python_value-kind_of :
    (f : FloatStream) (is_signed : Bool) (v : MemberVariable) (d : Dom)
    → python_value f (kind_of is_signed) v d ≡ integer_text is_signed v.default_value
unfolding python_value
python_value-kind_of f true v d = refl
python_value-kind_of f false v d = refl

r_value-kind_of :
    (f : FloatStream) (is_signed : Bool) (v : MemberVariable) (d : Dom) (is_def : Bool)
    → r_value f (kind_of is_signed) v d is_def ≡ get_cpp_value_initializer f v d
r_value-kind_of f true v d is_def = refl
r_value-kind_of f false v d is_def = refl

-- A member of an integer type, no array, whose default value is a number in decimal that 64 bits
-- hold with the type's sign, keeps the text of the number: as the initializer and the r-value in
-- C++, and behind the member's name in Python.
pub integer_default_kept :
    (f : FloatStream) (v : MemberVariable) (d : Dom) (is_def : Bool) (t : StandardType)
    (is_signed : Bool) (width : Bytes) (z : ℤ)
    → v.is_array ≡ false
    → v.type ≡ spelling t
    → integer_shape t ≡ some (is_signed, width)
    → Fits is_signed z
    → v.default_value ≡ print_int z
    → (get_cpp_value_initializer f v d ≡ print_int z)
      × (get_cpp_r_value f v d is_def ≡ print_int z)
      × (get_python_arg_def f v d ≡ v.member ++ codes "=" ++ print_int z)
unfolding get_cpp_value_initializer get_cpp_r_value get_python_arg_def
integer_default_kept f v d is_def t is_signed width z single named shape fits default =
    let kind : value_kind v ≡ kind_of is_signed =
      value_kind-type v (kind_of is_signed) single
        (ap type_kind named ∙ type_kind-spelling t is_signed width shape) in
    let kept : integer_text is_signed v.default_value ≡ print_int z =
      ap (integer_text is_signed) default ∙ integer_text-print_int is_signed z fits in
    let initial : get_cpp_value_initializer f v d ≡ print_int z =
      ap (λ k. cpp_value f k v d) kind ∙ cpp_value-kind_of f is_signed v d ∙ kept in
    (
      initial,
      ap (λ k. r_value f k v d is_def) kind ∙ r_value-kind_of f is_signed v d is_def ∙ initial,
      ap (λ k. v.member ++ codes "=" ++ python_value f k v d) kind
          ∙ ap (λ s. v.member ++ codes "=" ++ s) (python_value-kind_of f is_signed v d ∙ kept),
    )
