-- ===== src/Tests/Values.antt =====
-- The theorems about default values and decimal numbers at concrete inputs.
use schema_code_gen.Base.{◌≡◌, refl, true, ◌++◌, [], ◌∷◌, arith, Bytes, codes, text_eq}
use schema_code_gen.Base.Int.{negsuc}
use schema_code_gen.CString.Numbers.{print_int}
use schema_code_gen.Dom.{MemberVariable, new_member, new_dom}
use schema_code_gen.TypeNames.{i16}
use schema_code_gen.Values.Integers.{integer_default_kept}
use schema_code_gen.Values.{
  FloatStream, get_python_arg_def, get_cpp_value_initializer, get_cpp_r_value,
}

-- Floats as the texts they are printed as.
abbrev texts : FloatStream
texts = record {
  Float = Bytes;
  Double = Bytes;
  zero_float = codes "0.00000";
  one_float = codes "1.00000";
  flt_max = codes "3.40282e+38";
  flt_min = codes "1.17549e-38";
  strtof = λ s. s;
  zero_double = codes "0.00000";
  widen = λ s. s;
  strtod = λ s. s;
  scan_floats = λ n s. s ∷ [];
  print_float = λ s. s;
  print_double = λ s. s;
}

abbrev typed : Bytes → Bytes → MemberVariable
typed type default = record new_member { member = codes "m"; type = type; default_value = default }

abbrev port : MemberVariable
port = typed (codes "i16") (print_int (negsuc 41))

port_text : port.default_value ≡ codes "-42"
unfolding print_int
port_text = refl

integer_default_kept_example :
    (get_cpp_value_initializer texts port new_dom ≡ print_int (negsuc 41))
    × (get_cpp_r_value texts port new_dom true ≡ print_int (negsuc 41))
    × (get_python_arg_def texts port new_dom ≡ codes "m" ++ codes "=" ++ print_int (negsuc 41))
integer_default_kept_example =
    integer_default_kept texts port new_dom true i16 true (codes "16") (negsuc 41) refl refl refl
      (omega arith) refl

-- A number in hexadecimal is printed in decimal, one that is too large as the largest.
hexadecimal :
    get_cpp_value_initializer texts (typed (codes "u8") (codes "0xFf")) new_dom ≡ codes "255"
unfolding get_cpp_value_initializer text_eq
hexadecimal = refl
