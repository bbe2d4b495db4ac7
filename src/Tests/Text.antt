-- ===== src/Tests/Text.antt =====
-- The theorems about the text helpers, the printer and the tables of type names at concrete inputs.
use schema_code_gen.Base.{
  ℕ, ◌+◌, ◌%◌, ◌^◌, ◌≡◌, ◌↔◌, refl, true, not, List, [], ◌∷◌, ◌++◌, All, none, some, arith, inl,
  inr, text_eq, Bytes, codes, length, replicate,
}
use schema_code_gen.CString.{isdigit, has_char}
use schema_code_gen.Outcome.{ok, fault, null_read}
use schema_code_gen.Printer.Column.{landing, pad_from-landing}
use schema_code_gen.Printer.Lines.{Line, IsLine, render, print_lines, print_lines-render}
use schema_code_gen.Printer.Save.{saved, finalize-saved}
use schema_code_gen.Printer.{CodePrinter, content, new_printer, pad_from, finalize}
use schema_code_gen.StringHelper.Chars.{is_whitespace}
use schema_code_gen.StringHelper.Hex.Rounds.{hex_readers-get_hex_text}
use schema_code_gen.StringHelper.Hex.Value.{IsHexDigit, spelled, get_hex_text-spelled}
use schema_code_gen.StringHelper.Hex.{get_hex1, get_hex2, get_hex4, get_hex_text}
use schema_code_gen.StringHelper.Search.{stristr, first_place, stristr-first_place}
use schema_code_gen.StringHelper.Vector.NullRead.{get3_null_read}
use schema_code_gen.StringHelper.Vector.Uint3.{IsDecimal, number, three_numbers, get_uint3-numbers}
use schema_code_gen.StringHelper.Vector.{FloatOps, get_uint3, get_vec3}
use schema_code_gen.TypeNames.Tables.{
  spelling, get_standard_type_iff, is_plain, is_standard_type-get_standard_type, cpp_of,
  get_cpp_type_string-cpp_of, proto_of, get_proto_type_string-proto_of, getter_of, is_integer,
  has_reader, is_unreadable, deserialize_type_name_getters,
}
use schema_code_gen.TypeNames.{
  u32, get_standard_type, is_standard_type, get_cpp_type_string, get_proto_type_string,
  deserialize_type_name,
}

abbrev two_lines : List Line
two_lines =
    record { indent = 0; text = codes "struct A {\n" }
    ∷ record { indent = 1; text = codes "int b;\n" }
    ∷ []

two_lines-IsLine : All IsLine two_lines
unfolding has_char
two_lines-IsLine = (
  record { indent_fits = omega arith; text_fits = omega arith; has_linefeed = refl },
  (record { indent_fits = omega arith; text_fits = omega arith; has_linefeed = refl }, tt),
)

print_lines-render_example :
    (print_lines two_lines (new_printer (codes "a.h"))).output ≡ [] ++ render two_lines
print_lines-render_example =
    print_lines-render two_lines (new_printer (codes "a.h")) two_lines-IsLine refl

pad_from-landing_example : 5 + length (pad_from 3 5) ≡ landing 3 5
pad_from-landing_example = pad_from-landing 3 5 (omega arith)

abbrev printed : CodePrinter
printed = record (new_printer (codes "a.h")) { output = codes "int b;\n" }

finalize-saved_example :
    (saved (content (codes "int")) (finalize printed (content (codes "int"))).1
      ≡ content (codes "int b;\n"))
    × (((finalize printed (content (codes "int"))).1 ≡ none)
        ↔ (content (codes "int") ≡ content (codes "int b;\n")))
finalize-saved_example = finalize-saved printed (content (codes "int")) (λ e. cc) (λ e. cc)

get_uint3-numbers_example :
    get_uint3 (some (three_numbers b'1' [] b' ' b'2' [] b' ' b'3' (codes "0") [])) none
    ≡ ok (true, (number 0 (codes "1"), number 0 (codes "2"), number 0 (codes "30")), some [])
unfolding isdigit is_whitespace
get_uint3-numbers_example =
    get_uint3-numbers b'1' [] b' ' b'2' [] b' ' b'3' (codes "0") [] none (refl, tt) (refl, tt)
      (refl, (refl, tt)) (omega arith, omega arith, omega arith)
      (omega arith, omega arith, omega arith) refl refl tt

-- Natural numbers in the place of floats.
abbrev counts : FloatOps
counts = record {
  Float = ℕ;
  zero_float = 0;
  one_float = 1;
  flt_max = 9;
  flt_min = 2;
  from_bits = λ b. b;
  atof = length;
}

abbrev ones : Bytes
ones = replicate 30 b'1'

ones-IsDecimal : All IsDecimal (b'1' ∷ ones)
unfolding isdigit
ones-IsDecimal = ground arith

get3_null_read_example :
    (get_uint3 (some (b'1' ∷ (ones ++ codes " 2 3"))) none ≡ fault null_read)
    × (get_vec3 counts (some (b'1' ∷ (ones ++ codes " 2 3"))) none ≡ fault null_read)
get3_null_read_example =
    get3_null_read counts b'1' ones (codes " 2 3") none ones-IsDecimal (omega arith)

ff-IsHexDigit : All IsHexDigit (codes "fF")
ff-IsHexDigit = (
  (15, inr (inl (refl, omega arith, omega arith))),
  ((15, inr (inr (refl, omega arith, omega arith))), tt),
)

get_hex_text-spelled_example :
    get_hex_text (codes "fF" ++ codes " 1")
    ≡ (spelled 0 (codes "fF") ff-IsHexDigit % 2 ^ 32, codes " 1")
get_hex_text-spelled_example =
    get_hex_text-spelled (codes "fF") ff-IsHexDigit (codes " 1") (λ v h. ground arith)

hex_readers-get_hex_text_example :
    (get_hex1 (codes "12aF0c9E7") ≡ ok (get_hex_text (codes "12")).0)
    × (get_hex2 (codes "12aF0c9E7") ≡ ok (get_hex_text (codes "12aF")).0)
    × (get_hex4 (codes "12aF0c9E7") ≡ ok (get_hex_text (codes "12aF0c9E")).0)
hex_readers-get_hex_text_example =
    hex_readers-get_hex_text b'1' b'2' b'a' b'F' b'0' b'c' b'9' b'E' (codes "7") (
      (1, inl (refl, omega arith)),
      (
        (2, inl (refl, omega arith)),
        (
          (10, inr (inl (refl, omega arith, omega arith))),
          (
            (15, inr (inr (refl, omega arith, omega arith))),
            (
              (0, inl (refl, omega arith)),
              (
                (12, inr (inl (refl, omega arith, omega arith))),
                (
                  (9, inl (refl, omega arith)),
                  ((14, inr (inr (refl, omega arith, omega arith))), tt),
                ),
              ),
            ),
          ),
        ),
      ),
    )

stristr-first_place_example :
    stristr (codes "a big Bag") (codes "BAG") ≡ first_place (codes "BAG") (codes "a big Bag")
stristr-first_place_example = stristr-first_place (codes "a big Bag") (codes "BAG") (λ e. cc)

-- The place is found, and behind it the rest of the text.
found_place : first_place (codes "BAG") (codes "a big Bag") ≡ some (codes "Bag")
found_place = refl

get_standard_type_iff_example :
    (get_standard_type (codes "u32") ≡ u32) ↔ (codes "u32" ≡ spelling u32)
get_standard_type_iff_example = get_standard_type_iff (codes "u32") u32 (λ e. cc)

is_standard_type-get_standard_type_example :
    is_standard_type (codes "u32") ≡ is_plain (get_standard_type (codes "u32"))
is_standard_type-get_standard_type_example = is_standard_type-get_standard_type (codes "u32")

get_cpp_type_string-cpp_of_example :
    get_cpp_type_string (codes "u32") true
    ≡ cpp_of (get_standard_type (codes "u32")) (codes "u32") true
get_cpp_type_string-cpp_of_example = get_cpp_type_string-cpp_of (codes "u32") true

get_proto_type_string-proto_of_example :
    get_proto_type_string (codes "u16") ≡ proto_of (get_standard_type (codes "u16")) (codes "u16")
get_proto_type_string-proto_of_example = get_proto_type_string-proto_of (codes "u16")

deserialize_type_name_getters_example :
    (deserialize_type_name (get_standard_type (codes "u16")) ≡ (
      some (getter_of (get_standard_type (codes "u16")) (codes "u16")),
      is_integer (get_standard_type (codes "u16")),
    ))
    × (has_reader (deserialize_type_name (get_standard_type (codes "u16"))).0
        ≡ not (is_unreadable (get_standard_type (codes "u16"))))
unfolding get_standard_type text_eq
deserialize_type_name_getters_example = deserialize_type_name_getters (codes "u16") (λ e. cc)
