-- ===== src/Save/Files/Around.antt =====
-- The braces of the calls that src/CreateDOM.cpp makes around those of the objects.
use schema_code_gen.Base.{ℕ, suc, ◌≡◌, refl, some}
use schema_code_gen.Emit.Depth.{depth}
use schema_code_gen.Emit.Nested.{entries_depth}
use schema_code_gen.Emit.{expand_from}
use schema_code_gen.Save.Files.Calls.{
  header_begin, declare_unstringify, source_begin, serializer_begin, header_end, source_end,
}
use schema_code_gen.Save.Files.Deserializer.{string_to_int, deserializer_begin, deserializer_header}

pub header_begin_depth : (d : ℕ) → entries_depth d header_begin ≡ some (suc d)
unfolding header_begin depth expand_from
header_begin_depth d = refl

pub unstringify_depth : (d : ℕ) → entries_depth d declare_unstringify ≡ some d
unfolding declare_unstringify depth expand_from
unstringify_depth d = refl

pub source_begin_depth : (d : ℕ) → entries_depth d source_begin ≡ some (suc d)
unfolding source_begin depth expand_from
source_begin_depth d = refl

pub serializer_depth : (d : ℕ) → entries_depth d serializer_begin ≡ some d
unfolding serializer_begin depth expand_from
serializer_depth d = refl

pub header_end_depth : (d : ℕ) → entries_depth (suc d) header_end ≡ some d
unfolding header_end depth expand_from
header_end_depth d = refl

pub source_end_depth : (d : ℕ) → entries_depth (suc d) source_end ≡ some d
unfolding source_end depth expand_from
source_end_depth d = refl

pub string_to_int_depth : (d : ℕ) → entries_depth d string_to_int ≡ some d
unfolding string_to_int depth expand_from
string_to_int_depth d = refl

pub deserializer_depth : (d : ℕ) → entries_depth d deserializer_begin ≡ some d
unfolding deserializer_begin depth expand_from
deserializer_depth d = refl

pub deserializer_header_depth : (d : ℕ) → entries_depth d deserializer_header ≡ some d
unfolding deserializer_header depth expand_from
deserializer_header_depth d = refl
