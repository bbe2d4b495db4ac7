-- ===== src/Save/Files/Nested.antt =====
-- The braces of the files that src/CreateDOM.cpp generates.
use schema_code_gen.Base.{refl, List, [], ◌∷◌, ◌++◌, All, codes}
use schema_code_gen.CString.{stricmp_eq}
use schema_code_gen.Dom.{Object, Dom}
use schema_code_gen.Emit.Depth.{depth, IsBraceless}
use schema_code_gen.Emit.Nested.{
  IsBracelessSlot, each, IsNested, IsNested-append, IsNested-between, IsNested-each, IsNested-fill,
  IsNested-if,
}
use schema_code_gen.Emit.{expand_from, empty_line, fill}
use schema_code_gen.Outcome.{Outcome, Ensures, bind-Ensures}
use schema_code_gen.Printer.Lines.{Line}
use schema_code_gen.Save.Braceless.{IsBracelessObject, object_slot-IsBraceless}
use schema_code_gen.Save.Class.Nested.{save_class-IsNested}
use schema_code_gen.Save.Class.{save_class}
use schema_code_gen.Save.Deserialize.Nested.{save_deserialize-IsNested}
use schema_code_gen.Save.Deserialize.{save_deserialize, save_deserialize_header}
use schema_code_gen.Save.Enums.Nested.{save_enum_functions-IsNested, save_enum_header-IsNested}
use schema_code_gen.Save.Enums.{save_enum_functions, save_enum_header}
use schema_code_gen.Save.Files.Around.{
  header_begin_depth, unstringify_depth, source_begin_depth, serializer_depth, header_end_depth,
  source_end_depth, string_to_int_depth, deserializer_depth, deserializer_header_depth,
}
use schema_code_gen.Save.Files.Calls.{
  file_url, file_name, file_namespace, file_slot, header_begin, declare_unstringify, source_begin,
  serializer_begin, header_end, source_end,
}
use schema_code_gen.Save.Files.Deserializer.{string_to_int, deserializer_begin, deserializer_header}
use schema_code_gen.Save.Files.{
  each_ok, enum_header, enum_functions, Sources, header_lines, source_lines, save_sources,
}
use schema_code_gen.Save.Script.Nested.{save_script-IsNested}
use schema_code_gen.Save.Script.{save_script}
use schema_code_gen.Save.Serialize.Nested.{save_serialize-IsNested}
use schema_code_gen.Save.Serialize.{save_serialize, serialize_declaration, save_serialize_header}
use schema_code_gen.Save.Slots.{object_slot}
use schema_code_gen.Values.Plain.{IsPlain}
use schema_code_gen.Values.{FloatStream}

each_ok-IsNested :
    (save : Object → Outcome (List Line))
    → ((o : Object) → IsBracelessObject o → Ensures IsNested (save o))
    → (os : List Object) → All IsBracelessObject os
    → Ensures IsNested (each_ok save os)
unfolding each_ok
each_ok-IsNested save k [] h = λ d. refl
each_ok-IsNested save k (o ∷ os) (ho, h) =
    bind-Ensures IsNested IsNested (save o) _ (k o ho) λ ls m.
      bind-Ensures IsNested IsNested (each_ok save os) _ (each_ok-IsNested save k os h)
        λ ms n. IsNested-append ls ms m n

-- A schema whose texts have no braces.
pub record IsBracelessDom (d : Dom) : Type 0 where
  pub namespace : IsBraceless d.namespace
  pub filename : IsBraceless d.filename
  pub url : IsBraceless d.url
  pub objects : All IsBracelessObject d.objects

file_slot-IsBraceless : (d : Dom) → IsBracelessDom d → IsBracelessSlot (file_slot d)
file_slot-IsBraceless d h file_url = h.url
file_slot-IsBraceless d h file_name = h.filename
file_slot-IsBraceless d h file_namespace = h.namespace

enum_header-IsNested : (o : Object) → IsBracelessObject o → IsNested (enum_header o)
enum_header-IsNested o h =
    IsNested-if (stricmp_eq o.type (codes "Enum")) (save_enum_header o) []
      (save_enum_header-IsNested o h) (λ d. refl)

enum_functions-IsNested : (o : Object) → IsBracelessObject o → IsNested (enum_functions o)
enum_functions-IsNested o h =
    IsNested-if (stricmp_eq o.type (codes "Enum")) (save_enum_functions o) []
      (save_enum_functions-IsNested o h) (λ d. refl)

serialize_header-IsNested : (o : Object) → IsBracelessObject o → IsNested (save_serialize_header o)
unfolding save_serialize_header depth expand_from
serialize_header-IsNested o h =
    IsNested-if o.is_enum [] _ (λ d. refl)
      (IsNested-fill (object_slot o) serialize_declaration (object_slot-IsBraceless o h)
        (λ d. refl))

deserialize_header-IsNested :
    (o : Object) → IsBracelessObject o → IsNested (save_deserialize_header o)
unfolding save_deserialize_header depth expand_from
deserialize_header-IsNested o h =
    IsNested-if o.is_enum [] _ (λ d. refl)
      (IsNested-fill (object_slot o) (empty_line ∷ []) (object_slot-IsBraceless o h) (λ d. refl))

each-IsNested :
    (save : Object → List Line) (d : Dom)
    → ((o : Object) → IsBracelessObject o → IsNested (save o))
    → IsBracelessDom d
    → IsNested (each save d.objects)
each-IsNested save d k h = IsNested-each IsBracelessObject save k d.objects h.objects

header_lines-IsNested :
    (d : Dom) (classes : List Line)
    → IsBracelessDom d
    → IsNested classes
    → IsNested (header_lines d classes)
unfolding header_lines
header_lines-IsNested d classes h k =
    let slots = file_slot-IsBraceless d h in
    let readers = each save_deserialize_header d.objects in
    let templates = fill (file_slot d) deserializer_header ++ readers in
    let writers = each save_serialize_header d.objects ++ templates in
    let enums = each enum_header d.objects ++ writers in
    let unstringify = fill (file_slot d) declare_unstringify in
    IsNested-between (file_slot d) header_begin header_end (classes ++ (unstringify ++ enums)) slots
      header_begin_depth header_end_depth
      (IsNested-append classes (unstringify ++ enums) k (
        IsNested-append unstringify enums
          (IsNested-fill (file_slot d) declare_unstringify slots unstringify_depth)
          (IsNested-append (each enum_header d.objects) writers
            (each-IsNested enum_header d enum_header-IsNested h)
            (IsNested-append (each save_serialize_header d.objects) templates
              (each-IsNested save_serialize_header d serialize_header-IsNested h)
              (IsNested-append (fill (file_slot d) deserializer_header) readers
                (IsNested-fill (file_slot d) deserializer_header slots deserializer_header_depth)
                (each-IsNested save_deserialize_header d deserialize_header-IsNested h))))))

source_lines-IsNested :
    (d : Dom) (writers readers : List Line)
    → IsBracelessDom d
    → IsNested writers
    → IsNested readers
    → IsNested (source_lines d writers readers)
unfolding source_lines
source_lines-IsNested d writers readers h kw kr =
    let slots = file_slot-IsBraceless d h in
    let parse = fill (file_slot d) deserializer_begin ++ readers in
    let read = fill (file_slot d) string_to_int ++ parse in
    let serialize = fill (file_slot d) serializer_begin ++ (writers ++ read) in
    IsNested-between (file_slot d) source_begin source_end
      (each enum_functions d.objects ++ serialize) slots source_begin_depth source_end_depth
      (IsNested-append (each enum_functions d.objects) serialize
        (each-IsNested enum_functions d enum_functions-IsNested h)
        (IsNested-append (fill (file_slot d) serializer_begin) (writers ++ read)
          (IsNested-fill (file_slot d) serializer_begin slots serializer_depth)
          (IsNested-append writers read kw (
            IsNested-append (fill (file_slot d) string_to_int) parse
              (IsNested-fill (file_slot d) string_to_int slots string_to_int_depth)
              (IsNested-append (fill (file_slot d) deserializer_begin) readers
                (IsNested-fill (file_slot d) deserializer_begin slots deserializer_depth) kr)))))

pub record IsNestedSources (s : Sources) : Type 0 where
  pub header : IsNested s.header
  pub source : IsNested s.source
  pub script : IsNested s.script

pub save_sources-IsNested :
    (f : FloatStream) (d : Dom)
    → IsPlain f
    → IsBracelessDom d
    → Ensures IsNestedSources (save_sources f d)
unfolding save_sources
save_sources-IsNested f d p h =
    bind-Ensures IsNested IsNestedSources (each_ok (save_class f d) d.objects) _
      (each_ok-IsNested (save_class f d) (save_class-IsNested f d p) d.objects h.objects)
      λ classes k.
        bind-Ensures IsNested IsNestedSources (each_ok (save_serialize d.objects) d.objects) _
          (each_ok-IsNested (save_serialize d.objects) (save_serialize-IsNested d.objects) d.objects
            h.objects)
          λ writers kw.
            bind-Ensures IsNested IsNestedSources (each_ok (save_deserialize d.objects) d.objects) _
              (each_ok-IsNested (save_deserialize d.objects) (save_deserialize-IsNested d.objects)
                d.objects h.objects)
              λ readers kr. record {
                header = header_lines-IsNested d classes h k;
                source = source_lines-IsNested d writers readers h kw kr;
                script = each-IsNested save_script d save_script-IsNested h;
              }
