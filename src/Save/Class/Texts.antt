-- ===== src/Save/Class/Texts.antt =====
-- The arguments of src/CreateDOM.cpp's calls for the fields of a class, where nothing has braces.
use schema_code_gen.Base.{
  refl, Bool, true, false, ◌++◌, [], ◌∷◌, arith, Bytes, codes, All-append, take, text_eq,
  if◌then◌else◌,
}
use schema_code_gen.CString.{truncate}
use schema_code_gen.Dom.{MemberVariable, Dom}
use schema_code_gen.Emit.Depth.{IsBraceless, if-IsBraceless}
use schema_code_gen.Emit.Nested.{IsBracelessSlot}
use schema_code_gen.Rows.Marks.{take-IsBraceless}
use schema_code_gen.Save.Braceless.{
  IsBracelessMember, braceless-IsBraceless, get_cpp_type_string-IsBraceless,
}
use schema_code_gen.Save.Class.Fields.{
  get_member_name, is_named, key_text, upper_first, vector_name, field_name, compared_name,
  bare_name, reference_type, value_type, item_base, no_text, r_value_text, initializer,
  container_type, upper_type, key_type, field_comment, field_slot,
}
use schema_code_gen.StringHelper.Chars.{upcase}
use schema_code_gen.TypeNames.{get_cpp_type_string}
use schema_code_gen.Values.Plain.{IsPlain, initializer-IsBraceless, r_value_text-IsBraceless}
use schema_code_gen.Values.{FloatStream}

get_member_name-IsBraceless :
    (name : Bytes) (is_map : Bool) → IsBraceless name → IsBraceless (get_member_name name is_map)
unfolding get_member_name truncate
get_member_name-IsBraceless name is_map h =
    if-IsBraceless is_map (take 511 (codes "_" ++ name)) name
      (take-IsBraceless 511 (codes "_" ++ name)
        (All-append _ (codes "_") name (braceless-IsBraceless (codes "_") refl) h))
      h

key_text-IsBraceless : (s : Bytes) → IsBraceless s → IsBraceless (key_text s)
key_text-IsBraceless s h =
    if-IsBraceless (text_eq s (codes "string")) (codes "std::string") s
      (braceless-IsBraceless (codes "std::string") refl) h

upper_first-IsBraceless : (s : Bytes) → IsBraceless s → IsBraceless (upper_first s)
unfolding upcase
upper_first-IsBraceless [] h = tt
upper_first-IsBraceless (c ∷ s) (hc, h) = (ground arith, h)

-- Text between two texts that are written out.
around-IsBraceless :
    (s t u : Bytes) → IsBraceless s → IsBraceless t → IsBraceless u → IsBraceless (s ++ t ++ u)
around-IsBraceless s t u hs ht hu = All-append _ (s ++ t) u (All-append _ s t hs ht) hu

vector_name-IsBraceless : (i : MemberVariable) → IsBracelessMember i → IsBraceless (vector_name i)
unfolding vector_name truncate
vector_name-IsBraceless i h =
    let type = get_cpp_type_string i.type false in
    let plain = get_cpp_type_string-IsBraceless i.type false h.type in
    let vector =
      if is_named i
      then codes ", std::vector< " ++ type ++ codes ">>"
      else codes ", " ++ type ++ codes ">" in
    let map = codes "std::unordered_map<" ++ key_text i.map_type ++ vector in
    let list = codes "std::vector< " ++ type ++ codes ">" in
    take-IsBraceless 511 (if i.is_map then map else list) (
      if-IsBraceless i.is_map map list
        (around-IsBraceless (codes "std::unordered_map<") (key_text i.map_type) vector
          (braceless-IsBraceless (codes "std::unordered_map<") refl)
          (key_text-IsBraceless i.map_type h.map_type)
          (if-IsBraceless (is_named i) (codes ", std::vector< " ++ type ++ codes ">>")
            (codes ", " ++ type ++ codes ">")
            (around-IsBraceless (codes ", std::vector< ") type (codes ">>")
              (braceless-IsBraceless (codes ", std::vector< ") refl) plain
              (braceless-IsBraceless (codes ">>") refl))
            (around-IsBraceless (codes ", ") type (codes ">")
              (braceless-IsBraceless (codes ", ") refl) plain
              (braceless-IsBraceless (codes ">") refl))))
        (around-IsBraceless (codes "std::vector< ") type (codes ">")
          (braceless-IsBraceless (codes "std::vector< ") refl) plain
          (braceless-IsBraceless (codes ">") refl)))

pub field_slot-IsBraceless :
    (f : FloatStream) (d : Dom) (i : MemberVariable)
    → IsPlain f
    → IsBracelessMember i
    → IsBracelessSlot (field_slot f d i)
unfolding field_slot
field_slot-IsBraceless f d i p h field_name = get_member_name-IsBraceless i.member i.is_map h.member
field_slot-IsBraceless f d i p h compared_name =
    if-IsBraceless i.is_map (codes "_" ++ i.member) i.member
      (All-append _ (codes "_") i.member (braceless-IsBraceless (codes "_") refl) h.member) h.member
field_slot-IsBraceless f d i p h bare_name = h.member
field_slot-IsBraceless f d i p h reference_type =
    get_cpp_type_string-IsBraceless i.type false h.type
field_slot-IsBraceless f d i p h value_type = get_cpp_type_string-IsBraceless i.type true h.type
field_slot-IsBraceless f d i p h item_base = h.inherits_from
field_slot-IsBraceless f d i p h no_text = tt
field_slot-IsBraceless f d i p h r_value_text = r_value_text-IsBraceless f p i d h
field_slot-IsBraceless f d i p h initializer = initializer-IsBraceless f p i d h
field_slot-IsBraceless f d i p h container_type = vector_name-IsBraceless i h
field_slot-IsBraceless f d i p h upper_type = upper_first-IsBraceless i.type h.type
field_slot-IsBraceless f d i p h key_type = key_text-IsBraceless i.map_type h.map_type
field_slot-IsBraceless f d i p h field_comment = h.short_description
