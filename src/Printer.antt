-- ===== src/Printer.antt =====
-- `CodePrinter` of src/CreateDOM.cpp: generated text with indentation, kept in memory and written
-- when the file on disk differs. A format with its arguments is here the text that it expands to.
pub mod Column
pub mod Lines
pub mod Joined
pub mod Save
use schema_code_gen.Base.{
  ℕ, ◌+◌, ◌-◌, ◌*◌, ◌/◌, ◌%◌, ◌^◌, Bool, true, false, not, List, [], ◌∷◌, ◌++◌, Option, none, some,
  Bytes, length, replicate, text_eq, ltb, ◌==◌, if◌then◌else◌,
}
use schema_code_gen.CString.{has_char, truncate}
use schema_code_gen.Dom.{is_empty}

pub record CodePrinter : Type 0 where
  pub last_line_feed : ℕ
  pub output : Bytes
  pub dest_file_name : Bytes
  pub finalized : Bool

abbrev pub new_printer : Bytes → CodePrinter
new_printer dest = record {
  last_line_feed = 0;
  output = [];
  dest_file_name = dest;
  finalized = false;
}

abbrev pub spaces : ℕ → Bytes
spaces n = replicate n b' '

-- The padding in front of a text with indentation, from the current column on: to the "next tab",
-- then by whole tabs; one space where the column is behind the wanted one.
unfoldable pub pad_from : ℕ → ℕ → Bytes
pad_from indent position =
    let wanted = indent * 4 % 2 ^ 32 in
    let next_tab = position % 4 in
    let moved = position + next_tab in
    if ltb position wanted
    then spaces next_tab
      ++ (if ltb moved wanted then spaces ((wanted - moved) % 2 ^ 32 / 4 * 4) else [])
    else spaces 1

-- `doTell() - mLastLineFeed`, in `size_t`.
abbrev pub current_position : CodePrinter → ℕ
current_position p = (length p.output + 2 ^ 64 - p.last_line_feed) % 2 ^ 64

unfoldable pub padding : ℕ → CodePrinter → Bytes
unfolding pad_from
padding indent p = if indent == 0 then [] else pad_from indent (current_position p)

-- `printCode`, with a buffer of 4096 bytes for the text. A linefeed anywhere in the text moves
-- `mLastLineFeed` to the end of the output.
unfoldable pub print_code : ℕ → Bytes → CodePrinter → CodePrinter
unfolding padding truncate has_char
print_code indent text p =
    let buffer = truncate 4096 text in
    let out = p.output ++ (padding indent p ++ buffer) in
    record p {
      output = out;
      last_line_feed = if has_char 10 buffer then length out else p.last_line_feed;
    }

-- `linefeed`
abbrev pub linefeed : CodePrinter → CodePrinter
linefeed = print_code 0 (10 ∷ [])

-- The file of the printer's name before it is written: it cannot be opened, it has a content, or it
-- is opened and `fread` fails.
pub data OldFile : Type 0 where
  absent : OldFile
  content : Bytes → OldFile
  unreadable : OldFile

-- `needSave`
unfoldable pub need_save : Bytes → OldFile → Bool
need_save output absent = true
need_save output unreadable = true
need_save output (content old) =
    if length old == length output then not (text_eq old output) else true

-- `finalize`, with the content that is written to the file, if it is.
unfoldable pub finalize : CodePrinter → OldFile → CodePrinter × Option Bytes
unfolding need_save
finalize p old = (
  record p { finalized = true },
  if is_empty p.dest_file_name
      then none
      else if is_empty p.output
      then none
      else if need_save p.output old
      then some p.output
      else none,
)
