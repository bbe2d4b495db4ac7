-- ===== src/Lib.antt =====
-- SchemaCodeGen reads a schema, a spreadsheet in CSV, into a model of classes and members, and prints
-- C++ code from the model. This library models the import, the model, the printer and the helpers.
--
-- The parts. `main` creates a `CreateDOMDef`, whose `parseCSV` scans the file into rows and gives each
-- to `processArgs`, which builds the objects; at the end `DOM::importComplete` completes them. The
-- writers then look types up with `findObject`, translate their names, and print with `CodePrinter`.
--
--   Console       app/main.cpp, `main`: the import, then the files; the disk is a function from names to
--                 bytes.
--   Csv           src/CreateDOM.cpp, `CreateDOMDef::parseCSV`. The file is a list of bytes, `none` if it
--                 cannot be opened. `scan_field`, `scan_row` and `round` are the body of the loops,
--                 `finish` is what follows them. The source puts zero bytes into the buffer; a field is
--                 here the text up to that byte.
--   Rows          src/CreateDOM.cpp, `CreateDOMDef` as the record `Importer`, and `processArgs`; the row
--                 of a member is Rows.Member.
--   Dom           src/CreateDOM.cpp, `MemberVariable`, `Object`, `DOM` as records. Dom.Complete has
--                 `importComplete` and `findObject`; a pointer of `mObjectMap` is a position. The
--                 loop over second bases changes the objects in place (Dom.Bases); the loops for
--                 reflection (Dom.Reflection) and kinds change each object by itself.
--   TypeNames     src/CreateDOM.cpp, the tables of type names.
--   Printer       src/CreateDOM.cpp, `CodePrinter`. A format with its arguments is the text that it
--                 expands to, cut to the buffer; `finalize` returns what it writes.
--   StringHelper  src/StringHelper.cpp: Chars, Scan, Hex, Vector, Search. A `const char *` is a list of
--                 bytes, or `none` for null; `float` and its conversions are the record `FloatOps`.
--   Values        src/CreateDOM.cpp, `getPythonArgDef`, `getCppValueInitializer` and `getCppRValue`, with
--                 the record `FloatStream` for `float`, `double` and their conversions.
--   Emit          src/CreateDOM.cpp, the calls of `printCode` in the writers of code: a writer is the list
--                 of its calls, a format with slots for its arguments. Emit.Depth and Emit.Nested say
--                 how braces nest in what the calls print.
--   Save          src/CreateDOM.cpp, the writers of code: Serialize (`saveSerialize`), Deserialize
--                 (`saveDeserialize`), Enums and Script (`saveTypeScript`), Class (the first
--                 `Object::saveCPP`), and Files, where `CreateDOMDef::saveCPP` composes them into the
--                 header, the source file and the file for TypeScript. Faults has the schemas that they
--                 take. Python is `savePython`: `none` where its loop over the bases runs out of fuel.
--   Proto         src/CreateDOM.cpp, `Object::savePROTO`: the printer and the list of array types go in
--                 and out of it.
--   Paths         src/CreateDOM.cpp, `recursiveCreatePath` and `fpout`.
--   CString       The functions of the C library that the parts use, on lists of bytes without the
--                 terminator: `_stricmp`, `strchr`, `strncmp`, `atoi`, `strtoll`.
--   Outcome       A value, or the fault where the source fails an assertion or leaves its memory.
--   Base          Names that all parts share. Tests has runs on small inputs.
--
-- Fuel. The loop over a row's fields has one round more than the row has bytes, the loop over rows
-- one round more than the text has bytes; each round passes a byte at least. `none` means that fuel
-- has run out. The loop of `savePython` over the base classes ends with one round more than the rank
-- of a class, if inheritance gives the classes ranks; a circle of base classes has no end. The other
-- loops are structural. Machine integers wrap where the source's do: `getHEX` in 32 bits,
-- `getUintValue` too (for the values that `atoi` defines), the column of `printCode` in 64, the column
-- that it wants and its number of tabs in 32, and the counters of fields for protobufs and of enum
-- values for Python in 32.
--
-- Not modelled. The second `Object::saveCPP` and the branch of `CreateDOMDef::saveCPP` for "plain old
-- data", which print fixed texts; `saveOmniCommand`, which is switched off; messages to the console; the
-- failure of `fread` and of `malloc`; the vendored libraries src/leveldb, include/rapidjson and
-- src/itoa_jeaiii.cpp. A byte is any number, where `char` has 256 values.
pub mod Base
pub mod CString
pub mod Outcome
pub mod TypeNames
pub mod Dom
pub mod Rows
pub mod Console
pub mod Csv
pub mod StringHelper
pub mod Printer
pub mod Emit
pub mod Paths
pub mod Proto
pub mod Values
pub mod Save
mod Tests
