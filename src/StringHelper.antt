-- ===== src/StringHelper.antt =====
-- src/StringHelper.cpp: the scanning of numbers and vectors in text, flags, paths, and the search
-- that ignores case. A pointer into a string is the text from there on, a pointer that may be null
-- an `Option` of it, and a function with a parameter `next` takes and returns what `*next` holds.
pub mod Chars
pub mod Hex
pub mod Scan
pub mod Vector
pub mod Search
