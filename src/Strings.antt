-- ===== src/Strings.antt =====
-- The parts of the Rust standard library that the source uses on `str`, `char` and byte slices.
-- A text is a list of scalar values, so an index into it is a number of characters; the source's byte
-- offsets are used only to cut at a match, where the two agree.
pub mod Chars
pub mod Split
pub mod Numbers
pub mod Utf8
pub mod Ascii
pub mod Lines
