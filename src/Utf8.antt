-- ===== src/Utf8.antt =====
-- UTF-8 (src/utf8.c). A byte is a number below 256, and a pointer into text is the list of the
-- bytes from it on; a read past the end of the list gives the terminating NUL.
pub mod Bytes
pub mod Lead
pub mod Strlen
pub mod TwoBytes
pub mod ThreeBytes
pub mod Width
pub mod Decode
pub mod Encode
pub mod Text
pub mod Tests
