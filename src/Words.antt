-- ===== src/Words.antt =====
-- Words of a command line (src/parse.c): file names quoted for the shell, patterns, and tokens.
-- Characters are bytes; a string is the list of them before its NUL.
pub mod Quote
pub mod Unquote
pub mod Quoting
pub mod Pattern
pub mod Bracket
pub mod Delimited
pub mod Shell
pub mod Tokens
pub mod Unescape
pub mod Tests
