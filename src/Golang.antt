-- ===== src/Golang.antt =====
-- What the program uses of Go's standard library, as functions on texts and numbers: parts of
-- strings, strconv and path/filepath (the last for a system whose separator is the slash). A text
-- is the sequence of its code points; the program's texts are taken to be valid UTF-8.
pub mod Strings
pub mod Int
pub mod Numbers
pub mod Filepath
pub mod Maps
pub mod Errors
