-- ===== src/Shell/Parse.antt =====
-- shell/sh9/parse.c: a line to an argv vector, and the release of the vector.
pub mod Defs
pub mod Words
pub mod RoundTrip
