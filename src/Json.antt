-- ===== src/Json.antt =====
-- jsonparser.h and jsonparser.cc: the values, their accessors and the parser.
pub mod Value
pub mod Lexer
pub mod Parser
pub mod Total
pub mod Printer
pub mod Strings
pub mod Steps
pub mod Join
pub mod Read
pub mod RoundTrip
mod Tests
