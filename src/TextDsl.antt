-- ===== src/TextDsl.antt =====
-- The text form of workflows (frontend/src/dsl/index.js): its lexer, parser and serializer. A text
-- is the list of its UTF-16 code units. Lines and columns, which only messages show, are left out.
pub mod Lexer
pub mod Parser
pub mod Serializer
pub mod Quoting
pub mod Pieces
pub mod Canonical
pub mod Printing
pub mod PrintedSteps
pub mod Printed
pub mod Reading
pub mod RoundTrip
pub mod Words
pub mod Shapes
pub mod Shaped
mod Tests
