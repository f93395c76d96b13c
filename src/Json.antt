-- ===== src/Json.antt =====
-- JSON.stringify and JSON.parse, for the modules whose records are stored or sent as JSON.
mod Values
mod Print
mod Lexer
mod Parse
mod Strings
mod Numbers
mod Steps
mod Forms
mod Roundtrip
mod Paired
unfoldable pub use Values.*
unfoldable pub use Print.*
unfoldable pub use Lexer.*
unfoldable pub use Parse.*
pub use Forms.*
pub use Roundtrip.*
pub use Paired.*
