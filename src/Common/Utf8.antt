-- ===== src/Common/Utf8.antt =====
-- `TextEncoder` and `TextDecoder`.
mod Coding
mod Decoding
unfoldable pub use Coding.*
pub use Decoding.*
