-- ===== src/Content.antt =====
-- web/src/lib/crypto/content.ts: what stands inside a ciphertext.
pub mod Frame
pub mod Decode
pub mod Roundtrip
pub mod Chunks
pub mod Indices
pub mod Slices
pub mod Sending
pub mod Pieces
pub mod Assembly
pub mod Examples
