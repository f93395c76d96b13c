-- ===== src/Envelope.antt =====
-- web/src/lib/crypto/envelope.ts: the encoders and the decoder of the inner message. A thrown
-- `EnvelopeError` is an `err`; the reader's buffer and offset are the state of the decoder.
pub mod Writer
pub mod Reader
pub mod Wire
pub mod Roundtrip
pub mod Canonical
pub mod Examples
