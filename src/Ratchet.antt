-- ===== src/Ratchet.antt =====
-- web/src/lib/crypto/ratchet.ts: the double ratchet. Definitions stand in State, Send, Window and
-- Receive; the other modules prove.
pub mod State
pub mod Send
pub mod Window
pub mod Receive
pub mod Atomic
pub mod Bounds
pub mod Preserve
pub mod Chain
pub mod Tracks
pub mod Skip
pub mod Sealed
pub mod Delivery
pub mod Order
pub mod Steady
pub mod Start
pub mod Handover
pub mod Waiting
pub mod Opening
mod Others
pub mod Crossing
pub mod Examples
pub mod Overtaking
