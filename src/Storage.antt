-- ===== src/Storage.antt =====
-- web/src/lib/storage: the key-value store of a device, and the vault that seals what it keeps there.
pub mod Adapter
pub mod Vault
pub mod Unlock
pub mod Sealing
pub mod Records
pub mod Objects
pub mod Unlocking
pub mod Refusals
pub mod Erasure
pub mod Examples
