-- ===== src/Tests.antt =====
-- The theorems at concrete inputs.
pub mod Toy
pub mod Groups
pub mod Formats
pub mod Transport
pub mod Services
pub mod Stores
pub mod KeyStores
pub mod Analytics
pub mod Lids
pub mod Syncs
