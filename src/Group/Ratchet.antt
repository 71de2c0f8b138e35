-- ===== src/Group/Ratchet.antt =====
-- The sender key ratchet (`get_sender_key`) hands out the keys of the sender's chain, each once.
mod Stored
mod CatchUp
pub mod Keys
pub mod Answers
pub mod Skipped
pub use Stored.{IsStored, Distinct, message_key_at, iteration-message_key_at}
pub use CatchUp.{IsSound}
