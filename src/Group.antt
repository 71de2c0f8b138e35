-- ===== src/Group.antt =====
-- Signal group sessions (wassupweb/signal/group): keys, the state of one sender, its record, the
-- group cipher, the session builder and the two wire messages.
pub mod Keys
pub mod State
pub mod Record
pub mod Message
pub mod Distribution
pub mod Cipher
pub mod Builder
pub mod Ratchet
pub mod Session
pub mod Establish
pub mod Name
