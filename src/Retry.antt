-- ===== src/Retry.antt =====
-- wassupweb/utils/message_retry_manager.py: recent messages, retry counters and the decision to
-- recreate a session.
pub mod Cache
pub mod Manager
pub mod Lookup
pub mod Bounds
pub mod Reachable
pub mod Decisions
