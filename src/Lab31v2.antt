-- ===== src/Lab31v2.antt =====
-- lab31/v2: the caching HTTP proxy with one thread and a poll loop.
pub mod BinaryString
mod Constants
mod Words
pub mod Parser
pub mod Cash
pub mod Buffer
pub mod Server
