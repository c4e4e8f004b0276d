-- ===== src/Lab32v2.antt =====
-- lab32v2: the caching HTTP proxy that gives each client a thread of its own.
mod Constants
mod TestData
pub mod Parser
pub mod Cash
pub mod Buffer
pub mod Handler
pub mod Client
pub mod Polling
pub mod Server
