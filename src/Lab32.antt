-- ===== src/Lab32.antt =====
-- lab32: the caching HTTP proxy that gives each client a thread, reads whole responses, and joins the
-- threads that have ended from a cleaner thread.
mod Constants
pub mod CashContext
pub mod Parser
pub mod ThreadContext
pub mod Context
pub mod Cleaner
pub mod Server
