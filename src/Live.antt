-- ===== src/Live.antt =====
-- packages/live: chat sessions, their typed timeline, and the views over them.
pub mod Timeline
pub mod Sessions
pub mod Runs
pub mod Activity
mod Examples
