-- ===== src/Client.antt =====
-- packages/client: the run of a conversation, as one pane of the Dashboard follows it.
pub mod Runs
pub mod History
pub mod Rows
pub mod Chat
pub mod Feed
