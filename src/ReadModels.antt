-- ===== src/ReadModels.antt =====
-- packages/read-models: the views that the panels show.
pub mod Work
pub mod Inbox
