-- ===== src/Web.antt =====
-- apps/web: the panels of the shell and where they are placed.
pub mod Panels
pub mod Layout
mod Examples
