-- ===== src/Registry.antt =====
-- packages/registry: the operating systems that the dashboard is connected to.
pub mod Compatibility
pub mod Bindings
pub mod Systems
pub mod Selection
mod Examples
