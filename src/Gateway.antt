-- ===== src/Gateway.antt =====
-- apps/gateway: the local host process that serves the dashboard.
pub mod Subscriptions
pub mod LocalState
pub mod LocalApp
