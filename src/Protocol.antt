-- ===== src/Protocol.antt =====
-- packages/protocol: identifiers, scope keys, the methods and the check of request parameters.
pub mod Ids
pub mod Scope
pub mod Methods
pub mod Json
pub mod Fields
pub mod Envelope
mod Examples
