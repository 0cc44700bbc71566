-- ===== src/OsRead.antt =====
-- packages/os-read-adapter: reading the files of a registered system, and the cache of projections.
pub mod Cache
pub mod Paths
