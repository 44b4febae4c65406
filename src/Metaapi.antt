-- ===== src/Metaapi.antt =====
-- src/metaapi: MT5 accounts synced through MetaApi.
pub mod Types
pub mod Writer
pub mod Aggregator
pub mod Listener
pub mod Client
pub mod Manager
