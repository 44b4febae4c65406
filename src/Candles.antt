-- ===== src/Candles.antt =====
-- src/candles: replay candles from the Dukascopy archive.
pub mod Calendar
pub mod Types
pub mod Buckets
pub mod Aggregate
pub mod Bi5
pub mod Archive
pub mod Jobs
pub mod Ingest
pub mod Worker
pub mod Lanes
