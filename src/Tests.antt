-- ===== src/Tests.antt =====
-- The theorems at concrete inputs, with numbers of four decimals and tables in memory.
mod Data
mod Writers
mod Rebuilt
mod CandleStore
mod Queue
mod Metrics
mod Report
mod Errors
mod Lifecycle
mod Pools
mod Chains
mod Retries
mod Streams
