-- ===== src/Tradelocker.antt =====
-- src/tradelocker: accounts synced from TradeLocker's stream and its closed-trades report.
pub mod Types
pub mod Writer
pub mod History
pub mod Client
pub mod Connection
pub mod Manager
