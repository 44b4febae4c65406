-- ===== src/Ctrader.antt =====
-- src/ctrader: accounts connected through the cTrader Open API.
pub mod Types
pub mod Writer
pub mod Deals
pub mod Backfill
pub mod Pool
