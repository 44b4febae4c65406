-- ===== src/Tradelocker/Manager.antt =====
-- src/tradelocker/connection-manager.service.ts: the manager of the TradeLocker accounts, in parts:
-- the accounts it reads, the REST requests it paces, the stream's messages, the closes it finalizes,
-- and the sessions it keeps connected.
pub mod Rest
pub mod Stream
pub mod Sessions
pub mod Closes
pub mod Accounts
