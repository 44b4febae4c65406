-- ===== src/Metaapi/Manager.antt =====
-- src/metaapi/connection-manager.service.ts: the life cycle of the billed cloud account behind a row.
pub mod Constants
pub mod Accounts
pub mod Selection
pub mod Cloud
pub mod Gone
pub mod World
pub mod Memory
pub mod Failure
pub mod Billing
pub mod Torn
pub mod Observed
pub mod Retries
pub mod Attempts
pub mod Ensure
pub mod Open
pub mod Held
pub mod Ensured
pub mod Opened
pub mod Reconcile
pub mod Sweep
