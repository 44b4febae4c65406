-- ===== src/Tradelocker/Manager/Accounts/Loaded.antt =====
-- Which accounts src/tradelocker/connection-manager.service.ts manages (loadAccounts).
use mathlib.Core.Option
use tradetrack_api.Prelude.{In, ◌≡◌, true, false, String, str_eq, Option, List}
use tradetrack_api.Tradelocker.Manager.Accounts.{
  ManagedAccount, AccountRow, is_stopped_status, selected,
}

module _ {F : Type 0} where
  -- The account is that of a row which the query selects and whose status does not stop it, and it has
  -- the ids and the server that the stream and the report need.
  abbrev pub IsManaged : List String → List (AccountRow F) → ManagedAccount F → Type 0
  IsManaged only_users rows a =
      ((r : AccountRow F) × In r rows
        × (selected only_users r ≡ true)
        × (is_stopped_status r.terminal_integration_status ≡ false)
        × (r.id ≡ a.trading_account_id))
      × (str_eq a.acc_num "" ≡ false)
      × (str_eq a.account_id "" ≡ false)
      × (str_eq a.server "" ≡ false)

  -- What a row gives, before the accounts of others.
  abbrev Origin : (ManagedAccount F → Type 0) → AccountRow F → Type 0
  Origin P r =
      is_stopped_status r.terminal_integration_status ≡ false
      → (a : ManagedAccount F) → r.id ≡ a.trading_account_id
      → str_eq a.acc_num "" ≡ false
      → str_eq a.account_id "" ≡ false
      → str_eq a.server "" ≡ false
      → P a
