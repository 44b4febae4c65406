-- ===== src/Metaapi/Manager/Ensured.antt =====
-- The slot of an account during `ensureAccount` (src/metaapi/connection-manager.service.ts).
use tradetrack_api.Prelude.{ℕ, String, Option, none, some}
use tradetrack_api.Metaapi.Manager.Accounts.{Reply, gave, threw, ManagedAccount, AccountTable}
use tradetrack_api.Metaapi.Manager.Cloud.{CloudAccount, MetaApi, find_by_name}
use tradetrack_api.Metaapi.Manager.World.{World}
use tradetrack_api.Metaapi.Manager.Held.{IsUndisturbed, IsHeld, await-IsHeld, await_update-IsHeld}
use tradetrack_api.Metaapi.Manager.Ensure.{
  get_call, find_call, create_call, Setting, persist_call, with_id, ensure_by, adopted_or_created,
  owned_now, persisted, new_account,
}

module _ {F T C : Type 0} ⦃accounts : AccountTable F T⦄ ⦃api : MetaApi C⦄ (on : Setting F T C)
    (account : ManagedAccount F) (quiet : IsUndisturbed on account.trading_account_id) where
  persisted-IsHeld :
      (generation : ℕ) (a : CloudAccount) (x : Reply Unit × World T C)
      → IsHeld account.trading_account_id generation x.1
      → IsHeld account.trading_account_id generation (persisted on a x).1
  persisted-IsHeld generation a (gave u, w) held = held
  persisted-IsHeld generation a (threw e, w) held = held

  owned_now-IsHeld :
      (generation : ℕ) (x : Reply CloudAccount × World T C)
      → IsHeld account.trading_account_id generation x.1
      → IsHeld account.trading_account_id generation (owned_now on account x).1
  owned_now-IsHeld generation (threw e, w) held = held
  owned_now-IsHeld generation (gave a, w) held = persisted-IsHeld generation a _ (
      await_update-IsHeld on account.trading_account_id quiet generation persist_call
        account.trading_account_id (with_id on a.id) w held)

  adopted_or_created-IsHeld :
      (generation : ℕ) (x : Reply (Option CloudAccount) × World T C)
      → IsHeld account.trading_account_id generation x.1
      → IsHeld account.trading_account_id generation (adopted_or_created on account x).1
  adopted_or_created-IsHeld generation (threw e, w) held = held
  adopted_or_created-IsHeld generation (gave (some a), w) held =
      owned_now-IsHeld generation (gave a, w) held
  adopted_or_created-IsHeld generation (gave none, w) held = owned_now-IsHeld generation _ (
      await-IsHeld on account.trading_account_id quiet generation create_call
        (λ c. api.create_account c (new_account on account)) w held)

  pub ensure_by-IsHeld :
      (generation : ℕ) (o : Option String) (w : World T C)
      → IsHeld account.trading_account_id generation w
      → IsHeld account.trading_account_id generation (ensure_by on account o w).1
  ensure_by-IsHeld generation (some id) w held =
      await-IsHeld on account.trading_account_id quiet generation get_call
        (λ c. api.get_account c id) w held
  ensure_by-IsHeld generation none w held = adopted_or_created-IsHeld generation _ (
      await-IsHeld on account.trading_account_id quiet generation find_call
        (find_by_name account.trading_account_id) w held)
