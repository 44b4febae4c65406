-- ===== src/Metaapi/Manager/Ensure.antt =====
-- src/metaapi/connection-manager.service.ts: `ensureAccount`. While one call is awaited the rest of the
-- service runs: `others` is what it does then, before the call takes effect and after.
use tradetrack_api.Prelude.{ℕ, String, Option, none, some}
use tradetrack_api.Metaapi.Client.{Caught}
use tradetrack_api.Metaapi.Manager.Constants.{account_name}
use tradetrack_api.Metaapi.Manager.Accounts.{
  Reply, gave, threw, AccountRow, ManagedAccount, AccountTable,
}
use tradetrack_api.Metaapi.Manager.Cloud.{CloudAccount, NewAccount, MetaApi, truthy, find_by_name}
use tradetrack_api.Metaapi.Manager.World.{World}

-- The calls that are awaited.
pub data Await : Type 0 where
  get_call find_call create_call persist_call deploy_call wait_call connect_rpc_call sync_rpc_call
        backfill_call connect_stream_call sync_stream_call close_call update_call :
      Await

pub data Moment : Type 0 where
  before after : Await → Moment

-- What an `open` is given beside the account: the clock's text and time, the region, the message of an
-- error, and the backfill of src/metaapi/backfill.service.ts, of which only the outcome counts here.
pub record Setting (F T C : Type 0) : Type 0 where
  pub now : ℕ
  pub now_text : String
  pub region : Option String
  pub message_of : Caught → Option String
  pub backfill : ManagedAccount F → C → Reply Unit × C
  pub others : Moment → World T C → World T C

module _ {F T C : Type 0} (on : Setting F T C) where
  -- One call on the cloud.
  abbrev pub answered : {A : Type 0} → Await → World T C → Reply A × C → Reply A × World T C
  answered k w (r, c) = (r, on.others (after k) (record w { cloud = c }))

  abbrev pub await : {A : Type 0} → Await → (C → Reply A × C) → World T C → Reply A × World T C
  await k call w = let w' = on.others (before k) w in answered k w' (call w'.cloud)

module _ {F T C : Type 0} ⦃accounts : AccountTable F T⦄ (on : Setting F T C) where
  -- One update of a row.
  abbrev pub stored : Await → World T C → Reply T → Reply Unit × World T C
  stored k w (gave t) = (gave tt, on.others (after k) (record w { table = t }))
  stored k w (threw e) = (threw e, on.others (after k) w)

  abbrev pub await_update :
      Await → String → (AccountRow F → AccountRow F) → World T C → Reply Unit × World T C
  await_update k id change w =
      let w' = on.others (before k) w in stored k w' (accounts.update w'.table id change)

  abbrev pub with_id : String → AccountRow F → AccountRow F
  with_id cloud_id r = record r { terminal_account_id = some cloud_id }

  abbrev pub persist_account_id : String → String → World T C → Reply Unit × World T C
  persist_account_id id cloud_id w = await_update persist_call id (with_id cloud_id) w

module _ {F T C : Type 0} ⦃accounts : AccountTable F T⦄ ⦃api : MetaApi C⦄ (on : Setting F T C) where
  abbrev pub new_account : ManagedAccount F → NewAccount
  new_account account = record {
    name = account_name account.trading_account_id;
    login = account.login;
    password = account.password;
    server = account.server;
    region = truthy on.region;
  }

  -- `ensureAccount`, from its end.
  abbrev pub persisted : CloudAccount → Reply Unit × World T C → Reply CloudAccount × World T C
  persisted a (gave u, w) = (gave a, w)
  persisted a (threw e, w) = (threw e, w)

  abbrev pub owned_now :
      ManagedAccount F → Reply CloudAccount × World T C → Reply CloudAccount × World T C
  owned_now account (threw e, w) = (threw e, w)
  owned_now account (gave a, w) =
      persisted a (persist_account_id on account.trading_account_id a.id w)

  abbrev pub adopted_or_created :
      ManagedAccount F → Reply (Option CloudAccount) × World T C → Reply CloudAccount × World T C
  adopted_or_created account (threw e, w) = (threw e, w)
  adopted_or_created account (gave (some a), w) = owned_now account (gave a, w)
  adopted_or_created account (gave none, w) =
      owned_now account (await on create_call (λ c. api.create_account c (new_account account)) w)

  abbrev pub ensure_by :
      ManagedAccount F → Option String → World T C → Reply CloudAccount × World T C
  ensure_by account (some id) w = await on get_call (λ c. api.get_account c id) w
  ensure_by account none w =
      adopted_or_created account (await on find_call (find_by_name account.trading_account_id) w)

  unfoldable pub ensure_account : ManagedAccount F → World T C → Reply CloudAccount × World T C
  ensure_account account w = ensure_by account (truthy account.meta_api_account_id) w
