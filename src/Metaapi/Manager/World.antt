-- ===== src/Metaapi/Manager/World.antt =====
-- src/metaapi/connection-manager.service.ts: the state of the manager, beside the cloud and the rows.
use tradetrack_api.Prelude.{ℕ, Bool, String, Option, none, some, List}
use tradetrack_api.Metaapi.Manager.Cloud.{MetaApi, and_then}
use tradetrack_api.Metaapi.Manager.Accounts.{Reply, gave, threw, AccountRow, AccountTable}

-- `live` is the cloud account whose stream and RPC connection `close` closes; a placeholder has none.
pub record Session : Type 0 where
  pub generation : ℕ
  pub meta_api_account_id : Option String
  pub live : Option String

-- `retries` lists the retry timers that were set, with their delays.
pub record World (T C : Type 0) : Type 0 where
  pub table : T
  pub cloud : C
  pub sessions : List (String × Session)
  pub backoff : List (String × ℕ)
  pub opening : List String
  pub generation : ℕ
  pub stopped : Bool
  pub retries : List (String × ℕ)

module _ {C : Type 0} ⦃api : MetaApi C⦄ where
  -- Both connections of a live session.
  abbrev pub close_both : String → C → Reply Unit × C
  close_both id c = and_then (api.close_stream c id) (λ u c1. api.close_rpc c1 id)

  abbrev pub close_live : Option String → C → Reply Unit × C
  close_live none c = (gave tt, c)
  close_live (some id) c = close_both id c

  -- `session.close()`, where there is a session.
  abbrev pub close_session : Option Session → C → Reply Unit × C
  close_session none c = (gave tt, c)
  close_session (some s) c = close_live s.live c

module _ {T C : Type 0} where
  abbrev pub with_table : World T C → Reply T → World T C
  with_table w (gave t) = record w { table = t }
  with_table w (threw e) = w

module _ {F T C : Type 0} ⦃accounts : AccountTable F T⦄ where
  -- An update whose rejection ends the handler.
  abbrev pub update_row : String → (AccountRow F → AccountRow F) → World T C → World T C
  update_row id change w = with_table w (accounts.update w.table id change)
