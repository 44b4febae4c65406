-- ===== src/Metaapi/Manager/Torn.antt =====
-- The rows after a teardown (src/metaapi/connection-manager.service.ts).
use tradetrack_api.Prelude.{
  delete, ◌≡◌, refl, false, String, Option, none, some, get, ◌⊎◌, inl, inr,
}
use tradetrack_api.Metaapi.Manager.Accounts.{Reply, gave, threw, ManagedAccount, AccountTable}
use tradetrack_api.Metaapi.Manager.Cloud.{CloudAccount, MetaApi, truthy, find_by_name}
use tradetrack_api.Metaapi.Manager.World.{World, close_session}
use tradetrack_api.Metaapi.Manager.Failure.{
  destroy_first, deactivate, torn_down, id_of, looked_up, teardown_by, closed_then, teardown,
}
use tradetrack_api.Metaapi.Manager.Billing.{IsSafe, destroy_first-IsSafe, deactivate-cloud}

-- The cloud account that a teardown is about: the stored one, or the one that carries the name.
abbrev pub found_id : Reply (Option CloudAccount) → Reply (Option String)
found_id (gave found) = gave (truthy (id_of found))
found_id (threw e) = threw e

module _ {F C : Type 0} ⦃api : MetaApi C⦄ where
  open api use {present}

  abbrev pub resolved : ManagedAccount F → Option String → C → Reply (Option String)
  resolved account (some id) c = gave (some id)
  resolved account none c = found_id (find_by_name account.trading_account_id c).0

module _ {T C : Type 0} ⦃api : MetaApi C⦄ where
  open api use {present}

  -- The rows are as before, or the account was looked for, and does not exist any more if there is one.
  abbrev pub IsTornDown : T → Reply (Option String) → World T C → Type 0
  IsTornDown t found w =
      (w.table ≡ t)
      ⊎ ((o : Option String) × (found ≡ gave o)
          × ((id : String) → o ≡ some id → present w.cloud id ≡ false))

  IsSafe-IsTornDown :
      (t : T) (o : Option String) (w : World T C) → IsSafe o t w → IsTornDown t (gave o) w
  IsSafe-IsTornDown t o w (inl e) = inl e
  IsSafe-IsTornDown t o w (inr h) = inr (o, refl, h)

module _ {F T C : Type 0} ⦃accounts : AccountTable F T⦄ ⦃api : MetaApi C⦄ where
  open api use {present}

  destroyed-IsTornDown :
      (account : ManagedAccount F) (o : Option String) (w : World T C)
      → IsTornDown w.table (gave o) (destroy_first o (deactivate account torn_down) w)
  destroyed-IsTornDown account o w =
      IsSafe-IsTornDown w.table o (destroy_first o (deactivate account torn_down) w) (
        destroy_first-IsSafe o (deactivate account torn_down) (deactivate-cloud account torn_down)
          w)

  looked_up-IsTornDown :
      (account : ManagedAccount F) (w : World T C) (x : Reply (Option CloudAccount) × C)
      → IsTornDown w.table (found_id x.0) (looked_up account w x)
  looked_up-IsTornDown account w (threw e, c) = inl refl
  looked_up-IsTornDown account w (gave found, c) =
      destroyed-IsTornDown account (truthy (id_of found)) (record w { cloud = c })

  teardown_by-IsTornDown :
      (account : ManagedAccount F) (o : Option String) (w : World T C)
      → IsTornDown w.table (resolved account o w.cloud) (teardown_by account o w)
  teardown_by-IsTornDown account none w =
      looked_up-IsTornDown account w (find_by_name account.trading_account_id w.cloud)
  teardown_by-IsTornDown account (some id) w = destroyed-IsTornDown account (some id) w

  closed_then-IsTornDown :
      (account : ManagedAccount F) (w : World T C) (x : Reply Unit × C)
      → IsTornDown w.table
          (resolved account (truthy account.meta_api_account_id) x.1)
          (closed_then account w x)
  closed_then-IsTornDown account w (threw e, c) = inl refl
  closed_then-IsTornDown account w (gave u, c) =
      teardown_by-IsTornDown account (truthy account.meta_api_account_id) (record w { cloud = c })

  -- A teardown changes a row only once its cloud account has been looked for, by the stored id or else
  -- by its name, and, if there is one, does not exist any more.
  pub teardown-IsTornDown :
      (account : ManagedAccount F) (w : World T C)
      → IsTornDown w.table
          (resolved account
            (truthy account.meta_api_account_id)
            (close_session (get account.trading_account_id w.sessions) w.cloud).1)
          (teardown account w)
  unfolding teardown
  teardown-IsTornDown account w =
      closed_then-IsTornDown account
        (record w { sessions = delete account.trading_account_id w.sessions })
        (close_session (get account.trading_account_id w.sessions) w.cloud)
