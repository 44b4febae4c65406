-- ===== src/Metaapi/Manager/Failure.antt =====
-- src/metaapi/connection-manager.service.ts: `teardown` and `handleFailure`, each run to its end. The
-- columns that a give-up writes are in one place, since its three copies in the source agree.
use tradetrack_api.Prelude.{
  delete, ℕ, ◌+◌, ◌-◌, ◌*◌, ◌^◌, min, Bool, true, false, ◌&&◌, String, str_eq, Option, none, some,
  List, [], ◌∷◌, get, set, leb, value_or, if◌then◌else◌,
}
use tradetrack_api.Metaapi.Client.{
  ErrorKind, fatal_account, global_auth, not_found, transient, Caught, classify_meta_api_error,
}
use tradetrack_api.Metaapi.Manager.Constants.{
  connecting, deactivated, reconnect_base_delay_ms, reconnect_max_delay_ms, connect_max_attempts,
  connect_failed_message,
}
use tradetrack_api.Metaapi.Manager.Accounts.{
  Reply, gave, threw, Json, json_null, json_text, AccountRow, ManagedAccount, AccountTable,
  has_text, merge_sync_state,
}
use tradetrack_api.Metaapi.Manager.Cloud.{
  CloudAccount, MetaApi, truthy, destroy_cloud_account, find_by_name,
}
use tradetrack_api.Metaapi.Manager.World.{World, close_session, update_row}

-- `errorMessage`: the message of an `Error`, absent for a value of another kind.
abbrev pub error_message : Option String → String
error_message none = "MetaApi rejected the account"
error_message (some m) = if str_eq m "" then "MetaApi rejected the account" else m

abbrev pub retry_delay : ℕ → ℕ
retry_delay attempts = min (reconnect_base_delay_ms * 2 ^ (attempts - 1)) reconnect_max_delay_ms

abbrev pub torn_down : List (String × Json)
torn_down = ("syncMethod", json_null) ∷ ("deployedAt", json_null) ∷ []

abbrev pub given_up : String → List (String × Json)
given_up error = ("lastError", json_text error) ∷ ("deployedAt", json_null) ∷ []

module _ {F : Type 0} where
  -- The data of the update that hides the row from `loadAccounts`.
  abbrev pub deactivation : ManagedAccount F → List (String × Json) → AccountRow F → AccountRow F
  deactivation account patch r = record r {
    terminal_account_id = none;
    terminal_integration_status = some deactivated;
    auto_sync_enabled = false;
    terminal_sync_state = merge_sync_state account patch;
  }

  abbrev pub forget_id : AccountRow F → AccountRow F
  forget_id r = record r { terminal_account_id = none }

  abbrev pub attempts_of : ManagedAccount F → List (String × ℕ) → ℕ
  attempts_of account backoff = value_or 0 (get account.trading_account_id backoff)

  -- The initial connect has used up its attempts.
  abbrev pub exhausted : ManagedAccount F → ℕ → Bool
  exhausted account attempts =
      has_text account.status connecting && leb connect_max_attempts attempts

abbrev pub id_of : Option CloudAccount → Option String
id_of none = none
id_of (some a) = some a.id

module _ {T C : Type 0} ⦃api : MetaApi C⦄ where
  -- Stop the meter, if there is an account, then go on; stay as it is where that fails.
  abbrev pub after_destroy : (World T C → World T C) → World T C → Bool × C → World T C
  after_destroy rest w (true, c) = rest (record w { cloud = c })
  after_destroy rest w (false, c) = record w { cloud = c }

  abbrev pub destroy_first : Option String → (World T C → World T C) → World T C → World T C
  destroy_first none rest w = rest w
  destroy_first (some id) rest w = after_destroy rest w (destroy_cloud_account id w.cloud)

module _ {F T C : Type 0} ⦃accounts : AccountTable F T⦄ ⦃api : MetaApi C⦄ where
  abbrev pub deactivate : ManagedAccount F → List (String × Json) → World T C → World T C
  deactivate account patch w = update_row account.trading_account_id (deactivation account patch) w

  abbrev pub forget_backoff : ManagedAccount F → World T C → World T C
  forget_backoff account w = record w { backoff = delete account.trading_account_id w.backoff }

  -- `teardown`, once the session is closed: with the id that the row has, or the one that the lookup by
  -- name finds.
  abbrev pub looked_up : ManagedAccount F → World T C → Reply (Option CloudAccount) × C → World T C
  looked_up account w (threw e, c) = record w { cloud = c }
  looked_up account w (gave found, c) =
      destroy_first (truthy (id_of found)) (deactivate account torn_down) (record w { cloud = c })

  abbrev pub teardown_by : ManagedAccount F → Option String → World T C → World T C
  teardown_by account (some id) w = destroy_first (some id) (deactivate account torn_down) w
  teardown_by account none w = looked_up account w (find_by_name account.trading_account_id w.cloud)

  -- A session is closed first; where that throws, the teardown ends.
  abbrev pub closed_then : ManagedAccount F → World T C → Reply Unit × C → World T C
  closed_then account w (threw e, c) = record w { cloud = c }
  closed_then account w (gave u, c) =
      teardown_by account (truthy account.meta_api_account_id) (record w { cloud = c })

  unfoldable pub teardown : ManagedAccount F → World T C → World T C
  teardown account w =
      closed_then account (record w { sessions = delete account.trading_account_id w.sessions })
        (close_session (get account.trading_account_id w.sessions) w.cloud)

  abbrev pub on_not_found : ManagedAccount F → World T C → World T C
  on_not_found account w =
      if exhausted account (attempts_of account w.backoff)
      then deactivate account (given_up connect_failed_message) (forget_backoff account w)
      else update_row account.trading_account_id (forget_id {F = F}) w

  abbrev pub on_fatal : ManagedAccount F → Option String → World T C → World T C
  on_fatal account message w =
      destroy_first (truthy account.meta_api_account_id)
        (deactivate account (given_up (error_message message))) w

  abbrev pub give_up : ManagedAccount F → World T C → World T C
  give_up account w =
      destroy_first (truthy account.meta_api_account_id)
        (λ w'. deactivate account (given_up connect_failed_message) (forget_backoff account w')) w

  abbrev pub on_transient : ManagedAccount F → ℕ → World T C → World T C
  on_transient account attempts w =
      if exhausted account attempts
      then give_up account w
      else record w { retries = (account.trading_account_id, retry_delay attempts) ∷ w.retries }

  abbrev pub failed_with : ManagedAccount F → Option String → ErrorKind → World T C → World T C
  failed_with account message global_auth w = w
  failed_with account message not_found w = on_not_found account w
  failed_with account message fatal_account w = on_fatal account message w
  failed_with account message transient w =
      let attempts = attempts_of account w.backoff + 1 in
      on_transient account attempts
        (record w { backoff = set account.trading_account_id attempts w.backoff })

  unfoldable pub handle_failure : ManagedAccount F → Option String → Caught → World T C → World T C
  handle_failure account message e w = failed_with account message (classify_meta_api_error e) w
