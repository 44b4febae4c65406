-- ===== src/Metaapi/Manager/Open.antt =====
-- src/metaapi/connection-manager.service.ts: `open`, after `ensureAccount`.
use tradetrack_api.Prelude.{
  delete, ℕ, ◌+◌, ◌==◌, Bool, true, false, ◌||◌, not, String, Option, none, some, [], ◌∷◌, get, set,
  elem, remove, if◌then◌else◌,
}
use tradetrack_api.Metaapi.Client.{Caught}
use tradetrack_api.Metaapi.Manager.Constants.{is_undeployed}
use tradetrack_api.Metaapi.Manager.Accounts.{
  Reply, gave, threw, json_text, json_null, AccountRow, ManagedAccount, AccountTable,
  merge_sync_state,
}
use tradetrack_api.Metaapi.Manager.Cloud.{CloudAccount, MetaApi}
use tradetrack_api.Metaapi.Manager.World.{Session, World, close_both}
use tradetrack_api.Metaapi.Manager.Failure.{handle_failure}
use tradetrack_api.Metaapi.Manager.Ensure.{
  Setting, await, await_update, ensure_account, deploy_call, wait_call, connect_rpc_call,
  sync_rpc_call, backfill_call, connect_stream_call, sync_stream_call, close_call, update_call,
}

abbrev pub close_one :
    {C : Type 0} → (C → String → Reply Unit × C) → Option String → C → Reply Unit × C
close_one close none c = (gave tt, c)
close_one close (some id) c = close c id

abbrev pub is_other : ℕ → Option Session → Bool
is_other generation none = true
is_other generation (some s) = not (s.generation == generation)

module _ {T C : Type 0} where
  abbrev pub is_stale : String → ℕ → World T C → Bool
  is_stale id generation w = is_other generation (get id w.sessions)

  abbrev pub abandon : String → ℕ → World T C → Bool
  abandon id generation w = w.stopped || is_stale id generation w

  abbrev pub with_account_id : String → ℕ → String → World T C → Option Session → World T C
  with_account_id id generation cloud_id w none = w
  with_account_id id generation cloud_id w (some s) =
      if s.generation == generation
      then record w {
        sessions = set id (record s { meta_api_account_id = some cloud_id }) w.sessions;
      }
      else w

  abbrev pub remember_account_id : String → ℕ → String → World T C → World T C
  remember_account_id id generation cloud_id w =
      with_account_id id generation cloud_id w (get id w.sessions)

module _ {F T C : Type 0} ⦃accounts : AccountTable F T⦄ ⦃api : MetaApi C⦄ (on : Setting F T C) where
  -- The `catch` of `open`, which closes the connections that the attempt has opened.
  abbrev pub closed_if : Bool → (C → Reply Unit × C) → World T C → World T C
  closed_if false close w = w
  closed_if true close w = (await on close_call close w).1

  abbrev pub caught : ManagedAccount F → Bool → Bool → Caught → World T C → World T C
  caught resolved rpc stream e w = handle_failure resolved (on.message_of e) e (
      closed_if rpc (close_one api.close_rpc resolved.meta_api_account_id) (
        closed_if stream (close_one api.close_stream resolved.meta_api_account_id)
          (record w { sessions = delete resolved.trading_account_id w.sessions })))

  -- One call in the `try` of `open`; `rpc` and `stream` say which connections are open.
  abbrev pub tried :
      {A : Type 0}
      → ManagedAccount F
      → Bool
      → Bool
      → Reply A × World T C
      → (A → World T C → World T C)
      → World T C
  tried resolved rpc stream (threw e, w) rest = caught resolved rpc stream e w
  tried resolved rpc stream (gave a, w) rest = rest a w

  abbrev pub activation : ManagedAccount F → String → AccountRow F → AccountRow F
  activation account cloud_id r = record r {
    terminal_integration_status = none;
    terminal_account_id = some cloud_id;
    last_sync_at = some on.now;
    terminal_sync_state =
        merge_sync_state account
          (("deployedAt", json_text on.now_text) ∷ ("lastError", json_null) ∷ []);
  }

  -- The body of the `try`, from its end: the session is replaced and the row is marked active.
  abbrev pub installed : ManagedAccount F → ℕ → CloudAccount → World T C → World T C
  installed account generation a w =
      tried account true true
        (await_update on update_call account.trading_account_id (activation account a.id)
          (record w {
            sessions =
                set account.trading_account_id
                  (record {
                    generation = generation;
                    meta_api_account_id = some a.id;
                    live = some a.id;
                  })
                  w.sessions;
            backoff = delete account.trading_account_id w.backoff;
          }))
        (λ u w'. w')

  abbrev pub last_gate : ManagedAccount F → ℕ → CloudAccount → World T C → World T C
  last_gate account generation a w =
      if abandon account.trading_account_id generation w
      then tried account true true (await on close_call (close_both a.id) w) (λ u w'. w')
      else installed account generation a w

  abbrev pub with_stream : ManagedAccount F → ℕ → CloudAccount → World T C → World T C
  with_stream account generation a w =
      tried account true true (await on connect_stream_call (λ c. api.connect_stream c a.id) w)
        (λ u w1.
          tried account true true
            (await on sync_stream_call (λ c. api.synchronize_stream c a.id) w1)
            (λ v w2. last_gate account generation a w2))

  abbrev pub after_backfill : ManagedAccount F → ℕ → CloudAccount → World T C → World T C
  after_backfill account generation a w =
      if abandon account.trading_account_id generation w
      then tried account true false (await on close_call (λ c. api.close_rpc c a.id) w) (λ u w'. w')
      else with_stream account generation a w

  abbrev pub with_rpc : ManagedAccount F → ℕ → CloudAccount → World T C → World T C
  with_rpc account generation a w =
      tried account true false (await on connect_rpc_call (λ c. api.connect_rpc c a.id) w) (λ u w1.
        tried account true false (await on sync_rpc_call (λ c. api.synchronize_rpc c a.id) w1)
          (λ v w2.
            tried account true false (await on backfill_call (on.backfill account) w2)
              (λ z w3. after_backfill account generation a w3)))

  abbrev pub connected : ManagedAccount F → ℕ → CloudAccount → World T C → World T C
  connected account generation a w =
      if abandon account.trading_account_id generation w then w else with_rpc account generation a w

  abbrev pub deployed : CloudAccount → World T C → Reply Unit × World T C
  deployed a w =
      if is_undeployed a.state
      then await on deploy_call (λ c. api.deploy c a.id) w
      else (gave tt, w)

  abbrev pub bring_up : ManagedAccount F → ℕ → CloudAccount → World T C → World T C
  bring_up account generation a w = tried account false false (deployed a w) (λ u w1.
      tried account false false (await on wait_call (λ c. api.wait_connected c a.id) w1)
        (λ v w2. connected account generation a w2))

  abbrev pub ensured : ManagedAccount F → ℕ → CloudAccount → World T C → World T C
  ensured account generation a w =
      let w' = remember_account_id account.trading_account_id generation a.id w in
      if abandon account.trading_account_id generation w'
      then w'
      else bring_up (record account { meta_api_account_id = some a.id }) generation a w'

  -- The slot is claimed for this generation before the first call.
  abbrev pub claimed : ManagedAccount F → World T C → World T C
  claimed account w = record w {
    opening = account.trading_account_id ∷ w.opening;
    generation = w.generation + 1;
    sessions =
        set account.trading_account_id
          (record {
            generation = w.generation + 1;
            meta_api_account_id = account.meta_api_account_id;
            live = none;
          })
          w.sessions;
  }

  abbrev pub finished : ManagedAccount F → World T C → World T C
  finished account w = record w { opening = remove account.trading_account_id w.opening }

  abbrev pub attempted : ManagedAccount F → ℕ → World T C → World T C
  attempted account generation w =
      tried account false false (ensure_account on account w)
        (λ a w'. ensured account generation a w')

  unfoldable pub open_account : ManagedAccount F → World T C → World T C
  open_account account w =
      if elem account.trading_account_id w.opening
      then w
      else finished account (attempted account (w.generation + 1) (claimed account w))
