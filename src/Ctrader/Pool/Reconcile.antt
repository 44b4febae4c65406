-- ===== src/Ctrader/Pool/Reconcile.antt =====
-- src/ctrader/ctrader-connection-manager.ts: `reconcile`, `applyReconcile`, the end of a connect, and
-- a token that is reported as invalid.
use tradetrack_api.Prelude.{
  ℕ, ◌+◌, ◌==◌, Bool, false, ◌&&◌, ◌||◌, String, str_eq, Option, none, some, List, [], ◌∷◌, get,
  set, delete, elem, if◌then◌else◌,
}
use tradetrack_api.Number.{JsNumber}
use tradetrack_api.Ctrader.Types.{PoolAccount}
use tradetrack_api.Ctrader.Pool.{
  environment_text, EnvSession, Pool, with_session, close_connection, connect_env, superseded,
  handle_lost,
}
use tradetrack_api.Ctrader.Pool.Accounts.{key_of, dedupe_by_ctid, compute_signature}

abbrev pub add_once : String → List String → List String
add_once k ks = if elem k ks then ks else k ∷ ks

-- The test of `reconcile` on its probe.
abbrev pub same_probe : ℕ × ℕ → Option (ℕ × ℕ) → Bool
same_probe probe none = false
same_probe (count, updated_at) (some (c, u)) = (count == c) && (updated_at == u)

module _ {F : Type 0} where
  -- `freshByEnv.get(environment) ?? []`
  abbrev pub desired_for : String → List (PoolAccount F) → List (PoolAccount F)
  desired_for environment [] = []
  desired_for environment (a ∷ rest) =
      if str_eq (environment_text a.environment) environment
      then a ∷ desired_for environment rest
      else desired_for environment rest

  abbrev pub fresh_environments : List (PoolAccount F) → List String
  fresh_environments [] = []
  fresh_environments (a ∷ rest) =
      add_once (environment_text a.environment) (fresh_environments rest)

  -- The environments that have a session or a fresh account.
  abbrev pub environments : List (String × EnvSession F) → List (PoolAccount F) → List String
  environments [] fresh = fresh_environments fresh
  environments ((k, s) ∷ rest) fresh = add_once k (environments rest fresh)

module _ {F : Type 0} ⦃num : JsNumber F⦄ where
  abbrev pub set_routing :
      List (PoolAccount F) → List (String × PoolAccount F) → List (String × PoolAccount F)
  set_routing [] m = m
  set_routing (a ∷ rest) m = set_routing rest (set (key_of a) a m)

  abbrev pub clear_routing :
      List (PoolAccount F) → List (String × PoolAccount F) → List (String × PoolAccount F)
  clear_routing [] m = m
  clear_routing (a ∷ rest) m = clear_routing rest (delete (key_of a) m)

  -- A new environment.
  abbrev pub seeded : String → List (PoolAccount F) → Pool F → Pool F
  seeded environment desired p = connect_env environment (record p {
    sessions =
        set environment
          (record {
            accounts = desired;
            connection = none;
            reconnect_attempt = 0;
            reconnect_timer = none;
            generation = 0;
            serial = p.next_serial;
            signature = compute_signature desired;
          })
          p.sessions;
    next_serial = p.next_serial + 1;
    accounts_by_ctid = set_routing desired p.accounts_by_ctid;
  })

  -- An environment without accounts.
  abbrev pub dropped : String → EnvSession F → Pool F → Pool F
  dropped environment s p =
      let p' = close_connection environment s.connection p in
      record p' {
        sessions = delete environment p'.sessions;
        accounts_by_ctid = clear_routing s.accounts p'.accounts_by_ctid;
      }

  -- An environment whose accounts have changed.
  abbrev pub replaced : String → List (PoolAccount F) → EnvSession F → Pool F → Pool F
  replaced environment desired s p = handle_lost environment (s.generation + 1) (record p {
    sessions =
        set environment
          (record s {
            accounts = desired;
            signature = compute_signature desired;
            generation = s.generation + 1;
          })
          p.sessions;
    accounts_by_ctid = set_routing desired (clear_routing s.accounts p.accounts_by_ctid);
  })

  abbrev pub reconcile_session :
      String → List (PoolAccount F) → Pool F → Option (EnvSession F) → Pool F
  reconcile_session environment [] p none = p
  reconcile_session environment (a ∷ rest) p none = seeded environment (a ∷ rest) p
  reconcile_session environment [] p (some s) = dropped environment s p
  reconcile_session environment (a ∷ rest) p (some s) =
      if str_eq (compute_signature (a ∷ rest)) s.signature
      then p
      else replaced environment (a ∷ rest) s p

  abbrev pub reconcile_all : List String → List (PoolAccount F) → Pool F → Pool F
  reconcile_all [] fresh p = p
  reconcile_all (environment ∷ rest) fresh p =
      reconcile_all rest fresh (
        reconcile_session environment (desired_for environment fresh) p
          (get environment p.sessions))

  unfoldable pub apply_reconcile : List (PoolAccount F) → Pool F → Pool F
  apply_reconcile fresh p = reconcile_all (environments p.sessions fresh) fresh p

  -- `reconcile`: the probe is none where that query throws, and so are the accounts.
  abbrev pub applied : Option (List (PoolAccount F)) → Pool F → Pool F
  applied none p = p
  applied (some fresh) p = if p.stopped then p else apply_reconcile (dedupe_by_ctid fresh) p

  abbrev pub probed : Option (List (PoolAccount F)) → Pool F → Option (ℕ × ℕ) → Pool F
  probed loaded p none = p
  probed loaded p (some probe) =
      if same_probe probe p.last_probe
      then p
      else applied loaded (record p { last_probe = some probe })

  unfoldable pub reconcile : Option (ℕ × ℕ) → Option (List (PoolAccount F)) → Pool F → Pool F
  reconcile probe loaded p = if p.stopped then p else probed loaded p probe

  -- The end of `connectEnv`: every account may have a new token by then.
  abbrev pub refresh_all : (PoolAccount F → Option ℕ) → List (PoolAccount F) → List (PoolAccount F)
  refresh_all expiry [] = []
  refresh_all expiry (a ∷ rest) = record a { expires_at = expiry a } ∷ refresh_all expiry rest

  abbrev pub connected_session :
      String → ℕ → ℕ → (PoolAccount F → Option ℕ) → Pool F → Option (EnvSession F) → Pool F
  connected_session environment serial generation expiry p none =
      close_connection environment (some generation) p
  connected_session environment serial generation expiry p (some s) =
      if superseded serial generation p.stopped s
      then close_connection environment (some generation) p
      else let accounts = refresh_all expiry s.accounts in
        with_session environment
          (record s {
            accounts = accounts;
            reconnect_attempt = 0;
            signature = compute_signature accounts;
          })
          p

  unfoldable pub connect_finished : String → ℕ → ℕ → (PoolAccount F → Option ℕ) → Pool F → Pool F
  connect_finished environment serial generation expiry p =
      connected_session environment serial generation expiry p (get environment p.sessions)

  -- `handleTokenInvalidated`
  abbrev pub includes : List F → F → Bool
  includes [] x = false
  includes (y ∷ ys) x = num.eq y x || includes ys x

  abbrev pub expire : List F → PoolAccount F → Option ℕ
  expire ctids a = if includes ctids a.ctid_trader_account_id then some 0 else a.expires_at

  abbrev pub invalidated_session : String → ℕ → List F → Pool F → Option (EnvSession F) → Pool F
  invalidated_session environment generation ctids p none = p
  invalidated_session environment generation ctids p (some s) =
      if s.generation == generation
      then handle_lost environment generation (
          with_session environment (record s { accounts = refresh_all (expire ctids) s.accounts })
            p)
      else p

  unfoldable pub handle_token_invalidated : String → ℕ → List F → Pool F → Pool F
  handle_token_invalidated environment generation ctids p =
      invalidated_session environment generation ctids p (get environment p.sessions)
