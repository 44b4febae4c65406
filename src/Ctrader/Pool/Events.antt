-- ===== src/Ctrader/Pool/Events.antt =====
-- The events of src/ctrader/ctrader-connection-manager.ts, in any order, from an idle manager on.
use mathlib.Core.Option
use tradetrack_api.Prelude.{
  if_either, ℕ, ◌==◌, ◌≡◌, refl, ◌∙◌, false, String, str_eq, Option, none, some, List, [], ◌∷◌, get,
  get-set,
}
use tradetrack_api.Number.{JsNumber}
use tradetrack_api.Ctrader.Types.{PoolAccount}
use tradetrack_api.Ctrader.Pool.{
  EnvSession, Pool, with_session, superseded, handle_lost, timer_fired, connect_failed,
}
use tradetrack_api.Ctrader.Pool.Accounts.{dedupe_by_ctid, compute_signature}
use tradetrack_api.Ctrader.Pool.Reconcile.{
  desired_for, environments, seeded, dropped, replaced, reconcile_session, reconcile_all,
  apply_reconcile, same_probe, applied, probed, reconcile, connected_session, connect_finished,
  invalidated_session, handle_token_invalidated,
}
use tradetrack_api.Ctrader.Pool.Alive.{
  has_future, IsRunning, set-IsAlive, delete-IsAlive, set-AliveBut, close_connection-IsRunning,
  but_one,
}
use tradetrack_api.Ctrader.Pool.Rescheduled.{
  connect_env-IsRunning, handle_lost-IsRunning, handle_lost-last, timer_fired-IsRunning,
  connect_failed-IsRunning,
}

-- What reaches the manager: a socket is lost, the timer of an environment fires, an attempt to
-- connect fails or comes to its end, tokens are reported as invalid, a reconcile tick.
pub data Event (F : Type 0) : Type 0 where
  lost : String → ℕ → Event F
  fires : String → Event F
  fails : String → ℕ → ℕ → Event F
  finishes : String → ℕ → ℕ → (PoolAccount F → Option ℕ) → Event F
  invalidates : String → ℕ → List F → Event F
  ticks : Option (ℕ × ℕ) → Option (List (PoolAccount F)) → Event F

module _ {F : Type 0} ⦃num : JsNumber F⦄ where
  abbrev pub handle : Event F → Pool F → Pool F
  handle (lost environment generation) p = handle_lost environment generation p
  handle (fires environment) p = timer_fired environment p
  handle (fails environment serial generation) p = connect_failed environment serial generation p
  handle (finishes environment serial generation expiry) p =
      connect_finished environment serial generation expiry p
  handle (invalidates environment generation ctids) p =
      handle_token_invalidated environment generation ctids p
  handle (ticks probe loaded) p = reconcile probe loaded p

  abbrev pub handle_all : List (Event F) → Pool F → Pool F
  handle_all [] p = p
  handle_all (e ∷ es) p = handle_all es (handle e p)

  seeded-IsRunning :
      (environment : String) (desired : List (PoolAccount F)) (p : Pool F)
      → IsRunning p
      → IsRunning (seeded environment desired p)
  seeded-IsRunning environment desired p h =
      connect_env-IsRunning environment _
        (h.0, set-AliveBut environment _ p.sessions (but_one environment p h).1)

  dropped-IsRunning :
      (environment : String) (s : EnvSession F) (p : Pool F)
      → IsRunning p
      → IsRunning (dropped environment s p)
  dropped-IsRunning environment s p h =
      let (running, alive) = close_connection-IsRunning environment s.connection p h in
      (running, delete-IsAlive environment _ alive)

  replaced-IsRunning :
      (environment : String) (desired : List (PoolAccount F)) (s : EnvSession F) (p : Pool F)
      → IsRunning p
      → IsRunning (replaced environment desired s p)
  replaced-IsRunning environment desired s p h =
      handle_lost-last environment _ _ (get-set environment _ p.sessions)
        (h.0, set-AliveBut environment _ p.sessions (but_one environment p h).1)

  reconcile_session-IsRunning :
      (environment : String) (desired : List (PoolAccount F)) (p : Pool F)
      (o : Option (EnvSession F))
      → get environment p.sessions ≡ o
      → IsRunning p
      → IsRunning (reconcile_session environment desired p o)
  reconcile_session-IsRunning environment [] p none e h = h
  reconcile_session-IsRunning environment (a ∷ rest) p none e h =
      seeded-IsRunning environment (a ∷ rest) p h
  reconcile_session-IsRunning environment [] p (some s) e h = dropped-IsRunning environment s p h
  reconcile_session-IsRunning environment (a ∷ rest) p (some s) e h =
      if_either IsRunning (str_eq (compute_signature (a ∷ rest)) s.signature) p _ h
        (replaced-IsRunning environment (a ∷ rest) s p h)

  reconcile_all-IsRunning :
      (es : List String) (fresh : List (PoolAccount F)) (p : Pool F)
      → IsRunning p
      → IsRunning (reconcile_all es fresh p)
  reconcile_all-IsRunning [] fresh p h = h
  reconcile_all-IsRunning (e ∷ es) fresh p h =
      reconcile_all-IsRunning es fresh _
        (reconcile_session-IsRunning e (desired_for e fresh) p (get e p.sessions) refl h)

  applied-IsRunning :
      (loaded : Option (List (PoolAccount F))) (p : Pool F)
      → IsRunning p
      → IsRunning (applied loaded p)
  unfolding apply_reconcile
  applied-IsRunning none p h = h
  applied-IsRunning (some fresh) p h = if_either IsRunning p.stopped p _ h (
      reconcile_all-IsRunning (environments p.sessions (dedupe_by_ctid fresh))
        (dedupe_by_ctid fresh) p h)

  probed-IsRunning :
      (loaded : Option (List (PoolAccount F))) (p : Pool F) (o : Option (ℕ × ℕ))
      → IsRunning p
      → IsRunning (probed loaded p o)
  probed-IsRunning loaded p none h = h
  probed-IsRunning loaded p (some probe) h =
      if_either IsRunning (same_probe probe p.last_probe) p _ h
        (applied-IsRunning loaded (record p { last_probe = some probe }) h)

  -- A session whose accounts, count of attempts and signature change.
  changed-IsRunning :
      (environment : String) (s t : EnvSession F) (p : Pool F)
      → get environment p.sessions ≡ some s
      → has_future t ≡ has_future s
      → IsRunning p
      → IsRunning (with_session environment t p)
  changed-IsRunning environment s t p at same h = (
    h.0,
    set-IsAlive environment t p.sessions (but_one environment p h).1 (same ∙ h.1 environment s at),
  )

  connected_session-IsRunning :
      (environment : String) (serial generation : ℕ) (expiry : PoolAccount F → Option ℕ)
      (p : Pool F) (o : Option (EnvSession F))
      → get environment p.sessions ≡ o
      → IsRunning p
      → IsRunning (connected_session environment serial generation expiry p o)
  connected_session-IsRunning environment serial generation expiry p none e h =
      close_connection-IsRunning environment (some generation) p h
  connected_session-IsRunning environment serial generation expiry p (some s) e h =
      if_either IsRunning (superseded serial generation p.stopped s) _ _
        (close_connection-IsRunning environment (some generation) p h)
        (changed-IsRunning environment s _ p e refl h)

  invalidated_session-IsRunning :
      (environment : String) (generation : ℕ) (ctids : List F) (p : Pool F)
      (o : Option (EnvSession F))
      → get environment p.sessions ≡ o
      → IsRunning p
      → IsRunning (invalidated_session environment generation ctids p o)
  invalidated_session-IsRunning environment generation ctids p none e h = h
  invalidated_session-IsRunning environment generation ctids p (some s) e h =
      if_either IsRunning (s.generation == generation) _ p
        (handle_lost-IsRunning environment generation _
          (changed-IsRunning environment s _ p e refl h))
        h

  handle-IsRunning : (e : Event F) (p : Pool F) → IsRunning p → IsRunning (handle e p)
  unfolding reconcile connect_finished handle_token_invalidated
  handle-IsRunning (lost environment generation) p h =
      handle_lost-IsRunning environment generation p h
  handle-IsRunning (fires environment) p h = timer_fired-IsRunning environment p h
  handle-IsRunning (fails environment serial generation) p h =
      connect_failed-IsRunning environment serial generation p h
  handle-IsRunning (finishes environment serial generation expiry) p h =
      connected_session-IsRunning environment serial generation expiry p
        (get environment p.sessions) refl h
  handle-IsRunning (invalidates environment generation ctids) p h =
      invalidated_session-IsRunning environment generation ctids p (get environment p.sessions) refl
        h
  handle-IsRunning (ticks probe loaded) p h =
      if_either IsRunning p.stopped p _ h (probed-IsRunning loaded p probe h)

  handle_all-IsRunning :
      (es : List (Event F)) (p : Pool F) → IsRunning p → IsRunning (handle_all es p)
  handle_all-IsRunning [] p h = h
  handle_all-IsRunning (e ∷ es) p h = handle_all-IsRunning es (handle e p) (handle-IsRunning e p h)

  -- The manager before its first tick.
  abbrev pub idle : Pool F
  idle = record {
    sessions = [];
    accounts_by_ctid = [];
    next_serial = 0;
    stopped = false;
    last_probe = none;
    attempts = [];
    closed = [];
  }

  pub handled-IsRunning : (es : List (Event F)) → IsRunning (handle_all es idle)
  handled-IsRunning es =
      handle_all-IsRunning es idle (refl, λ k s at. absurd (Option.none-ne-some s at))
