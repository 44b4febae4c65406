-- ===== src/Ctrader/Pool/Recovered.antt =====
-- What follows a loss, a failed attempt, invalid tokens and changed accounts, in a session of
-- src/ctrader/ctrader-connection-manager.ts.
use tradetrack_api.Prelude.{
  if_true, if_false, ==_refl, ◌==◌, ℕ, ◌≡◌, refl, sym, ap, ◌∙◌, subst, Bool, true, false, ◌||◌, not,
  String, str_eq, ◌∷◌, Option, none, some, List, get, get-set, is_some,
}
use tradetrack_api.Number.{JsNumber}
use tradetrack_api.Ctrader.Types.{PoolAccount}
use tradetrack_api.Ctrader.Pool.{
  EnvSession, Pool, close_connection, delayed, schedule_session, schedule_reconnect,
  without_connection, lost_session, handle_lost, superseded, failed_session, connect_failed,
}
use tradetrack_api.Ctrader.Pool.Accounts.{compute_signature}
use tradetrack_api.Ctrader.Pool.Alive.{has_future}
use tradetrack_api.Ctrader.Pool.Reconcile.{
  reconcile_session, replaced, invalidated_session, handle_token_invalidated,
}
use tradetrack_api.Ctrader.Pool.Events.{Event, handle_all, idle, handled-IsRunning}

not_superseded :
    (stopped same_serial same_generation : Bool)
    → stopped ≡ false
    → same_serial ≡ true
    → same_generation ≡ true
    → (stopped || not same_serial || not same_generation) ≡ false
not_superseded stopped same_serial same_generation a b c = rw (a, b, c) refl

module _ {F : Type 0} where
  -- The session is there, its connection is given up, and a timer will open the next one.
  abbrev pub IsReconnecting : String → Pool F → Type 0
  IsReconnecting environment p =
      (s : EnvSession F) × (get environment p.sessions ≡ some s)
      × (s.connection ≡ none)
      × (is_some s.reconnect_timer ≡ true)

  delayed-IsReconnecting :
      (environment : String) (s : EnvSession F) (p : Pool F) (timer : Option ℕ)
      → s.reconnect_timer ≡ timer
      → s.connection ≡ none
      → get environment p.sessions ≡ some s
      → IsReconnecting environment (delayed environment p s timer)
  delayed-IsReconnecting environment s p none e gone at =
      (_, get-set environment _ p.sessions, gone, refl)
  delayed-IsReconnecting environment s p (some pending) e gone at = (s, at, gone, ap is_some e)

  schedule_reconnect-IsReconnecting :
      (environment : String) (s : EnvSession F) (p : Pool F)
      → p.stopped ≡ false
      → s.connection ≡ none
      → get environment p.sessions ≡ some s
      → IsReconnecting environment (schedule_reconnect environment p)
  schedule_reconnect-IsReconnecting environment s p running gone at =
      if_false (IsReconnecting environment) p.stopped p _ running (
        subst (λ o. IsReconnecting environment (schedule_session environment p o)) (sym at)
          (delayed-IsReconnecting environment s p s.reconnect_timer refl gone at))

  close_connection-stopped :
      (environment : String) (c : Option ℕ) (p : Pool F)
      → (close_connection environment c p).stopped ≡ p.stopped
  close_connection-stopped environment none p = refl
  close_connection-stopped environment (some c) p = refl

  given_up-IsReconnecting :
      (environment : String) (c : Option ℕ) (s : EnvSession F) (p : Pool F)
      → p.stopped ≡ false
      → IsReconnecting environment (
          schedule_reconnect environment
            (without_connection environment s (close_connection environment c p)))
  given_up-IsReconnecting environment c s p running =
      let closed = close_connection environment c p in
      schedule_reconnect-IsReconnecting environment (record s { connection = none })
        (without_connection environment s closed)
        (close_connection-stopped environment c p ∙ running) refl
        (get-set environment _ closed.sessions)

  handle_lost-IsReconnecting :
      (environment : String) (s : EnvSession F) (p : Pool F)
      → p.stopped ≡ false
      → get environment p.sessions ≡ some s
      → IsReconnecting environment (handle_lost environment s.generation p)
  unfolding handle_lost
  handle_lost-IsReconnecting environment s p running at =
      subst (λ o. IsReconnecting environment (lost_session environment s.generation p o)) (sym at)
        (if_true (IsReconnecting environment) (s.generation == s.generation) _ p
          (==_refl s.generation) (given_up-IsReconnecting environment s.connection s p running))

  connect_failed-IsReconnecting :
      (environment : String) (s : EnvSession F) (p : Pool F)
      → p.stopped ≡ false
      → get environment p.sessions ≡ some s
      → IsReconnecting environment (connect_failed environment s.serial s.generation p)
  unfolding connect_failed
  connect_failed-IsReconnecting environment s p running at =
      subst (λ o. IsReconnecting environment (failed_session environment s.serial s.generation p o))
        (sym at)
        (if_false (IsReconnecting environment) (superseded s.serial s.generation p.stopped s) _ _
          (not_superseded p.stopped (s.serial == s.serial) (s.generation == s.generation) running
            (==_refl s.serial) (==_refl s.generation))
          (given_up-IsReconnecting environment (some s.generation) s p running))

module _ {F : Type 0} ⦃num : JsNumber F⦄ where
  handle_token_invalidated-IsReconnecting :
      (environment : String) (ctids : List F) (s : EnvSession F) (p : Pool F)
      → p.stopped ≡ false
      → get environment p.sessions ≡ some s
      → IsReconnecting environment (handle_token_invalidated environment s.generation ctids p)
  unfolding handle_token_invalidated
  handle_token_invalidated-IsReconnecting environment ctids s p running at =
      subst
        (λ o. IsReconnecting environment (invalidated_session environment s.generation ctids p o))
        (sym at)
        (if_true (IsReconnecting environment) (s.generation == s.generation) _ p
          (==_refl s.generation)
          (handle_lost-IsReconnecting environment _ _ running (get-set environment _ p.sessions)))

  replaced-IsReconnecting :
      (environment : String) (desired : List (PoolAccount F)) (s : EnvSession F) (p : Pool F)
      → p.stopped ≡ false
      → IsReconnecting environment (replaced environment desired s p)
  replaced-IsReconnecting environment desired s p running =
      handle_lost-IsReconnecting environment _ _ running (get-set environment _ p.sessions)

  -- After any events, in any order, every session of the manager has the connection of its last attempt
  -- or a timer that will open one. The loss of that attempt, its failure, a report that its tokens are
  -- invalid, and a reconcile that finds accounts with another signature each leave the session without
  -- a connection and with a timer that will open the next one.
  pub handle_all-IsRecovered :
      (es : List (Event F)) (environment : String) (s : EnvSession F) (ctids : List F)
      (a : PoolAccount F) (rest : List (PoolAccount F))
      → get environment (handle_all es idle).sessions ≡ some s
      → str_eq (compute_signature (a ∷ rest)) s.signature ≡ false
      → let p = handle_all es idle in
        (has_future s ≡ true)
        × IsReconnecting environment (handle_lost environment s.generation p)
        × IsReconnecting environment (connect_failed environment s.serial s.generation p)
        × IsReconnecting environment (handle_token_invalidated environment s.generation ctids p)
        × IsReconnecting environment (reconcile_session environment (a ∷ rest) p (some s))
  handle_all-IsRecovered es environment s ctids a rest at changed =
      let p = handle_all es idle in
      let (running, alive) = handled-IsRunning es in
      (
        alive environment s at,
        handle_lost-IsReconnecting environment s p running at,
        connect_failed-IsReconnecting environment s p running at,
        handle_token_invalidated-IsReconnecting environment ctids s p running at,
        if_false (IsReconnecting environment) (str_eq (compute_signature (a ∷ rest)) s.signature) p
            _ changed (replaced-IsReconnecting environment (a ∷ rest) s p running),
      )
