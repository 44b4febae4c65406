-- ===== src/Ctrader/Pool/Rescheduled.antt =====
-- The handlers of src/ctrader/ctrader-connection-manager.ts that keep sessions alive.
use mathlib.Core.Option
use tradetrack_api.Prelude.{
  if_true, if_false, if_either, or_right, ==_refl, ℕ, ◌+◌, ◌==◌, ◌≡◌, refl, sym, ap, ◌∙◌, subst,
  ◌||◌, true, String, Option, none, some, get, is_some,
}
use tradetrack_api.Ctrader.Pool.{
  EnvSession, Pool, with_session, close_connection, connect_session, connect_env, delayed,
  schedule_session, schedule_reconnect, without_connection, lost_session, handle_lost,
  fired_session, timer_fired, superseded, failed_session, connect_failed,
}
use tradetrack_api.Ctrader.Pool.Alive.{
  is_of, has_future, IsRunning, RunningBut, completed, set-AliveBut, set-IsAlive,
  close_connection-RunningBut, close_connection-IsRunning, but_one,
}

module _ {F : Type 0} where
  delayed-IsRunning :
      (environment : String) (p : Pool F) (s : EnvSession F) (timer : Option ℕ)
      → s.reconnect_timer ≡ timer
      → get environment p.sessions ≡ some s
      → RunningBut environment p
      → IsRunning (delayed environment p s timer)
  delayed-IsRunning environment p s none e at (running, others) = (
    running,
    set-IsAlive environment _ p.sessions others
        (or_right (is_of s.generation s.connection) true refl),
  )
  delayed-IsRunning environment p s (some pending) e at (running, others) = (
    running,
    completed environment p.sessions others (λ t there.
        ap has_future (sym (Option.some-injective _ _ (sym at ∙ there)))
        ∙ or_right (is_of s.generation s.connection) (is_some s.reconnect_timer) (ap is_some e)),
  )

  schedule_session-IsRunning :
      (environment : String) (p : Pool F) (o : Option (EnvSession F))
      → get environment p.sessions ≡ o
      → RunningBut environment p
      → IsRunning (schedule_session environment p o)
  schedule_session-IsRunning environment p none e (running, others) = (
    running,
    completed environment p.sessions others
        (λ t there. absurd (Option.none-ne-some t (sym e ∙ there))),
  )
  schedule_session-IsRunning environment p (some s) e h =
      delayed-IsRunning environment p s s.reconnect_timer refl e h

  pub schedule_reconnect-IsRunning :
      (environment : String) (p : Pool F)
      → RunningBut environment p
      → IsRunning (schedule_reconnect environment p)
  schedule_reconnect-IsRunning environment p h =
      if_false IsRunning p.stopped p _ h.0
        (schedule_session-IsRunning environment p (get environment p.sessions) refl h)

  connect_session-IsRunning :
      (environment : String) (p : Pool F) (o : Option (EnvSession F))
      → get environment p.sessions ≡ o
      → RunningBut environment p
      → IsRunning (connect_session environment p o)
  connect_session-IsRunning environment p none e (running, others) = (
    running,
    completed environment p.sessions others
        (λ t there. absurd (Option.none-ne-some t (sym e ∙ there))),
  )
  connect_session-IsRunning environment p (some s) e (running, others) = (
    running,
    set-IsAlive environment _ p.sessions others
        (ap (λ b. b || is_some s.reconnect_timer) (==_refl (s.generation + 1))),
  )

  pub connect_env-IsRunning :
      (environment : String) (p : Pool F)
      → RunningBut environment p
      → IsRunning (connect_env environment p)
  connect_env-IsRunning environment p h =
      if_false IsRunning p.stopped p _ h.0
        (connect_session-IsRunning environment p (get environment p.sessions) refl h)

  pub set-RunningBut :
      (environment : String) (s : EnvSession F) (p : Pool F)
      → RunningBut environment p
      → RunningBut environment (with_session environment s p)
  set-RunningBut environment s p (running, others) =
      (running, set-AliveBut environment s p.sessions others)

  rescheduled :
      (environment : String) (c : Option ℕ) (s : EnvSession F) (p : Pool F)
      → RunningBut environment p
      → IsRunning (
          schedule_reconnect environment
            (without_connection environment s (close_connection environment c p)))
  rescheduled environment c s p h =
      let closed = close_connection environment c p in
      schedule_reconnect-IsRunning environment (without_connection environment s closed) (
        set-RunningBut environment (record s { connection = none }) closed
          (close_connection-RunningBut environment environment c p h))

  lost_session-IsRunning :
      (environment : String) (generation : ℕ) (p : Pool F) (o : Option (EnvSession F))
      → IsRunning p
      → IsRunning (lost_session environment generation p o)
  lost_session-IsRunning environment generation p none h = h
  lost_session-IsRunning environment generation p (some s) h =
      if_either IsRunning (s.generation == generation) _ p
        (rescheduled environment s.connection s p (but_one environment p h)) h

  -- A loss of the last attempt, whatever stands in the session itself.
  pub handle_lost-last :
      (environment : String) (s : EnvSession F) (p : Pool F)
      → get environment p.sessions ≡ some s
      → RunningBut environment p
      → IsRunning (handle_lost environment s.generation p)
  unfolding handle_lost
  handle_lost-last environment s p at h =
      subst (λ o. IsRunning (lost_session environment s.generation p o)) (sym at)
        (if_true IsRunning (s.generation == s.generation) _ p (==_refl s.generation)
          (rescheduled environment s.connection s p h))

  pub handle_lost-IsRunning :
      (environment : String) (generation : ℕ) (p : Pool F)
      → IsRunning p
      → IsRunning (handle_lost environment generation p)
  unfolding handle_lost
  handle_lost-IsRunning environment generation p h =
      lost_session-IsRunning environment generation p (get environment p.sessions) h

  fired_session-IsRunning :
      (environment : String) (p : Pool F) (o : Option (EnvSession F))
      → IsRunning p
      → IsRunning (fired_session environment p o)
  fired_session-IsRunning environment p none h = h
  fired_session-IsRunning environment p (some s) h =
      connect_env-IsRunning environment _ (set-RunningBut environment _ p (but_one environment p h))

  pub timer_fired-IsRunning :
      (environment : String) (p : Pool F) → IsRunning p → IsRunning (timer_fired environment p)
  unfolding timer_fired
  timer_fired-IsRunning environment p h =
      fired_session-IsRunning environment p (get environment p.sessions) h

  failed_session-IsRunning :
      (environment : String) (serial generation : ℕ) (p : Pool F) (o : Option (EnvSession F))
      → IsRunning p
      → IsRunning (failed_session environment serial generation p o)
  failed_session-IsRunning environment serial generation p none h =
      close_connection-IsRunning environment (some generation) p h
  failed_session-IsRunning environment serial generation p (some s) h =
      if_either IsRunning (superseded serial generation p.stopped s) _ _
        (close_connection-IsRunning environment (some generation) p h)
        (rescheduled environment (some generation) s p (but_one environment p h))

  pub connect_failed-IsRunning :
      (environment : String) (serial generation : ℕ) (p : Pool F)
      → IsRunning p
      → IsRunning (connect_failed environment serial generation p)
  unfolding connect_failed
  connect_failed-IsRunning environment serial generation p h =
      failed_session-IsRunning environment serial generation p (get environment p.sessions) h
