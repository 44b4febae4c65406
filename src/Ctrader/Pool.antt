-- ===== src/Ctrader/Pool.antt =====
-- src/ctrader/ctrader-connection-manager.ts: the sessions, one for each environment, as a state on
-- which the events of sockets, timers and reconcile ticks act. A connection stands for the attempt
-- that opened it; what is sent on it is not part of the state.
pub mod Accounts
pub mod Reconcile
pub mod Probe
pub mod Freshest
pub mod Unique
pub mod Alive
pub mod Rescheduled
pub mod Events
pub mod Recovered
use tradetrack_api.Prelude.{
  ℕ, ◌+◌, ◌-◌, ◌*◌, ◌^◌, ◌==◌, min, Bool, true, false, ◌||◌, not, String, str_eq, concat, Option,
  none, some, List, [], ◌∷◌, map, get, set, delete, if◌then◌else◌,
}
use tradetrack_api.Number.{JsNumber}
use tradetrack_api.Ctrader.Types.{CtraderEnvironment, demo, live, PoolAccount}

abbrev pub reconnect_base_delay_ms : ℕ
reconnect_base_delay_ms = 1000

abbrev pub reconnect_max_delay_ms : ℕ
reconnect_max_delay_ms = 60000

abbrev pub reconnect_delay : ℕ → ℕ
reconnect_delay attempt = min (reconnect_base_delay_ms * 2 ^ (attempt - 1)) reconnect_max_delay_ms

-- The texts that stand for the environments.
abbrev pub environment_text : CtraderEnvironment → String
environment_text demo = "demo"
environment_text live = "live"

abbrev pub ctid_key : {F : Type 0} ⦃num : JsNumber F⦄ → String → F → String
ctid_key ⦃num⦄ environment ctid = concat environment (concat ":" (num.to_string ctid))

-- `connection` is the generation of the attempt that opened it, `reconnect_timer` the delay. `serial`
-- tells the session objects apart that an environment has one after the other.
pub record EnvSession (F : Type 0) : Type 0 where
  pub accounts : List (PoolAccount F)
  pub connection : Option ℕ
  pub reconnect_attempt : ℕ
  pub reconnect_timer : Option ℕ
  pub generation : ℕ
  pub serial : ℕ
  pub signature : String

-- `attempts` and `closed` list the connections that were opened and closed, the last one first.
pub record Pool (F : Type 0) : Type 0 where
  pub sessions : List (String × EnvSession F)
  pub accounts_by_ctid : List (String × PoolAccount F)
  pub next_serial : ℕ
  pub stopped : Bool
  pub last_probe : Option (ℕ × ℕ)
  pub attempts : List (String × ℕ)
  pub closed : List (String × ℕ)

module _ {F : Type 0} where
  abbrev pub with_session : String → EnvSession F → Pool F → Pool F
  with_session environment s p = record p { sessions = set environment s p.sessions }

  -- `connection?.close()`
  abbrev pub close_connection : String → Option ℕ → Pool F → Pool F
  close_connection environment none p = p
  close_connection environment (some c) p = record p { closed = (environment, c) ∷ p.closed }

  -- `connectEnv` up to its first `await`, where the credentials are set.
  abbrev pub connect_session : String → Pool F → Option (EnvSession F) → Pool F
  connect_session environment p none = p
  connect_session environment p (some s) =
      with_session environment
        (record s { generation = s.generation + 1; connection = some (s.generation + 1) })
        (record p { attempts = (environment, s.generation + 1) ∷ p.attempts })

  abbrev pub connect_env : String → Pool F → Pool F
  connect_env environment p =
      if p.stopped then p else connect_session environment p (get environment p.sessions)

  abbrev pub delayed : String → Pool F → EnvSession F → Option ℕ → Pool F
  delayed environment p s (some pending) = p
  delayed environment p s none =
      with_session environment
        (record s {
          reconnect_attempt = s.reconnect_attempt + 1;
          reconnect_timer = some (reconnect_delay (s.reconnect_attempt + 1));
        })
        p

  abbrev pub schedule_session : String → Pool F → Option (EnvSession F) → Pool F
  schedule_session environment p none = p
  schedule_session environment p (some s) = delayed environment p s s.reconnect_timer

  abbrev pub schedule_reconnect : String → Pool F → Pool F
  schedule_reconnect environment p =
      if p.stopped then p else schedule_session environment p (get environment p.sessions)

  abbrev pub without_connection : String → EnvSession F → Pool F → Pool F
  without_connection environment s p = with_session environment (record s { connection = none }) p

  -- `handleLost`, for the session that there is.
  abbrev pub lost_session : String → ℕ → Pool F → Option (EnvSession F) → Pool F
  lost_session environment generation p none = p
  lost_session environment generation p (some s) =
      if s.generation == generation
      then schedule_reconnect environment
          (without_connection environment s (close_connection environment s.connection p))
      else p

  unfoldable pub handle_lost : String → ℕ → Pool F → Pool F
  handle_lost environment generation p =
      lost_session environment generation p (get environment p.sessions)

  -- The callback of the timer.
  abbrev pub fired_session : String → Pool F → Option (EnvSession F) → Pool F
  fired_session environment p none = p
  fired_session environment p (some s) =
      connect_env environment (with_session environment (record s { reconnect_timer = none }) p)

  unfoldable pub timer_fired : String → Pool F → Pool F
  timer_fired environment p = fired_session environment p (get environment p.sessions)

  -- `superseded()`, for the session object that the attempt was started with. Where it has been
  -- dropped, its generation was raised before.
  abbrev pub superseded : ℕ → ℕ → Bool → EnvSession F → Bool
  superseded serial generation stopped s =
      stopped || not (s.serial == serial) || not (s.generation == generation)

  -- The `catch` of `connectEnv`.
  abbrev pub failed_session : String → ℕ → ℕ → Pool F → Option (EnvSession F) → Pool F
  failed_session environment serial generation p none =
      close_connection environment (some generation) p
  failed_session environment serial generation p (some s) =
      if superseded serial generation p.stopped s
      then close_connection environment (some generation) p
      else schedule_reconnect environment
          (without_connection environment s (close_connection environment (some generation) p))

  unfoldable pub connect_failed : String → ℕ → ℕ → Pool F → Pool F
  connect_failed environment serial generation p =
      failed_session environment serial generation p (get environment p.sessions)

  -- `onModuleDestroy`
  abbrev pub close_all : List (String × EnvSession F) → Pool F → Pool F
  close_all [] p = p
  close_all ((environment, s) ∷ rest) p =
      close_all rest (close_connection environment s.connection p)

  unfoldable pub shut_down : Pool F → Pool F
  shut_down p = record (close_all p.sessions p) {
    stopped = true;
    sessions = [];
    accounts_by_ctid = [];
  }
