-- ===== src/Tradelocker/Manager/Sessions.antt =====
-- The sessions of src/tradelocker/connection-manager.service.ts: connecting, reconnecting, and
-- following the accounts of the database. What the logins, the sockets and the database answer comes
-- with the event that ends the await.
pub mod Reconcile
pub mod Alive
pub mod Events
use tradetrack_api.Prelude.{
  ℕ, ◌+◌, ◌-◌, ◌*◌, ◌^◌, ◌==◌, min, Bool, true, false, ◌&&◌, ◌||◌, not, String, Option, none, some,
  List, [], ◌∷◌, is_some, get, set, if◌then◌else◌,
}
use tradetrack_api.Tradelocker.Manager.Accounts.{ManagedAccount, AccountToken, Texts, match_token}
use tradetrack_api.Tradelocker.Client.{is_fatal_status}
use tradetrack_api.Tradelocker.Connection.{SubscribeError}

abbrev pub reconnect_base_delay_ms : ℕ
reconnect_base_delay_ms = 1000

abbrev pub reconnect_max_delay_ms : ℕ
reconnect_max_delay_ms = 60000

abbrev pub connect_failures_sentry_threshold : ℕ
connect_failures_sentry_threshold = 5

-- What the attempt of the present generation waits for; none where it has returned.
pub data Phase : Type 0 where
  authenticating : Phase
  opening : AccountToken → Phase
  subscribing : AccountToken → Phase
  deactivating : Phase

-- `connection` is the generation of the attempt that made it, `reconnect_timer` the delay, `serial`
-- tells the objects apart that an account has one after the other. `retired` is set where the last
-- attempt ended in a way that the code does not retry.
pub record Session (F : Type 0) : Type 0 where
  pub account : ManagedAccount F
  pub serial : ℕ
  pub token : Option AccountToken
  pub connection : Option ℕ
  pub reconnect_attempt : ℕ
  pub reconnect_timer : Option ℕ
  pub generation : ℕ
  pub last_backfill_at : ℕ
  pub synced : Bool
  pub seen_opens : List String
  pub pnl_write_at : List (String × ℕ)
  pub phase : Option Phase
  pub retired : Bool

-- `closed` lists the connections that were closed, `reports` what was sent to Sentry for an attempt
-- that failed, `backfills` the calls of `backfillCloses` for all history or for the newest page.
pub record Manager (F : Type 0) : Type 0 where
  pub sessions : List (String × Session F)
  pub next_serial : ℕ
  pub stopped : Bool
  pub closed : List (String × ℕ)
  pub reports : List (String × ℕ)
  pub backfills : List (String × ℕ)

-- How the requests of an attempt fail: HTTP, the ack of SUBSCRIBE, or anything else.
pub data Caught : Type 0 where
  auth_error : ℕ → Caught
  subscribe_error : SubscribeError → Caught
  other_error : Caught

abbrev pub reconnect_delay : ℕ → ℕ
reconnect_delay attempt = min (reconnect_base_delay_ms * 2 ^ (attempt - 1)) reconnect_max_delay_ms

-- Whether a caught error goes to the backoff, where the fifth failure in a row is reported.
abbrev pub is_transient : Caught → Bool
is_transient (auth_error status) = not (is_fatal_status status)
is_transient (subscribe_error e) = not e.fatal
is_transient other_error = true

module _ {F : Type 0} where
  abbrev pub with_session : String → Session F → Manager F → Manager F
  with_session id s m = record m { sessions = set id s m.sessions }

  abbrev pub close_connection : String → Option ℕ → Manager F → Manager F
  close_connection id none m = m
  close_connection id (some generation) m = record m { closed = (id, generation) ∷ m.closed }

  -- `connect`, up to its first await, for a session that its account has.
  abbrev pub connect_session : Session F → Session F
  connect_session s = record s {
    generation = s.generation + 1;
    synced = false;
    seen_opens = [];
    pnl_write_at = [];
    phase = some authenticating;
    retired = false;
  }

  unfoldable pub start_account : ℕ → ManagedAccount F → Manager F → Manager F
  start_account now account m =
      let s : Session F = record {
        account = account;
        serial = m.next_serial;
        token = none;
        connection = none;
        reconnect_attempt = 0;
        reconnect_timer = none;
        generation = 0;
        last_backfill_at = now;
        synced = false;
        seen_opens = [];
        pnl_write_at = [];
        phase = none;
        retired = false;
      } in
      record (with_session account.trading_account_id (if m.stopped then s else connect_session s)
        m) { next_serial = m.next_serial + 1 }

  -- `scheduleReconnect`, for a session that its account has.
  unfoldable pub schedule_reconnect : Bool → Session F → Session F
  schedule_reconnect stopped s = if stopped || is_some s.reconnect_timer then s else record s {
    reconnect_attempt = s.reconnect_attempt + 1;
    reconnect_timer = some (reconnect_delay (s.reconnect_attempt + 1));
  }

  abbrev pub retire : Session F → Session F
  retire s = record s { phase = none; retired = true }

  -- The attempt fails in a way that heals by itself.
  abbrev pub failed_again : Bool → Session F → Session F
  failed_again stopped s = schedule_reconnect stopped (record s { phase = none })

  -- The `catch` of `connect`, where the attempt is not superseded.
  abbrev pub caught : Bool → Caught → Session F → Session F
  caught stopped (auth_error status) s =
      if is_fatal_status status
      then record s { connection = none; phase = some deactivating }
      else failed_again stopped (record s { connection = none })
  caught stopped (subscribe_error e) s =
      if e.fatal
      then retire (record s { connection = none })
      else failed_again stopped (record s { connection = none })
  caught stopped other_error s = failed_again stopped (record s { connection = none })

  abbrev pub reported : String → Caught → Session F → Manager F → Manager F
  reported id e s m =
      if is_transient e && s.reconnect_attempt + 1 == connect_failures_sentry_threshold
      then record m { reports = (id, s.generation) ∷ m.reports }
      else m

  abbrev pub fail_attempt : String → Caught → Session F → Manager F → Manager F
  fail_attempt id e s m =
      with_session id (caught m.stopped e s) (reported id e s (close_connection id s.connection m))

  abbrev pub superseded : ℕ → ℕ → Bool → Session F → Bool
  superseded serial generation stopped s =
      stopped || not (s.serial == serial) || not (s.generation == generation)

-- What an attempt that waits is told.
pub data Answer : Type 0 where
  tokens : List AccountToken → Answer
  opened : Answer
  subscribed : Answer
  jwt_invalid : Answer
  fails : Caught → Answer

module _ {F : Type 0} (texts : Texts) where
  -- The login returned an account's token, or not.
  abbrev pub matched : Session F → Option AccountToken → Session F
  matched s none = retire s
  matched s (some token) = record s {
    token = some token;
    connection = some s.generation;
    phase = some (opening token);
  }

  -- The attempt goes on from an await. `jwt_invalid` is `onJwtInvalid`, before the ack's error.
  abbrev pub answered : String → Phase → Answer → Session F → Manager F → Manager F
  answered id authenticating (tokens ts) s m =
      with_session id (matched s (match_token texts ts s.account)) m
  answered id (opening token) opened s m =
      with_session id (record s { phase = some (subscribing token) }) m
  answered id (subscribing token) subscribed s m =
      with_session id (record s { reconnect_attempt = 0; phase = none }) m
  answered id (subscribing token) jwt_invalid s m = with_session id (record s { token = none }) m
  answered id authenticating (fails e) s m = fail_attempt id e s m
  answered id (opening token) (fails e) s m = fail_attempt id e s m
  answered id (subscribing token) (fails e) s m = fail_attempt id e s m
  answered id _ _ s m = m

  abbrev pub answered_phase : String → Option Phase → Answer → Session F → Manager F → Manager F
  answered_phase id none answer s m = m
  answered_phase id (some phase) answer s m = answered id phase answer s m

  -- A superseded attempt closes its own connection and returns.
  abbrev pub answered_session : String → ℕ → ℕ → Answer → Option (Session F) → Manager F → Manager F
  answered_session id serial generation answer none m = close_connection id (some generation) m
  answered_session id serial generation answer (some s) m =
      if superseded serial generation m.stopped s
      then close_connection id (some generation) m
      else answered_phase id s.phase answer s m

  unfoldable pub attempt_answered : String → ℕ → ℕ → Answer → Manager F → Manager F
  attempt_answered id serial generation answer m =
      answered_session id serial generation answer (get id m.sessions) m
