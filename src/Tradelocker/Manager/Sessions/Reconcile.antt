-- ===== src/Tradelocker/Manager/Sessions/Reconcile.antt =====
-- The events that reach the sessions of src/tradelocker/connection-manager.service.ts: lost sockets,
-- timers, deactivated accounts, the ends of snapshots, and the reconcile ticks.
use tradetrack_api.Prelude.{
  ℕ, ◌-◌, ◌*◌, ◌==◌, ltb, Bool, true, false, ◌||◌, not, String, str_eq, Option, none, some, List,
  [], ◌∷◌, is_some, get, set, delete, if◌then◌else◌,
}
use tradetrack_api.Tradelocker.Manager.Accounts.{ManagedAccount, Texts}
use tradetrack_api.Tradelocker.Manager.Sessions.{
  Phase, deactivating, Session, Manager, Answer, with_session, close_connection, connect_session,
  start_account, schedule_reconnect, retire, failed_again, attempt_answered,
}

abbrev pub periodic_backfill_interval_ms : ℕ
periodic_backfill_interval_ms = 3 * 60000

abbrev pub is_deactivating : Option Phase → Bool
is_deactivating (some deactivating) = true
is_deactivating _ = false

module _ {F : Type 0} where
  abbrev pub lost_session : String → ℕ → ℕ → Option (Session F) → Manager F → Manager F
  lost_session id serial generation none m = m
  lost_session id serial generation (some s) m =
      if not (s.serial == serial) || not (s.generation == generation)
      then m
      else with_session id (schedule_reconnect m.stopped (record s { connection = none }))
          (close_connection id s.connection m)

  unfoldable pub handle_lost : String → ℕ → ℕ → Manager F → Manager F
  handle_lost id serial generation m = lost_session id serial generation (get id m.sessions) m

  -- The timer of a session fires, which calls `connect`.
  abbrev pub fired_session : String → Option (Session F) → Manager F → Manager F
  fired_session id none m = m
  fired_session id (some s) m =
      if is_some s.reconnect_timer
      then (let fired = record s { reconnect_timer = none } in
          with_session id (if m.stopped then fired else connect_session fired) m)
      else m

  unfoldable pub timer_fired : String → Manager F → Manager F
  timer_fired id m = fired_session id (get id m.sessions) m

  -- The end of `deactivateAccount`: where the stamp failed, the backoff goes on.
  abbrev pub stamped : Bool → Bool → Session F → Session F
  stamped stopped true s = retire s
  stamped stopped false s = failed_again stopped s

  abbrev pub deactivated_session : String → ℕ → Bool → Option (Session F) → Manager F → Manager F
  deactivated_session id serial done none m = m
  deactivated_session id serial done (some s) m =
      if s.serial == serial
      then if is_deactivating s.phase then with_session id (stamped m.stopped done s) m else m
      else m

  unfoldable pub account_deactivated : String → ℕ → Bool → Manager F → Manager F
  account_deactivated id serial done m = deactivated_session id serial done (get id m.sessions) m

  -- `handleSyncEnd`.
  abbrev pub synced_session : String → ℕ → ℕ → Option (Session F) → Manager F → Manager F
  synced_session id serial now none m = m
  synced_session id serial now (some s) m =
      if s.serial == serial
      then record (with_session id (record s { synced = true; last_backfill_at = now }) m) {
        backfills = (id, serial) ∷ m.backfills;
      }
      else m

  unfoldable pub handle_sync_end : String → ℕ → ℕ → Manager F → Manager F
  handle_sync_end id serial now m = synced_session id serial now (get id m.sessions) m

  -- `stopSession`: the timer and the attempt go with the session.
  unfoldable pub stop_session : String → Session F → Manager F → Manager F
  stop_session id s m = record (close_connection id s.connection m) {
    sessions = delete id m.sessions;
  }

  -- One session of the first loop, one account of the second.
  abbrev pub kept_or_stopped :
      String → Session F → Option (ManagedAccount F) → Manager F → Manager F
  kept_or_stopped id s none m = stop_session id s m
  kept_or_stopped id s (some a) m = m

  abbrev pub stop_missing :
      List (String × Session F) → List (String × ManagedAccount F) → Manager F → Manager F
  stop_missing [] desired m = m
  stop_missing ((id, s) ∷ rest) desired m =
      stop_missing rest desired (kept_or_stopped id s (get id desired) m)

  abbrev pub started : ℕ → ManagedAccount F → Option (Session F) → Manager F → Manager F
  started now a none m = start_account now a m
  started now a (some s) m =
      if str_eq s.account.signature a.signature
      then m
      else start_account now a (stop_session a.trading_account_id s m)

  abbrev pub start_desired : ℕ → List (String × ManagedAccount F) → Manager F → Manager F
  start_desired now [] m = m
  start_desired now ((id, a) ∷ rest) m =
      start_desired now rest (started now a (get id m.sessions) m)

  -- The safety net: every session whose last backfill is old enough starts one.
  abbrev pub scanned : ℕ → String → Session F → Manager F → Manager F
  scanned now id s m =
      if ltb (now - s.last_backfill_at) periodic_backfill_interval_ms
      then m
      else record (with_session id (record s { last_backfill_at = now }) m) {
        backfills = (id, s.serial) ∷ m.backfills;
      }

  abbrev pub scanned_at : ℕ → String → Option (Session F) → Manager F → Manager F
  scanned_at now id none m = m
  scanned_at now id (some s) m = scanned now id s m

  abbrev pub scan_all : ℕ → List (String × Session F) → Manager F → Manager F
  scan_all now [] m = m
  scan_all now ((id, s) ∷ rest) m = scan_all now rest (scanned_at now id (get id m.sessions) m)

  -- The last account with an id stands for it, at the place of the first.
  abbrev pub by_id :
      List (ManagedAccount F) → List (String × ManagedAccount F) → List (String × ManagedAccount F)
  by_id [] m = m
  by_id (a ∷ rest) m = by_id rest (set a.trading_account_id a m)

  abbrev pub followed : ℕ → List (String × ManagedAccount F) → Manager F → Manager F
  followed now desired m =
      let kept = stop_missing m.sessions desired m in
      let all = start_desired now desired kept in scan_all now all.sessions all

  -- `reconcile` once the pending closes are retried: `loaded` is none where the query fails.
  abbrev pub reconciled : ℕ → Option (List (ManagedAccount F)) → Manager F → Manager F
  reconciled now none m = m
  reconciled now (some accounts) m = if m.stopped then m else followed now (by_id accounts []) m

  unfoldable pub reconcile : ℕ → Option (List (ManagedAccount F)) → Manager F → Manager F
  reconcile now loaded m = if m.stopped then m else reconciled now loaded m

  -- `onApplicationShutdown`: the timers go with the sessions.
  abbrev pub close_all : List (String × Session F) → Manager F → Manager F
  close_all [] m = m
  close_all ((id, s) ∷ rest) m = close_all rest (close_connection id s.connection m)

  unfoldable pub on_application_shutdown : Manager F → Manager F
  on_application_shutdown m = record (close_all m.sessions (record m { stopped = true })) {
    sessions = [];
  }

pub data Event (F : Type 0) : Type 0 where
  answers : String → ℕ → ℕ → Answer → Event F
  lost : String → ℕ → ℕ → Event F
  fires : String → Event F
  stamps : String → ℕ → Bool → Event F
  syncs : String → ℕ → ℕ → Event F
  ticks : ℕ → Option (List (ManagedAccount F)) → Event F

module _ {F : Type 0} (texts : Texts) where
  abbrev pub handle : Event F → Manager F → Manager F
  handle (answers id serial generation answer) m =
      attempt_answered texts id serial generation answer m
  handle (lost id serial generation) m = handle_lost id serial generation m
  handle (fires id) m = timer_fired id m
  handle (stamps id serial done) m = account_deactivated id serial done m
  handle (syncs id serial now) m = handle_sync_end id serial now m
  handle (ticks now loaded) m = reconcile now loaded m

  abbrev pub handle_all : List (Event F) → Manager F → Manager F
  handle_all [] m = m
  handle_all (e ∷ es) m = handle_all es (handle e m)

module _ {F : Type 0} where
  -- The manager as it is made.
  abbrev pub idle : Manager F
  idle = record {
    sessions = [];
    next_serial = 0;
    stopped = false;
    closed = [];
    reports = [];
    backfills = [];
  }
