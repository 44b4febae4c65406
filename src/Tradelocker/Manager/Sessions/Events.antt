-- ===== src/Tradelocker/Manager/Sessions/Events.antt =====
-- The sessions of src/tradelocker/connection-manager.service.ts under any of its events.
use mathlib.Core.Option
use tradetrack_api.Prelude.{
  ℕ, ◌-◌, ◌==◌, ◌≡◌, refl, Bool, true, false, ◌||◌, not, ltb, String, str_eq, Option, none, some,
  List, [], ◌∷◌, is_some, get, Each, set-Each, delete-Each, if_false, if_either, if◌then◌else◌,
}
use tradetrack_api.Tradelocker.Manager.Accounts.{ManagedAccount, Texts}
use tradetrack_api.Tradelocker.Manager.Sessions.{
  Session, Manager, close_connection, connect_session, start_account,
}
use tradetrack_api.Tradelocker.Manager.Sessions.Reconcile.{
  is_deactivating, lost_session, handle_lost, fired_session, timer_fired, stamped,
  deactivated_session, account_deactivated, synced_session, handle_sync_end, stop_session,
  kept_or_stopped, stop_missing, started, start_desired, scanned_at, scan_all, by_id, reconciled,
  reconcile, periodic_backfill_interval_ms, Event, answers, lost, fires, stamps, syncs, ticks,
  handle, handle_all, idle,
}
use tradetrack_api.Tradelocker.Manager.Sessions.Alive.{
  IsAlive, IsRunning, retire-IsAlive, schedule_reconnect-IsAlive, with_session-IsRunning,
  close_connection-IsRunning, attempt_answered-IsRunning,
}

module _ {F : Type 0} where
  lost_session-IsRunning :
      (id : String) (serial generation : ℕ) (o : Option (Session F)) (m : Manager F)
      → IsRunning m
      → IsRunning (lost_session id serial generation o m)
  lost_session-IsRunning id serial generation none m h = h
  lost_session-IsRunning id serial generation (some s) m h =
      if_either IsRunning (not (s.serial == serial) || not (s.generation == generation)) m _ h (
        with_session-IsRunning id _ (close_connection id s.connection m)
          (close_connection-IsRunning id s.connection m h)
          (schedule_reconnect-IsAlive m.stopped (record s { connection = none }) h.0))

  fired_session-IsRunning :
      (id : String) (o : Option (Session F)) (m : Manager F)
      → IsRunning m
      → IsRunning (fired_session id o m)
  fired_session-IsRunning id none m h = h
  fired_session-IsRunning id (some s) m h =
      let fired = record s { reconnect_timer = none } in
      if_either IsRunning (is_some s.reconnect_timer) _ m
        (with_session-IsRunning id (if m.stopped then fired else connect_session fired) m h
          (if_false IsAlive m.stopped fired (connect_session fired) h.0 refl))
        h

  stamped-IsAlive :
      (stopped done : Bool) (s : Session F) → stopped ≡ false → IsAlive (stamped stopped done s)
  stamped-IsAlive stopped true s e = retire-IsAlive s
  stamped-IsAlive stopped false s e =
      schedule_reconnect-IsAlive stopped (record s { phase = none }) e

  deactivated_session-IsRunning :
      (id : String) (serial : ℕ) (done : Bool) (o : Option (Session F)) (m : Manager F)
      → IsRunning m
      → IsRunning (deactivated_session id serial done o m)
  deactivated_session-IsRunning id serial done none m h = h
  deactivated_session-IsRunning id serial done (some s) m h =
      if_either IsRunning (s.serial == serial) _ m
        (if_either IsRunning (is_deactivating s.phase) _ m
          (with_session-IsRunning id (stamped m.stopped done s) m h
            (stamped-IsAlive m.stopped done s h.0))
          h)
        h

  synced_session-IsRunning :
      (id : String) (serial now : ℕ) (o : Option (Session F)) (m : Manager F)
      → get id m.sessions ≡ o
      → IsRunning m
      → IsRunning (synced_session id serial now o m)
  synced_session-IsRunning id serial now none m at h = h
  synced_session-IsRunning id serial now (some s) m at h =
      if_either IsRunning (s.serial == serial) _ m
        (with_session-IsRunning id (record s { synced = true; last_backfill_at = now }) m h
          (h.1 id s at))
        h

  start_account-IsRunning :
      (now : ℕ) (a : ManagedAccount F) (m : Manager F)
      → IsRunning m
      → IsRunning (start_account now a m)
  unfolding start_account
  start_account-IsRunning now a m h = (
    h.0,
    set-Each IsAlive a.trading_account_id _ m.sessions h.1
        (if_false IsAlive m.stopped _ _ h.0 refl),
  )

  stop_session-IsRunning :
      (id : String) (s : Session F) (m : Manager F) → IsRunning m → IsRunning (stop_session id s m)
  unfolding stop_session
  stop_session-IsRunning id s m h =
      ((close_connection-IsRunning id s.connection m h).0, delete-Each IsAlive id m.sessions h.1)

  stop_missing-IsRunning :
      (ss : List (String × Session F)) (desired : List (String × ManagedAccount F)) (m : Manager F)
      → IsRunning m
      → IsRunning (stop_missing ss desired m)
  stop_missing-IsRunning [] desired m h = h
  stop_missing-IsRunning ((id, s) ∷ rest) desired m h =
      stop_missing-IsRunning rest desired _ (one (get id desired))
    where
      one : (o : Option (ManagedAccount F)) → IsRunning (kept_or_stopped id s o m)
      one none = stop_session-IsRunning id s m h
      one (some a) = h

  started-IsRunning :
      (now : ℕ) (a : ManagedAccount F) (o : Option (Session F)) (m : Manager F)
      → IsRunning m
      → IsRunning (started now a o m)
  started-IsRunning now a none m h = start_account-IsRunning now a m h
  started-IsRunning now a (some s) m h =
      if_either IsRunning (str_eq s.account.signature a.signature) m _ h
        (start_account-IsRunning now a _ (stop_session-IsRunning a.trading_account_id s m h))

  start_desired-IsRunning :
      (now : ℕ) (desired : List (String × ManagedAccount F)) (m : Manager F)
      → IsRunning m
      → IsRunning (start_desired now desired m)
  start_desired-IsRunning now [] m h = h
  start_desired-IsRunning now ((id, a) ∷ rest) m h =
      start_desired-IsRunning now rest _ (started-IsRunning now a (get id m.sessions) m h)

  scanned_at-IsRunning :
      (now : ℕ) (id : String) (o : Option (Session F)) (m : Manager F)
      → get id m.sessions ≡ o
      → IsRunning m
      → IsRunning (scanned_at now id o m)
  scanned_at-IsRunning now id none m at h = h
  scanned_at-IsRunning now id (some s) m at h =
      if_either IsRunning (ltb (now - s.last_backfill_at) periodic_backfill_interval_ms) m _ h
        (with_session-IsRunning id (record s { last_backfill_at = now }) m h (h.1 id s at))

  scan_all-IsRunning :
      (now : ℕ) (ss : List (String × Session F)) (m : Manager F)
      → IsRunning m
      → IsRunning (scan_all now ss m)
  scan_all-IsRunning now [] m h = h
  scan_all-IsRunning now ((id, s) ∷ rest) m h =
      scan_all-IsRunning now rest _ (scanned_at-IsRunning now id (get id m.sessions) m refl h)

  reconciled-IsRunning :
      (now : ℕ) (o : Option (List (ManagedAccount F))) (m : Manager F)
      → IsRunning m
      → IsRunning (reconciled now o m)
  reconciled-IsRunning now none m h = h
  reconciled-IsRunning now (some accounts) m h =
      let desired = by_id accounts [] in
      let all = start_desired now desired (stop_missing m.sessions desired m) in
      if_either IsRunning m.stopped m _ h (
        scan_all-IsRunning now all.sessions all
          (start_desired-IsRunning now desired _ (stop_missing-IsRunning m.sessions desired m h)))

module _ {F : Type 0} (texts : Texts) where
  handle-IsRunning : (e : Event F) (m : Manager F) → IsRunning m → IsRunning (handle texts e m)
  unfolding handle_lost timer_fired account_deactivated handle_sync_end reconcile
  handle-IsRunning (answers id serial generation answer) m h =
      attempt_answered-IsRunning texts id serial generation answer m h
  handle-IsRunning (lost id serial generation) m h =
      lost_session-IsRunning id serial generation (get id m.sessions) m h
  handle-IsRunning (fires id) m h = fired_session-IsRunning id (get id m.sessions) m h
  handle-IsRunning (stamps id serial done) m h =
      deactivated_session-IsRunning id serial done (get id m.sessions) m h
  handle-IsRunning (syncs id serial now) m h =
      synced_session-IsRunning id serial now (get id m.sessions) m refl h
  handle-IsRunning (ticks now loaded) m h =
      if_either IsRunning m.stopped m _ h (reconciled-IsRunning now loaded m h)

  handle_all-IsRunning :
      (es : List (Event F)) (m : Manager F) → IsRunning m → IsRunning (handle_all texts es m)
  handle_all-IsRunning [] m h = h
  handle_all-IsRunning (e ∷ es) m h =
      handle_all-IsRunning es (handle texts e m) (handle-IsRunning e m h)

  -- Whatever the logins, the sockets, the timers, the database and the reconcile ticks do, in any order,
  -- every session is in a login (or in the stamp that deactivates its account), or has a connection or a timer
  -- that will start an attempt, unless its last attempt ended with no token for its account, with a fatal
  -- rejection of SUBSCRIBE, or with its account deactivated.
  pub handle_all-has_future :
      (es : List (Event F)) → Each IsAlive (handle_all texts es idle).sessions
  handle_all-has_future es =
      (handle_all-IsRunning es idle (refl, λ k s at. absurd (Option.none-ne-some s at))).1
