-- ===== src/Tradelocker/Manager/Sessions/Alive.antt =====
-- What keeps a session of src/tradelocker/connection-manager.service.ts going, and its attempts.
use tradetrack_api.Prelude.{
  ℕ, ◌+◌, ◌==◌, ◌≡◌, refl, ap, Bool, true, false, ◌&&◌, ◌||◌, String, Option, none, some, is_some,
  get, Each, set-Each, inl, inr, Bool-cases, or_right, or_false, arith, if_true, if_false,
  if_either,
}
use tradetrack_api.Tradelocker.Manager.Accounts.{AccountToken, Texts, match_token}
use tradetrack_api.Tradelocker.Client.{is_fatal_status}
use tradetrack_api.Tradelocker.Manager.Sessions.{
  Phase, authenticating, opening, subscribing, deactivating, Session, Manager, Caught, auth_error,
  subscribe_error, other_error, with_session, close_connection, schedule_reconnect, retire, caught,
  is_transient, connect_failures_sentry_threshold, reported, fail_attempt, superseded, Answer,
  tokens, opened, subscribed, jwt_invalid, fails, matched, answered, answered_phase,
  answered_session, attempt_answered,
}

third : (a b c : Bool) → b ≡ true → (a || b || c) ≡ true
third a b c e = ground arith

-- The attempt waits for its login, or for the stamp of an account that it rejected.
abbrev pub is_login : Option Phase → Bool
is_login (some authenticating) = true
is_login (some deactivating) = true
is_login _ = false

-- An attempt past its login may go on: its connection or its timer stays.
past_login :
    (p q : Option Phase) (c t r : Bool)
    → is_login p ≡ false
    → (is_login p || c || t || r) ≡ true
    → (is_login q || c || t || r) ≡ true
past_login p q c t r e h = moved (is_login p) (is_login q) e h
  where
    moved : (a b : Bool) → a ≡ false → (a || c || t || r) ≡ true → (b || c || t || r) ≡ true
    moved a b e h = ground arith

module _ {F : Type 0} where
  -- A login is under way, or there is a connection, or a timer that will start an attempt, or the last
  -- attempt ended in a way that is not retried.
  abbrev pub has_future : Session F → Bool
  has_future s = is_login s.phase || is_some s.connection || is_some s.reconnect_timer || s.retired

  abbrev pub IsAlive : Session F → Type 0
  IsAlive s = has_future s ≡ true

  abbrev pub IsRunning : Manager F → Type 0
  IsRunning m = (m.stopped ≡ false) × Each IsAlive m.sessions

  pub timer-IsAlive : (s : Session F) → is_some s.reconnect_timer ≡ true → IsAlive s
  timer-IsAlive s e = third (is_login s.phase || is_some s.connection) _ s.retired e

  pub retire-IsAlive : (s : Session F) → IsAlive (retire s)
  retire-IsAlive s = or_right (is_some s.connection || is_some s.reconnect_timer) true refl

  -- A reconnect leaves a timer, its own or the one that was pending.
  pub schedule_reconnect-IsAlive :
      (stopped : Bool) (s : Session F) → stopped ≡ false → IsAlive (schedule_reconnect stopped s)
  unfolding schedule_reconnect
  schedule_reconnect-IsAlive stopped s e = elim (Bool-cases (is_some s.reconnect_timer)) [
    | inl f ↦ if_true IsAlive _ s _ (or_right stopped _ f) (timer-IsAlive s f)
    | inr f ↦
        if_false IsAlive _ s _ (or_false stopped _ e f)
          (third (is_login s.phase || is_some s.connection) true s.retired refl)
  ]

  pub with_session-IsRunning :
      (id : String) (s : Session F) (m : Manager F)
      → IsRunning m
      → IsAlive s
      → IsRunning (with_session id s m)
  with_session-IsRunning id s m (running, alive) h =
      (running, set-Each IsAlive id s m.sessions alive h)

  pub close_connection-IsRunning :
      (id : String) (c : Option ℕ) (m : Manager F)
      → IsRunning m
      → IsRunning (close_connection id c m)
  close_connection-IsRunning id none m h = h
  close_connection-IsRunning id (some g) m h = h

  caught-IsAlive :
      (stopped : Bool) (e : Caught) (s : Session F) → stopped ≡ false → IsAlive (caught stopped e s)
  caught-IsAlive stopped (auth_error status) s running =
      if_either IsAlive (is_fatal_status status) _ _ refl
        (schedule_reconnect-IsAlive stopped _ running)
  caught-IsAlive stopped (subscribe_error e) s running =
      if_either IsAlive e.fatal _ _ (retire-IsAlive (record s { connection = none }))
        (schedule_reconnect-IsAlive stopped _ running)
  caught-IsAlive stopped other_error s running = schedule_reconnect-IsAlive stopped _ running

  reported-IsRunning :
      (id : String) (e : Caught) (s : Session F) (m : Manager F)
      → IsRunning m
      → IsRunning (reported id e s m)
  reported-IsRunning id e s m h =
      if_either IsRunning
        (is_transient e && s.reconnect_attempt + 1 == connect_failures_sentry_threshold) _ m h h

  fail_attempt-IsRunning :
      (id : String) (e : Caught) (s : Session F) (m : Manager F)
      → IsRunning m
      → IsRunning (fail_attempt id e s m)
  fail_attempt-IsRunning id e s m h =
      let closed = close_connection id s.connection m in
      with_session-IsRunning id (caught m.stopped e s) (reported id e s closed)
        (reported-IsRunning id e s closed (close_connection-IsRunning id s.connection m h))
        (caught-IsAlive m.stopped e s h.0)

module _ {F : Type 0} (texts : Texts) where
  matched-IsAlive : (s : Session F) (o : Option AccountToken) → IsAlive (matched texts s o)
  matched-IsAlive s none = retire-IsAlive s
  matched-IsAlive s (some token) = refl

  answered-IsRunning :
      (id : String) (p : Phase) (answer : Answer) (s : Session F) (m : Manager F)
      → s.phase ≡ some p
      → IsAlive s
      → IsRunning m
      → IsRunning (answered texts id p answer s m)
  answered-IsRunning id authenticating (tokens ts) s m e a h =
      with_session-IsRunning id _ m h (matched-IsAlive s (match_token texts ts s.account))
  answered-IsRunning id authenticating opened s m e a h = h
  answered-IsRunning id authenticating subscribed s m e a h = h
  answered-IsRunning id authenticating jwt_invalid s m e a h = h
  answered-IsRunning id authenticating (fails c) s m e a h = fail_attempt-IsRunning id c s m h
  answered-IsRunning id (opening token) (tokens ts) s m e a h = h
  answered-IsRunning id (opening token) opened s m e a h =
      with_session-IsRunning id (record s { phase = some (subscribing token) }) m h
        (past_login s.phase (some (subscribing token)) (is_some s.connection)
          (is_some s.reconnect_timer) s.retired (ap is_login e) a)
  answered-IsRunning id (opening token) subscribed s m e a h = h
  answered-IsRunning id (opening token) jwt_invalid s m e a h = h
  answered-IsRunning id (opening token) (fails c) s m e a h = fail_attempt-IsRunning id c s m h
  answered-IsRunning id (subscribing token) (tokens ts) s m e a h = h
  answered-IsRunning id (subscribing token) opened s m e a h = h
  answered-IsRunning id (subscribing token) subscribed s m e a h =
      with_session-IsRunning id (record s { reconnect_attempt = 0; phase = none }) m h
        (past_login s.phase none (is_some s.connection) (is_some s.reconnect_timer) s.retired
          (ap is_login e) a)
  answered-IsRunning id (subscribing token) jwt_invalid s m e a h =
      with_session-IsRunning id (record s { token = none }) m h a
  answered-IsRunning id (subscribing token) (fails c) s m e a h = fail_attempt-IsRunning id c s m h
  answered-IsRunning id deactivating (tokens ts) s m e a h = h
  answered-IsRunning id deactivating opened s m e a h = h
  answered-IsRunning id deactivating subscribed s m e a h = h
  answered-IsRunning id deactivating jwt_invalid s m e a h = h
  answered-IsRunning id deactivating (fails c) s m e a h = h

  answered_phase-IsRunning :
      (id : String) (o : Option Phase) (answer : Answer) (s : Session F) (m : Manager F)
      → s.phase ≡ o
      → IsAlive s
      → IsRunning m
      → IsRunning (answered_phase texts id o answer s m)
  answered_phase-IsRunning id none answer s m e a h = h
  answered_phase-IsRunning id (some p) answer s m e a h = answered-IsRunning id p answer s m e a h

  answered_session-IsRunning :
      (id : String) (serial generation : ℕ) (answer : Answer) (o : Option (Session F))
      (m : Manager F)
      → get id m.sessions ≡ o
      → IsRunning m
      → IsRunning (answered_session texts id serial generation answer o m)
  answered_session-IsRunning id serial generation answer none m at h =
      close_connection-IsRunning id (some generation) m h
  answered_session-IsRunning id serial generation answer (some s) m at h =
      if_either IsRunning (superseded serial generation m.stopped s) _ _
        (close_connection-IsRunning id (some generation) m h)
        (answered_phase-IsRunning id s.phase answer s m refl (h.1 id s at) h)

  -- An attempt that goes on leaves every session with a future.
  pub attempt_answered-IsRunning :
      (id : String) (serial generation : ℕ) (answer : Answer) (m : Manager F)
      → IsRunning m
      → IsRunning (attempt_answered texts id serial generation answer m)
  unfolding attempt_answered
  attempt_answered-IsRunning id serial generation answer m h =
      answered_session-IsRunning id serial generation answer (get id m.sessions) m refl h
