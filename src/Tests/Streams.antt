-- ===== src/Tests/Streams.antt =====
-- The TradeLocker manager at concrete accounts, messages and closes.
use tradetrack_api.Prelude.{
  ◌+◌, ◌≤◌, ◌<◌, ◌≡◌, refl, Bool, true, false, Option, none, some, List, [], ◌∷◌, All, Each, elem,
  times, length, inl, inr, Bool-cases, if_true, if_false, num_at, arith, if◌then◌else◌,
}
use tradetrack_api.Number.Fixed.{ℤ, pos, fixed_number}
use tradetrack_api.Store.Memory.{Memory, empty, memory_table}
use tradetrack_api.Tradelocker.Types.{OpenTrade}
use tradetrack_api.Tradelocker.Connection as Socket
use tradetrack_api.Tradelocker.Connection.Once.{losses, handle_all-losses}
use tradetrack_api.Tradelocker.Manager.Accounts.{
  demo, AccountRow, AccountRows, AccountToken, ManagedAccount, Texts,
}
use tradetrack_api.Tradelocker.Manager.Rest.{Turn, grants, create_pacer, rest_min_interval_ms}
use tradetrack_api.Tradelocker.Manager.Rest.Paced.{create_pacer_apart}
use tradetrack_api.Tradelocker.Manager.Stream as Stream
use tradetrack_api.Tradelocker.Manager.Stream.Throttle.{
  IsSpaced, no_calls, handle_statuses, handle_statuses-IsSpaced,
}
use tradetrack_api.Tradelocker.Manager.Sessions as Sessions
use tradetrack_api.Tradelocker.Manager.Sessions.Reconcile as Reconcile
use tradetrack_api.Tradelocker.Manager.Sessions.Alive.{IsAlive}
use tradetrack_api.Tradelocker.Manager.Sessions.Events.{handle_all-has_future}
use tradetrack_api.Tradelocker.Manager.Closes as Closes
use tradetrack_api.Tradelocker.Manager.Closes.Events as CloseEvents
use tradetrack_api.Tradelocker.Manager.Closes.Retries.{retry_pending_closes}
use tradetrack_api.Tradelocker.Manager.Closes.Effects.{under_way}
use tradetrack_api.Tradelocker.Manager.Closes.Once.{handle_all_once}
use tradetrack_api.Tradelocker.Manager.Closes.Followed.{IsTracked}
use tradetrack_api.Tradelocker.Manager.Closes.Reported.{handle_all-IsTracked}
use tradetrack_api.Tests.Data.{tradelocker_open, tradelocker_closed}

abbrev managed : ManagedAccount ℤ
managed = record {
  trading_account_id = "a2";
  user_id = "u1";
  nominal = pos 100000000;
  account_id = "1234";
  acc_num = "1";
  server = "OSP";
  environment = demo;
  email = "trader";
  password = "secret";
  signature = "1234:1:OSP:demo:trader";
}

abbrev row : AccountRow ℤ
row = record {
  id = "a2";
  user_id = "u1";
  nominal = pos 100000000;
  terminal_type = "tradelocker";
  is_archived = false;
  terminal_account_id = some "1234";
  terminal_acc_num = some "1";
  terminal_server = some "OSP";
  terminal_environment = none;
  terminal_integration_status = none;
  terminal_credentials = some (record { email = "trader"; encrypted_password = "x" });
}

-- A table whose query checks every row.
abbrev picked : List (AccountRow ℤ) → (AccountRow ℤ → Bool) → List (AccountRow ℤ)
picked [] test = []
picked (r ∷ rs) test = let rest = picked rs test in if test r then r ∷ rest else rest

picked-All :
    (rs : List (AccountRow ℤ)) (test : AccountRow ℤ → Bool)
    → All (λ r. test r ≡ true) (picked rs test)
picked-All [] test = tt
picked-All (r ∷ rs) test = elim (Bool-cases (test r)) [
  | inl e ↦ if_true (All (λ s. test s ≡ true)) (test r) _ _ e (e, picked-All rs test)
  | inr e ↦ if_false (All (λ s. test s ≡ true)) (test r) _ _ e (picked-All rs test)
]

abbrev picked_rows : AccountRows ℤ (List (AccountRow ℤ))
picked_rows = record { find_many = picked; find_many-All = picked-All }

abbrev requested : Turn
requested = record { made_at = 5000; late = 3 }

-- Seven requests made at once.
abbrev burst : List Turn
burst = requested ∷ requested ∷ requested ∷ requested ∷ requested ∷ requested ∷ requested ∷ []

burst-long : 1 + 6 ≤ length (create_pacer rest_min_interval_ms burst)
unfolding grants
burst-long = omega arith

create_pacer_apart_example :
    num_at (create_pacer rest_min_interval_ms burst) 1 + 10000
    < num_at (create_pacer rest_min_interval_ms burst) 6
create_pacer_apart_example = create_pacer_apart burst 1 burst-long

-- The position is seen in the snapshot, and again after it; another is opened later.
abbrev later_open : OpenTrade ℤ
later_open = record tradelocker_open { position_id = "9" }

abbrev opening : List (Stream.Event ℤ)
opening =
    Stream.position tradelocker_open
    ∷ Stream.sync_end
    ∷ Stream.position tradelocker_open
    ∷ Stream.position later_open
    ∷ Stream.writes 0 true
    ∷ Stream.writes 0 true
    ∷ []

opening-notified : (Stream.handle_all opening Stream.connected).notified ≡ "9" ∷ []
unfolding Stream.handle_position
opening-notified = refl

abbrev floats : Option (List Socket.PositionPnl)
floats = some (record { position_id = "8"; pnl = "12.5" } ∷ [])

handle_statuses-IsSpaced_example :
    IsSpaced
      (handle_statuses
        ((50000, floats) ∷ (60000, floats) ∷ (80000, floats) ∷ [])
        (no_calls ℤ)).calls
handle_statuses-IsSpaced_example =
    handle_statuses-IsSpaced ℤ ((50000, floats) ∷ (60000, floats) ∷ (80000, floats) ∷ [])

-- The socket drops after the server said that it would.
abbrev dropped : List Socket.Event
dropped =
    Socket.opens
    ∷ Socket.streams (Socket.parsed (Socket.property Socket.disconnected))
    ∷ Socket.disconnects
    ∷ Socket.closes true
    ∷ []

handle_all-losses_example :
    (losses (Socket.handle_all dropped Socket.made).calls
      ≤ losses [] + (if Socket.made.lost then 0 else 1))
    × (losses (Socket.handle_all dropped (Socket.close true Socket.made)).calls ≤ losses [])
handle_all-losses_example = handle_all-losses dropped true Socket.made

dropped-losses : losses (Socket.handle_all dropped Socket.made).calls ≡ 1
unfolding Socket.dispatch Socket.fail Socket.close
dropped-losses = refl

abbrev plain : Texts
plain = record {
  strip_prefix = λ s. s;
  strip_zeros = λ s. s;
  trim = λ s. s;
  to_lower_case = λ s. s;
}

abbrev token : AccountToken
token = record {
  access_token = "jwt";
  account_id = "1234";
  brand_id = "b";
  expires_at = none;
  host = none;
}

-- An account connects, its socket is lost, and the next login is rejected.
abbrev night : List (Reconcile.Event ℤ)
night =
    Reconcile.ticks 1000 (some (managed ∷ []))
    ∷ Reconcile.answers "a2" 0 1 (Sessions.tokens (token ∷ []))
    ∷ Reconcile.answers "a2" 0 1 Sessions.opened
    ∷ Reconcile.answers "a2" 0 1 Sessions.subscribed
    ∷ Reconcile.lost "a2" 0 1
    ∷ Reconcile.fires "a2"
    ∷ Reconcile.answers "a2" 0 2 (Sessions.fails (Sessions.auth_error 500))
    ∷ []

handle_all-has_future_example :
    Each IsAlive (Reconcile.handle_all plain night Reconcile.idle).sessions
handle_all-has_future_example = handle_all-has_future plain night

abbrev session : Closes.SessionRef ℤ
session = record { account = managed; serial = 0 }

-- A close is reported twice; the report has no row for it at first, and has it at the retry.
abbrev closing : List (CloseEvents.Event ℤ)
closing =
    CloseEvents.starts session
    ∷ CloseEvents.authorizes "a2" (some "jwt")
    ∷ CloseEvents.closes session "8"
    ∷ CloseEvents.closes session "8"
    ∷ CloseEvents.answers "a2:8" (some [])
    ∷ CloseEvents.ticks
    ∷ CloseEvents.answers "a2:8" (some (tradelocker_closed ∷ []))
    ∷ CloseEvents.writes "a2:8" true
    ∷ []

abbrev closed : Closes.Closes ℤ (Memory ℤ)
closed = CloseEvents.handle_all closing (CloseEvents.no_closes empty)

handle_all_once_example : times "a2:8" closed.notified + under_way "a2:8" closed.tasks ≤ 1
handle_all_once_example = handle_all_once closing empty "a2:8"

closed-notified : closed.notified ≡ "a2:8" ∷ []
unfolding Closes.top_up_close retry_pending_closes
closed-notified = refl

closed-reported : elem "a2:8" closed.reported ≡ true
unfolding Closes.top_up_close retry_pending_closes
closed-reported = refl

handle_all-IsTracked_example : IsTracked closed "a2:8"
handle_all-IsTracked_example = handle_all-IsTracked closing empty "a2:8" closed-reported
