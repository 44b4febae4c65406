-- ===== src/Tests/Pools.antt =====
-- The cTrader pool at concrete accounts and events.
use tradetrack_api.Prelude.{ℕ, Option, refl, get, ◌≡◌, true, none, some, List, [], ◌∷◌}
use tradetrack_api.Number.Fixed.{ℤ, pos, fixed_number}
use tradetrack_api.Ctrader.Types.{live, PoolAccount}
use tradetrack_api.Ctrader.Pool.{EnvSession, Pool, handle_lost, timer_fired, connect_failed}
use tradetrack_api.Ctrader.Pool.Accounts.{dedupe_by_ctid, compute_signature}
use tradetrack_api.Ctrader.Pool.Reconcile.{
  reconcile, apply_reconcile, reconcile_session, handle_token_invalidated,
}
use tradetrack_api.Ctrader.Pool.Probe.{reconcile-missed}
use tradetrack_api.Ctrader.Pool.Alive.{has_future}
use tradetrack_api.Ctrader.Pool.Recovered.{IsReconnecting, handle_all-IsRecovered}
use tradetrack_api.Ctrader.Pool.Events.{Event, lost, fires, fails, ticks, handle_all, idle}

abbrev pooled : PoolAccount ℤ
pooled = record {
  token_id = "t1";
  trading_account_id = "a3";
  ctid_trader_account_id = pos 70000;
  access_token = "x";
  refresh_token = "y";
  expires_at = some 5000;
  environment = live;
  user_id = "u1";
  nominal = pos 100000000;
  symbol_names = none;
}

-- An account is connected, its socket is lost, the timer fires, and the new attempt fails.
abbrev evening : List (Event ℤ)
evening =
    ticks (some (1, 10)) (some (pooled ∷ [])) ∷ lost "live" 1 ∷ fires "live" ∷ fails "live" 0 2 ∷ []

-- The same ctid with a fresher token.
abbrev renewed : PoolAccount ℤ
renewed = record pooled { token_id = "t2"; expires_at = some 9000 }

-- What is left of it: the second reconnect waits.
abbrev left_over : EnvSession ℤ
left_over = record {
  accounts = pooled ∷ [];
  connection = none;
  reconnect_attempt = 2;
  reconnect_timer = some 2000;
  generation = 2;
  serial = 0;
  signature = compute_signature (pooled ∷ []);
}

evening-left_over : get "live" (handle_all evening idle).sessions ≡ some left_over
unfolding handle_lost timer_fired connect_failed reconcile apply_reconcile dedupe_by_ctid
evening-left_over = refl

handle_all-IsRecovered_example :
    let p = handle_all evening idle in
    (has_future left_over ≡ true)
    × IsReconnecting "live" (handle_lost "live" 2 p)
    × IsReconnecting "live" (connect_failed "live" 0 2 p)
    × IsReconnecting "live" (handle_token_invalidated "live" 2 (pos 70000 ∷ []) p)
    × IsReconnecting "live" (reconcile_session "live" (renewed ∷ []) p (some left_over))
unfolding compute_signature
handle_all-IsRecovered_example =
    handle_all-IsRecovered evening "live" left_over (pos 70000 ∷ []) renewed [] evening-left_over
      refl

abbrev unloaded : Pool ℤ
unloaded = reconcile (some (1, 10)) none idle

reconcile-missed_example : reconcile (some (1, 10)) (some (pooled ∷ [])) unloaded ≡ unloaded
reconcile-missed_example = reconcile-missed (1, 10) (pooled ∷ []) idle

timer_of : Option (EnvSession ℤ) → Option ℕ
timer_of none = none
timer_of (some s) = s.reconnect_timer

-- The evening leaves the session with a timer for a third attempt.
handle_all-timer : timer_of (get "live" (handle_all evening idle).sessions) ≡ some 2000
unfolding handle_lost timer_fired connect_failed reconcile apply_reconcile dedupe_by_ctid
    compute_signature timer_of
handle_all-timer = refl
