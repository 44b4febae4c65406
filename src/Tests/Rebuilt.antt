-- ===== src/Tests/Rebuilt.antt =====
-- Positions rebuilt from deals, and the callbacks of the stream, at concrete deals.
use tradetrack_api.Prelude.{ℕ, ◌≡◌, refl, false, none, some, List, [], ◌∷◌}
use tradetrack_api.Number.Fixed.{ℤ, pos, negsuc, fixed_number}
use tradetrack_api.Store.Memory.{memory_table}
use tradetrack_api.Ctrader.Types.{text, number}
use tradetrack_api.Ctrader.Writer as CtraderWriter
use tradetrack_api.Ctrader.Deals.{RawDeal, RawPosition, NormalizedDeal}
use tradetrack_api.Ctrader.Backfill.{open_by_id, run}
use tradetrack_api.Ctrader.Backfill.Safety.{run-keeps_open, exit_of}
use tradetrack_api.Metaapi.Aggregator.{Deal}
use tradetrack_api.Metaapi.Listener.{
  Position, Callback, Deps, positions_replaced, position_updated, position_removed, deal_added,
  new_listener, handle_all,
}
use tradetrack_api.Metaapi.Listener.Replay as Replay
use tradetrack_api.Tests.Data.{mt5_account, ctrader_account, no_trades}
open memory_table {F = ℤ} use {find_unique}

-- The broker lists the position 9 as open, and its deals hold a partial close.
abbrev reported : List (RawPosition ℤ)
reported = record { position_id = some (text "9"); trade_data = none } ∷ []

abbrev partial_close : RawDeal ℤ
partial_close = record {
  position_id = some (text "9");
  symbol_id = some (number (pos 10000));
  volume = some (number (pos 10000));
  filled_volume = none;
  trade_side = some (text "SELL");
  execution_timestamp = some (number (pos 30000000));
  create_timestamp = none;
  close_position_detail =
      some (record { gross_profit = some (number (pos 500000)); swap = none; commission = none });
}

run-keeps_open_example :
    exit_of (
      find_unique
        (run ctrader_account 5000
          (some reported)
          (some (partial_close ∷ []))
          (λ p. false)
          no_trades).0
        (CtraderWriter.where_key "u1" "9"))
    ≡ exit_of (find_unique no_trades (CtraderWriter.where_key "u1" "9"))
unfolding open_by_id
run-keeps_open_example =
    run-keeps_open ctrader_account "9" 5000 reported (some (partial_close ∷ [])) (λ p. false)
      no_trades refl

-- Bought 1, and sold 1 with a gain of 50.
abbrev bought : NormalizedDeal ℤ
bought = record {
  symbol_id = pos 10000;
  volume = pos 10000;
  filled_volume = pos 10000;
  side = "BUY";
  execution_timestamp = pos 10000000;
  create_timestamp = pos 10000000;
  close = none;
}

abbrev sold : NormalizedDeal ℤ
sold = record bought {
  side = "SELL";
  execution_timestamp = pos 20000000;
  close = some (record { gross_profit = pos 500000; commission = pos 0; swap = pos 0 });
}

-- An opening deal and two closing deals, the first of them before the clamp.
abbrev deal_in : Deal ℤ
deal_in = record {
  deal_type = "DEAL_TYPE_BUY";
  entry_type = some "DEAL_ENTRY_IN";
  position_id = some "7";
  symbol = some "EURUSD";
  volume = some (pos 10000);
  time = 1000;
  profit = none;
  commission = some (negsuc 9999);
  swap = none;
}

abbrev deal_out : ℕ → Deal ℤ
deal_out time = record deal_in {
  deal_type = "DEAL_TYPE_SELL";
  entry_type = some "DEAL_ENTRY_OUT";
  time = time;
  profit = some (pos 250000);
}

abbrev mt5_deals : List (Deal ℤ)
mt5_deals = deal_out 3000 ∷ deal_in ∷ deal_out 2000 ∷ []

abbrev deps : Deps ℤ
deps = record { ctx = mt5_account; fetch_position_deals = λ id. some mt5_deals; clamp_from = none }

abbrev on_terminal : Position ℤ
on_terminal = record {
  position_id = "8";
  symbol = "EURUSD";
  position_type = "POSITION_TYPE_SELL";
  volume = pos 10000;
  time = 1500;
  unrealized_profit = some (pos 30000);
}

-- A replay: a snapshot, an update, two deals of the history and a position that leaves.
abbrev replay : List (Callback ℤ)
replay =
    positions_replaced (on_terminal ∷ [])
    ∷ position_updated on_terminal
    ∷ deal_added deal_in
    ∷ deal_added (deal_out 2000)
    ∷ position_removed "7"
    ∷ []

handle_all-replay_example :
    Replay.exit_of (
      find_unique
        (handle_all deps replay (new_listener, no_trades)).1
        (record { user_id = "u1"; terminal_name = "metaapi"; terminal_trade_id = "metaapi_pos_7" }))
    ≡ Replay.exit_of (
        find_unique no_trades (record {
          user_id = "u1";
          terminal_name = "metaapi";
          terminal_trade_id = "metaapi_pos_7";
        }))
handle_all-replay_example =
    Replay.handle_all-replay
      (record { user_id = "u1"; terminal_name = "metaapi"; terminal_trade_id = "metaapi_pos_7" })
      deps replay new_listener no_trades refl tt
