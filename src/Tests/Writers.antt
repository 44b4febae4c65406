-- ===== src/Tests/Writers.antt =====
-- The writers at concrete positions.
use mathlib.Core.Option
use tradetrack_api.Prelude.{◌≡◌, refl, false, none, some, List, [], ◌∷◌, inl, inr}
use tradetrack_api.Number.Fixed.{ℤ, pos, fixed_number}
use tradetrack_api.Store.{OpenData}
use tradetrack_api.Store.Memory.{memory_table}
use tradetrack_api.Store.Settle.{realized}
use tradetrack_api.Metaapi.Writer as MetaapiWriter
use tradetrack_api.Metaapi.Writer.Convergence as MetaapiConvergence
use tradetrack_api.Tradelocker.Writer as TradelockerWriter
use tradetrack_api.Tradelocker.Writer.Convergence as TradelockerConvergence
use tradetrack_api.Ctrader.Writer as CtraderWriter
use tradetrack_api.Ctrader.Writer.Partial as CtraderPartial
use tradetrack_api.Ctrader.Writer.Backfilled as CtraderBackfilled
use tradetrack_api.Tests.Data.{
  mt5_account, mt5_open, mt5_closed, tradelocker_account, tradelocker_open, tradelocker_closed,
  ctrader_account, ctrader_closed, ctrader_close, no_trades,
}
open memory_table {F = ℤ} use {find_unique}

-- A stale open, a floating figure and the same close once more.
abbrev mt5_later : List (MetaapiConvergence.Write ℤ)
mt5_later =
    MetaapiConvergence.position mt5_open
    ∷ MetaapiConvergence.unrealized (pos 30000)
    ∷ MetaapiConvergence.position mt5_closed
    ∷ []

run-write_position_example :
    let key = MetaapiWriter.where_key "u1" "7" in
    let closed = MetaapiWriter.write_position mt5_account mt5_closed no_trades in
    Option.map realized (find_unique (MetaapiConvergence.run mt5_account "7" mt5_later closed) key)
    ≡ Option.map realized (find_unique closed key)
run-write_position_example =
    MetaapiConvergence.run-write_position mt5_account mt5_closed 2000 refl mt5_later no_trades
      ((refl, inl refl), (tt, ((refl, inr refl), tt)))

abbrev tradelocker_later : List (TradelockerConvergence.Later ℤ)
tradelocker_later =
    TradelockerConvergence.opens tradelocker_open
    ∷ TradelockerConvergence.floats (pos 30000)
    ∷ TradelockerConvergence.finalizes
    ∷ []

run-write_closed_example :
    let key = TradelockerWriter.where_key "u1" "8" in
    let closed = TradelockerWriter.write_closed tradelocker_account tradelocker_closed no_trades in
    Option.map realized (
      find_unique
        (TradelockerConvergence.run tradelocker_account tradelocker_closed tradelocker_later closed)
        key)
    ≡ Option.map realized (find_unique closed key)
run-write_closed_example =
    TradelockerConvergence.run-write_closed tradelocker_account tradelocker_closed tradelocker_later
      no_trades (refl, tt)

-- Two closing deals with an open event between them.
abbrev ctrader_open : OpenData ℤ
ctrader_open = record {
  symbol = "GBPUSD";
  trade_type = "BUY";
  quantity = pos 10000;
  entry_date = 1000;
}

abbrev ctrader_events : List (CtraderPartial.Event ℤ)
ctrader_events =
    CtraderPartial.closes ctrader_close
    ∷ CtraderPartial.opens ctrader_open
    ∷ CtraderPartial.closes ctrader_close
    ∷ []

totals-run_example :
    let key = CtraderWriter.where_key "u1" "9" in
    CtraderPartial.totals
      (find_unique (CtraderPartial.run ctrader_account "9" ctrader_events no_trades) key)
    ≡ CtraderPartial.booked ctrader_events (CtraderPartial.totals (find_unique no_trades key))
totals-run_example = CtraderPartial.totals-run ctrader_account "9" ctrader_events no_trades

-- A snapshot of the time when the position was open, and the closed position once more.
abbrev ctrader_repeats : List (CtraderWriter.BackfillPosition ℤ)
ctrader_repeats =
    record ctrader_closed { fully_closed = false; exit_date = none } ∷ ctrader_closed ∷ []

run-write_backfill_example :
    let key = CtraderWriter.where_key "u1" "9" in
    let closed = CtraderWriter.write_backfill ctrader_account ctrader_closed no_trades in
    Option.map realized (
      find_unique
        (CtraderBackfilled.run ctrader_account ctrader_closed 4000 refl refl ctrader_repeats closed)
        key)
    ≡ Option.map realized (find_unique closed key)
run-write_backfill_example =
    CtraderBackfilled.run-write_backfill ctrader_account ctrader_closed 4000 refl refl
      ctrader_repeats no_trades ((refl, inl refl), ((refl, inr refl), tt))

-- A gain of 50, booked by the backfill and by the live event, stands as 100.
apply_close-write_backfill_example :
    CtraderPartial.totals (
      find_unique
        (CtraderWriter.apply_close ctrader_account "9" ctrader_close
          (CtraderWriter.write_backfill ctrader_account ctrader_closed no_trades))
        (CtraderWriter.where_key "u1" "9"))
    ≡ record {
      gross_profit = some (CtraderBackfilled.twice ctrader_close.gross_profit);
      commission = some (CtraderBackfilled.twice ctrader_close.commission);
      swap = some (CtraderBackfilled.twice ctrader_close.swap);
    }
apply_close-write_backfill_example =
    CtraderBackfilled.apply_close-write_backfill ctrader_account ctrader_closed 4000 refl refl
      ctrader_close no_trades refl refl refl
