-- ===== src/Tradelocker/Writer.antt =====
-- src/tradelocker/trade-writer.service.ts: TradeLocker positions into the `Trade` table. The row's
-- `terminalTradeId` is the raw position id.
pub mod Convergence
pub mod Chained
use tradetrack_api.Prelude.{ℕ, String, Option, none, some, is_some, value_or, if◌then◌else◌}
use tradetrack_api.Number.{JsNumber}
use tradetrack_api.Trades.{
  round_money, get_trade_result, compute_profit_percentage_from_money,
  default_imported_risk_percentage,
}
use tradetrack_api.Store.{
  Trade, TradeKey, TradeTable, OpenData, CloseData, is_open, kept_risk, rr_of, create_open,
  refresh_open, create_close, set_close,
}
use tradetrack_api.Tradelocker.Types.{
  AccountContext, OpenTrade, ClosedTrade, side_text, terminal_name,
}

abbrev pub where_key : String → String → TradeKey
where_key user_id position_id = record {
  user_id = user_id;
  terminal_name = terminal_name;
  terminal_trade_id = position_id;
}

module _ {F : Type 0} ⦃num : JsNumber F⦄ where
  open num use {add}

  abbrev pub open_data : OpenTrade F → OpenData F
  open_data o = record {
    symbol = o.symbol;
    trade_type = side_text o.side;
    quantity = o.quantity;
    entry_date = o.entry_date;
  }

  -- `profit` and `pnl` are the net figure, the report's own where it gives one; % and R come from it.
  unfoldable pub close_data : AccountContext F → ClosedTrade F → F → CloseData F
  close_data ctx c risk =
      let gross_profit = round_money c.gross_profit in
      let commission = round_money c.commission in
      let swap = round_money c.swap in
      let pnl = round_money (value_or (add (add gross_profit commission) swap) c.net_profit) in
      let pct = compute_profit_percentage_from_money (some pnl) (some ctx.nominal) in
      record {
        symbol = c.symbol;
        trade_type = side_text c.side;
        exit_date = some c.exit_date;
        profit = pnl;
        gross_profit = gross_profit;
        commission = commission;
        swap = swap;
        pnl = pnl;
        profit_percentage = pct;
        rr = rr_of pnl pct ctx.nominal risk;
        result = get_trade_result (some pnl) ctx.nominal;
        risk_percentage = risk;
      }

  abbrev pub create_closed : AccountContext F → ClosedTrade F → CloseData F → Trade F
  create_closed ctx c d =
      create_close (where_key ctx.user_id c.position_id) ctx.trading_account_id c.quantity
        c.entry_date d

  abbrev pub update_closed : AccountContext F → ClosedTrade F → CloseData F → Trade F → Trade F
  update_closed ctx c d r = record (set_close (where_key ctx.user_id c.position_id) d r) {
    quantity = c.quantity;
    entry_date = c.entry_date;
  }

  -- The floating figures of an open row.
  unfoldable pub float_row : AccountContext F → F → F → Trade F → Trade F
  float_row ctx unrealized_pl risk r =
      let pct = compute_profit_percentage_from_money (some unrealized_pl) (some ctx.nominal) in
      record r {
        pnl = some unrealized_pl;
        profit_percentage = pct;
        rr = rr_of unrealized_pl pct ctx.nominal risk;
        risk_percentage = some risk;
      }

  module _ {T : Type 0} ⦃table : TradeTable F T⦄ where
    open table use {find_unique, upsert, update_many}

    unfoldable pub write_open : AccountContext F → OpenTrade F → T → T
    write_open ctx o t =
        let key = where_key ctx.user_id o.position_id in
        upsert t key
          (create_open key ctx.trading_account_id default_imported_risk_percentage (open_data o))
          (refresh_open (open_data o))

    unfoldable pub write_closed : AccountContext F → ClosedTrade F → T → T
    write_closed ctx c t =
        let key = where_key ctx.user_id c.position_id in
        let d = close_data ctx c (kept_risk (find_unique t key)) in
        upsert t key (create_closed ctx c d) (update_closed ctx c d)

    -- `writeUnrealized` once `existing` is read; the table may have changed since.
    abbrev pub float_at : AccountContext F → String → F → T → Option (Trade F) → T
    float_at ctx position_id unrealized_pl t none = t
    float_at ctx position_id unrealized_pl t (some existing) =
        if is_some existing.exit_date
        then t
        else update_many t (where_key ctx.user_id position_id) is_open
            (float_row ctx unrealized_pl (kept_risk (some existing)))

    unfoldable pub write_unrealized : AccountContext F → String → F → T → T
    write_unrealized ctx position_id unrealized_pl t =
        float_at ctx position_id unrealized_pl t (find_unique t (where_key ctx.user_id position_id))
