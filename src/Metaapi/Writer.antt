-- ===== src/Metaapi/Writer.antt =====
-- src/metaapi/trade-writer.service.ts: MetaApi positions into the `Trade` table, one row each.
pub mod Convergence
pub mod Frame
use tradetrack_api.Prelude.{ℕ, Bool, if◌then◌else◌, String, concat, Option, none, some, is_some}
use tradetrack_api.Number.{JsNumber}
use tradetrack_api.Trades.{round_money, get_trade_result, compute_profit_percentage_from_money}
use tradetrack_api.Store.{
  Trade, TradeKey, TradeTable, OpenData, CloseData, is_open, kept_risk, rr_of, create_open,
  refresh_open, create_close, set_close,
}
use tradetrack_api.Metaapi.Types.{
  AccountContext, AggregatedPosition, side_text, terminal_name, position_key_prefix,
}

-- `whereKey` at `terminalTradeId`.
abbrev pub where_key : String → String → TradeKey
where_key user_id position_id = record {
  user_id = user_id;
  terminal_name = terminal_name;
  terminal_trade_id = concat position_key_prefix position_id;
}

module _ {F : Type 0} ⦃num : JsNumber F⦄ where
  open num use {add}

  abbrev pub open_data : AggregatedPosition F → OpenData F
  open_data p = record {
    symbol = p.symbol;
    trade_type = side_text p.side;
    quantity = p.quantity;
    entry_date = p.entry_date;
  }

  -- The realized totals, set and not accumulated. % and R come from the gross figure, the result
  -- from the net one.
  unfoldable pub close_data : AccountContext F → AggregatedPosition F → ℕ → F → CloseData F
  close_data ctx p exit_date risk =
      let gross_profit = round_money p.gross_profit in
      let commission = round_money p.commission in
      let swap = round_money p.swap in
      let pnl = round_money (add (add gross_profit commission) swap) in
      let pct = compute_profit_percentage_from_money (some gross_profit) (some ctx.nominal) in
      record {
        symbol = p.symbol;
        trade_type = side_text p.side;
        exit_date = some exit_date;
        profit = gross_profit;
        gross_profit = gross_profit;
        commission = commission;
        swap = swap;
        pnl = pnl;
        profit_percentage = pct;
        rr = rr_of gross_profit pct ctx.nominal risk;
        result = get_trade_result (some pnl) ctx.nominal;
        risk_percentage = risk;
      }

  abbrev pub create_closed : AccountContext F → AggregatedPosition F → CloseData F → Trade F
  create_closed ctx p d =
      create_close (where_key ctx.user_id p.position_id) ctx.trading_account_id p.quantity
        p.entry_date d

  -- `data` of this writer names quantity and entry date too.
  abbrev pub update_closed :
      AccountContext F → AggregatedPosition F → CloseData F → Trade F → Trade F
  update_closed ctx p d r = record (set_close (where_key ctx.user_id p.position_id) d r) {
    quantity = p.quantity;
    entry_date = p.entry_date;
  }

  -- The floating figures of an open row; the row's own risk, or the default.
  unfoldable pub float_row : AccountContext F → F → F → Trade F → Trade F
  float_row ctx unrealized_pl risk r =
      let pct = compute_profit_percentage_from_money (some unrealized_pl) (some ctx.nominal) in
      record r {
        pnl = some unrealized_pl;
        profit_percentage = pct;
        rr = rr_of unrealized_pl pct ctx.nominal risk;
        risk_percentage = some risk;
      }

  module _ {T : Type 0} ⦃table : TradeTable F T⦄ where
    open table use {find_unique, upsert, update_many}

    -- `writePosition` once the row's risk is read, by whether the position has closed.
    abbrev pub write_at : AccountContext F → AggregatedPosition F → F → T → Option ℕ → T
    write_at ctx p risk t none =
        let key = where_key ctx.user_id p.position_id in
        upsert t key (create_open key ctx.trading_account_id risk (open_data p))
          (refresh_open (open_data p))
    write_at ctx p risk t (some exit_date) =
        let key = where_key ctx.user_id p.position_id in
        let d = close_data ctx p exit_date risk in
        upsert t key (create_closed ctx p d) (update_closed ctx p d)

    unfoldable pub write_position : AccountContext F → AggregatedPosition F → T → T
    write_position ctx p t =
        let existing = find_unique t (where_key ctx.user_id p.position_id) in
        write_at ctx p (kept_risk existing) t p.exit_date

    -- `writeUnrealized` once `existing` is read; the table may have changed since.
    abbrev pub float_at : AccountContext F → String → F → T → Option (Trade F) → T
    float_at ctx position_id unrealized_pl t none = t
    float_at ctx position_id unrealized_pl t (some existing) =
        if is_some existing.exit_date
        then t
        else update_many t (where_key ctx.user_id position_id) is_open
            (float_row ctx unrealized_pl (kept_risk (some existing)))

    unfoldable pub write_unrealized : AccountContext F → String → F → T → T
    write_unrealized ctx position_id unrealized_pl t =
        float_at ctx position_id unrealized_pl t (find_unique t (where_key ctx.user_id position_id))
