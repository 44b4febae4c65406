-- ===== src/Ctrader/Writer.antt =====
-- src/ctrader/ctrader-trade-writer.ts: execution events and backfilled positions into the `Trade`
-- table. `now` is the time that `new Date()` gives.
pub mod Partial
pub mod Backfilled
use tradetrack_api.Prelude.{
  ℕ, String, concat, str_eq, Bool, true, false, Option, none, some, is_some, value_or, coalesce,
  field_of, if◌then◌else◌,
}
use tradetrack_api.Number.{JsNumber}
use tradetrack_api.Trades.{
  round_money, get_trade_result, compute_profit_percentage_from_money,
  default_imported_risk_percentage,
}
use tradetrack_api.Store.{
  Trade, TradeKey, TradeTable, OpenData, CloseData, kept_risk, rr_of, create_open, refresh_open,
  create_close, set_close,
}
use tradetrack_api.Ctrader.Types.{
  Int64, PoolAccount, TradeData, EventDeal, EventPosition, ExecutionEvent, ClosePositionDetail,
  to_text, number_or_zero,
}

abbrev pub where_key : String → String → TradeKey
where_key user_id position_id = record {
  user_id = user_id;
  terminal_name = "ctrader";
  terminal_trade_id = concat "ctrader_pos_" position_id;
}

-- A position reconstructed from history; `exit_date` only when `fully_closed`.
pub record BackfillPosition (F : Type 0) : Type 0 where
  pub position_id : String
  pub symbol : String
  pub direction : String
  pub quantity : F
  pub entry_date : ℕ
  pub fully_closed : Bool
  pub exit_date : Option ℕ
  pub gross_profit : F
  pub commission : F
  pub swap : F

-- The closing deal that `applyClose` takes.
pub record Close (F : Type 0) : Type 0 where
  pub symbol : String
  pub direction : String
  pub quantity : F
  pub entry_date : ℕ
  pub exit_date : ℕ
  pub gross_profit : F
  pub commission : F
  pub swap : F
  pub fully_closed : Bool

module _ {F : Type 0} ⦃num : JsNumber F⦄ where
  open num use {of_nat, add, div, lt, to_ms}

  abbrev pub volume_per_lot : F
  volume_per_lot = of_nat 10000

  abbrev pub money_scale : F
  money_scale = of_nat 100

  -- `toDate`: a missing or non-positive time is the present.
  unfoldable pub to_date : ℕ → Option (Int64 F) → ℕ
  to_date now timestamp =
      let ms = number_or_zero timestamp in if lt (of_nat 0) ms then to_ms ms else now

  -- `account.symbolNames?.get(symbolId) ?? String(symbolId)`
  abbrev pub symbol_name : PoolAccount F → F → String
  symbol_name account symbol_id =
      value_or (num.to_string symbol_id)
        (elim account.symbol_names [ none ↦ none | some names ↦ names symbol_id ])

  -- The figures of the money columns and what is derived from the gross one.
  unfoldable pub close_data :
      PoolAccount F → String → String → Option ℕ → Bool → F → F → F → F → CloseData F
  close_data account symbol direction exit_date with_result gross_profit commission swap risk =
      let pnl = round_money (add (add gross_profit commission) swap) in
      let pct = compute_profit_percentage_from_money (some gross_profit) (some account.nominal) in
      record {
        symbol = symbol;
        trade_type = direction;
        exit_date = exit_date;
        profit = gross_profit;
        gross_profit = gross_profit;
        commission = commission;
        swap = swap;
        pnl = pnl;
        profit_percentage = pct;
        rr = rr_of gross_profit pct account.nominal risk;
        result = if with_result then get_trade_result (some pnl) account.nominal else none;
        risk_percentage = risk;
      }

  -- `roundMoney((existing?.column ?? 0) + amount)`
  abbrev pub accumulate : Option F → F → F
  accumulate old amount = round_money (add (value_or (of_nat 0) old) amount)

  -- The `data` of `applyClose`: this deal's figures on top of those of the row.
  unfoldable pub applied : PoolAccount F → Close F → Option (Trade F) → CloseData F
  applied account t existing =
      let column = λ (f : Trade F → Option F). field_of existing f in
      close_data account t.symbol t.direction (if t.fully_closed then some t.exit_date else none)
        t.fully_closed (accumulate (column (λ r. r.gross_profit)) t.gross_profit)
        (accumulate (column (λ r. r.commission)) t.commission)
        (accumulate (column (λ r. r.swap)) t.swap) (kept_risk existing)

  -- The `data` of a backfilled close.
  unfoldable pub backfill_data : PoolAccount F → BackfillPosition F → F → CloseData F
  unfolding close_data
  backfill_data account p risk =
      close_data account p.symbol p.direction p.exit_date true (round_money p.gross_profit)
        (round_money p.commission) (round_money p.swap) risk

  abbrev pub backfill_open : BackfillPosition F → OpenData F
  backfill_open p = record {
    symbol = p.symbol;
    trade_type = p.direction;
    quantity = p.quantity;
    entry_date = p.entry_date;
  }

  abbrev trade_data_of : ExecutionEvent F → Option (TradeData F)
  trade_data_of payload = field_of payload.position (λ p. p.trade_data)

  -- `String(payload.deal?.positionId ?? payload.position?.positionId ?? '')`
  unfoldable pub event_position_id : ExecutionEvent F → EventDeal F → String
  event_position_id payload deal =
      elim (coalesce deal.position_id (field_of payload.position (λ p. p.position_id))) [
        | none ↦ ""
        | some id ↦ to_text id
      ]

  -- The position's side is the real one; a closing deal's side is inverted.
  unfoldable pub event_open : PoolAccount F → ExecutionEvent F → EventDeal F → ℕ → OpenData F
  unfolding to_date
  event_open account payload deal now =
      let trade = trade_data_of payload in
      let symbol_id =
        number_or_zero (coalesce deal.symbol_id (field_of trade (λ d. d.symbol_id))) in
      let volume = number_or_zero (coalesce deal.volume (field_of trade (λ d. d.volume))) in
      record {
        symbol = symbol_name account symbol_id;
        trade_type = value_or "BUY" (coalesce (field_of trade (λ d. d.trade_side)) deal.trade_side);
        quantity = div volume volume_per_lot;
        entry_date =
            to_date now
              (coalesce (field_of trade (λ d. d.open_timestamp)) deal.execution_timestamp);
      }

  unfoldable pub event_close :
      PoolAccount F → ExecutionEvent F → EventDeal F → ClosePositionDetail F → ℕ → Close F
  unfolding event_open to_date
  event_close account payload deal detail now =
      let o = event_open account payload deal now in
      record {
        symbol = o.symbol;
        direction = o.trade_type;
        quantity = o.quantity;
        entry_date = o.entry_date;
        exit_date = to_date now deal.execution_timestamp;
        gross_profit = round_money (div (number_or_zero detail.gross_profit) money_scale);
        commission = round_money (div (number_or_zero detail.commission) money_scale);
        swap = round_money (div (number_or_zero detail.swap) money_scale);
        fully_closed = elim (field_of payload.position (λ p. p.position_status)) [
          | none ↦ false
          | some status ↦ str_eq status "POSITION_STATUS_CLOSED"
        ];
      }

  module _ {T : Type 0} ⦃table : TradeTable F T⦄ where
    open table use {find_unique, upsert}

    unfoldable pub upsert_open : PoolAccount F → String → OpenData F → T → T
    upsert_open account position_id o t =
        let key = where_key account.user_id position_id in
        upsert t key (create_open key account.trading_account_id default_imported_risk_percentage o)
          (refresh_open o)

    unfoldable pub apply_close : PoolAccount F → String → Close F → T → T
    unfolding applied
    apply_close account position_id c t =
        let key = where_key account.user_id position_id in
        let d = applied account c (find_unique t key) in
        upsert t key (create_close key account.trading_account_id c.quantity c.entry_date d)
          (set_close key d)

    -- `writeBackfill` of a position that is fully closed: absolute totals.
    unfoldable pub backfill_closed : PoolAccount F → BackfillPosition F → T → T
    backfill_closed account p t =
        let key = where_key account.user_id p.position_id in
        let d = backfill_data account p (kept_risk (find_unique t key)) in
        upsert t key (create_close key account.trading_account_id p.quantity p.entry_date d)
          (set_close key d)

    unfoldable pub write_backfill : PoolAccount F → BackfillPosition F → T → T
    unfolding backfill_closed upsert_open
    write_backfill account p t =
        if p.fully_closed
        then backfill_closed account p t
        else upsert_open account p.position_id (backfill_open p) t

    -- `write`: the closing detail decides between the open path and `applyClose`.
    unfoldable pub write : PoolAccount F → ExecutionEvent F → EventDeal F → String → ℕ → T → T
    unfolding upsert_open apply_close event_open event_close
    write account payload deal position_id now t = elim deal.close_position_detail [
      | none ↦ upsert_open account position_id (event_open account payload deal now) t
      | some detail ↦
          apply_close account position_id (event_close account payload deal detail now) t
    ]

    -- An event with no deal, or with no position id, persists nothing.
    unfoldable pub record_event : PoolAccount F → ExecutionEvent F → ℕ → T → T
    unfolding write
    record_event account payload now t = elim payload.deal [
      | none ↦ t
      | some deal ↦
          let position_id = event_position_id payload deal in
          if str_eq position_id "" then t else write account payload deal position_id now t
    ]
