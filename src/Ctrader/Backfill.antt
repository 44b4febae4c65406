-- ===== src/Ctrader/Backfill.antt =====
-- src/ctrader/backfill.service.ts: an account's trades, rebuilt from cTrader's history. The
-- replies of the connection are parameters, absent where the request fails; `now` is the time that
-- `new Date()` gives.
pub mod Safety
pub mod Window
use mathlib.Core.List.{foldl, filter_map}
use tradetrack_api.Prelude.{
  ℕ, ◌+◌, ◌-◌, ◌*◌, max, String, str_eq, Bool, true, false, not, ◌&&◌, ◌||◌, Option, none, some,
  is_some, value_or, field_of, coalesce, List, [], ◌∷◌, ◌++◌, map, get, set, elem, if◌then◌else◌,
}
use tradetrack_api.Number.{JsNumber}
use tradetrack_api.Store.{TradeTable}
use tradetrack_api.Ctrader.Types.{
  Int64, text, number, PoolAccount, ClosePositionDetail, to_number, to_text, number_or_zero,
}
use tradetrack_api.Ctrader.Writer.{
  BackfillPosition, volume_per_lot, money_scale, symbol_name, write_backfill,
}
use tradetrack_api.Ctrader.Deals.{
  backfill_lookback_ms, backfill_watermark_buffer_ms, RawDeal, RawTradeData, RawPosition,
  CloseFigures, NormalizedDeal, OpenPosition, invert, watermark, closing_deals, open_deal, first,
  either_deal, is_two, normalize_side, close_figures, normalize, date_of, or_else, sum_of, figure,
  opened_at, raw_id,
}

module _ {F : Type 0} ⦃num : JsNumber F⦄ where
  open num use {of_nat, add, div, lt, eq}

  -- A position absent from the open set: absolute realized values. A closing deal's side is inverted
  -- when the opening deal is older than the window.
  abbrev pub rebuilt :
      PoolAccount F
      → ℕ
      → String
      → List (NormalizedDeal F)
      → Option (NormalizedDeal F)
      → BackfillPosition F
  rebuilt account now id closing o =
      let c = first closing in
      record {
        position_id = id;
        symbol =
            symbol_name account (either_deal (of_nat 0) (λ d. d.symbol_id) (λ d. d.symbol_id) o c);
        direction = either_deal "BUY" (λ d. d.side) (λ d. invert d.side) o c;
        quantity =
            div
              (either_deal (sum_of (λ d. d.filled_volume) closing) (λ d. d.volume)
                (λ d. sum_of (λ d. d.filled_volume) closing) o c)
              volume_per_lot;
        entry_date = date_of now (either_deal (of_nat 0) opened_at (λ d. d.create_timestamp) o c);
        fully_closed = true;
        exit_date =
            some (date_of now (foldl (λ x d. num.max x d.execution_timestamp) (of_nat 0) closing));
        gross_profit = div (sum_of (figure (λ x. x.gross_profit)) closing) money_scale;
        commission = div (sum_of (figure (λ x. x.commission)) closing) money_scale;
        swap = div (sum_of (figure (λ x. x.swap)) closing) money_scale;
      }

  unfoldable pub reconstruct_closed :
      PoolAccount F → ℕ → String → List (NormalizedDeal F) → BackfillPosition F
  reconstruct_closed account now id deals =
      rebuilt account now id (closing_deals deals) (open_deal deals)

  abbrev pub still_open : String → String → String → F → ℕ → BackfillPosition F
  still_open id symbol direction volume entry_date = record {
    position_id = id;
    symbol = symbol;
    direction = direction;
    quantity = div volume volume_per_lot;
    entry_date = entry_date;
    fully_closed = false;
    exit_date = none;
    gross_profit = of_nat 0;
    commission = of_nat 0;
    swap = of_nat 0;
  }

  -- `closedVolume >= openDeal.volume && closing.length > 0`
  abbrev pub covers : List (NormalizedDeal F) → NormalizedDeal F → Bool
  covers closing o =
      let closed = sum_of (λ d. d.filled_volume) closing in
      (lt o.volume closed || eq o.volume closed) && is_some (first closing)

  -- With no answer on the open positions, one whose opening deal is missing is skipped.
  unfoldable pub reconstruct_without_reconcile :
      PoolAccount F → ℕ → String → List (NormalizedDeal F) → Option (BackfillPosition F)
  reconstruct_without_reconcile account now id deals = elim (open_deal deals) [
    | none ↦ none
    | some o ↦
        if covers (closing_deals deals) o
        then some (reconstruct_closed account now id deals)
        else some (
            still_open id (symbol_name account o.symbol_id) o.side o.volume
              (date_of now (opened_at o)))
  ]

  unfoldable pub map_open : PoolAccount F → ℕ → OpenPosition F → BackfillPosition F
  map_open account now p =
      still_open p.position_id (symbol_name account p.symbol_id) p.side p.volume
        (date_of now p.open_timestamp)

  abbrev pub open_position : String → Option (RawTradeData F) → OpenPosition F
  open_position id d = record {
    position_id = id;
    symbol_id = number_or_zero (field_of d (λ d. d.symbol_id));
    volume = number_or_zero (field_of d (λ d. d.volume));
    side = normalize_side (field_of d (λ d. d.trade_side));
    open_timestamp = number_or_zero (field_of d (λ d. d.open_timestamp));
  }

  -- `new Map(open.positions.map((p) => [p.positionId, p]))` of the positions that have an id.
  unfoldable pub open_by_id :
      List (RawPosition F) → List (String × OpenPosition F) → List (String × OpenPosition F)
  open_by_id [] m = m
  open_by_id (raw ∷ rest) m =
      let id = raw_id raw.position_id in
      open_by_id rest (if str_eq id "" then m else set id (open_position id raw.trade_data) m)

  -- The deals that have a position id, by that id.
  unfoldable pub deals_by_id :
      List (RawDeal F)
      → List (String × List (NormalizedDeal F))
      → List (String × List (NormalizedDeal F))
  deals_by_id [] m = m
  deals_by_id (raw ∷ rest) m =
      let id = raw_id raw.position_id in
      deals_by_id rest
        (if str_eq id "" then m else set id (value_or [] (get id m) ++ normalize raw ∷ []) m)

  -- What the loop over the deals writes for one position, if anything.
  unfoldable pub from_deals :
      PoolAccount F
      → ℕ
      → Option (List (String × OpenPosition F))
      → String × List (NormalizedDeal F)
      → Option (BackfillPosition F)
  from_deals account now none (id, deals) = reconstruct_without_reconcile account now id deals
  from_deals account now (some open_ids) (id, deals) =
      if is_some (get id open_ids)
      then none
      else if is_some (first (closing_deals deals))
      then some (reconstruct_closed account now id deals)
      else none

  -- The second loop: open positions that the first one did not handle.
  unfoldable pub from_open :
      PoolAccount F → ℕ → List String → String × OpenPosition F → Option (BackfillPosition F)
  from_open account now handled (id, p) =
      if elem id handled then none else some (map_open account now p)

  -- All positions that `run` writes, in order.
  unfoldable pub planned :
      PoolAccount F
      → ℕ
      → Option (List (String × OpenPosition F))
      → List (String × List (NormalizedDeal F))
      → List (BackfillPosition F)
  planned account now none deals = filter_map (from_deals account now none) deals
  planned account now (some open_ids) deals =
      let closed = filter_map (from_deals account now (some open_ids)) deals in
      closed ++ filter_map (from_open account now (map (λ p. p.position_id) closed)) open_ids

  module _ {T : Type 0} ⦃table : TradeTable F T⦄ where
    -- `write`, over the positions in turn: the table, and how many it took. `refuses` tells the
    -- writes that the database rejects.
    unfoldable pub write_all :
        PoolAccount F → (BackfillPosition F → Bool) → List (BackfillPosition F) → T → T × ℕ
    write_all account refuses [] t = (t, 0)
    write_all account refuses (p ∷ ps) t =
        let (t', n) =
          write_all account refuses ps (if refuses p then t else write_backfill account p t) in
        (t', if refuses p then n else n + 1)

    unfoldable pub run :
        PoolAccount F
        → ℕ
        → Option (List (RawPosition F))
        → Option (List (RawDeal F))
        → (BackfillPosition F → Bool)
        → T
        → T × ℕ
    run account now reconcile deal_list refuses t =
        write_all account refuses
          (planned account now (elim reconcile [ none ↦ none | some ps ↦ some (open_by_id ps []) ])
            (deals_by_id (value_or [] deal_list) []))
          t
