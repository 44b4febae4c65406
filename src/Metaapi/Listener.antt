-- ===== src/Metaapi/Listener.antt =====
-- src/metaapi/sync-listener.ts: the callbacks of MetaApi's stream, as steps on the listener's state
-- and the table. `fetchPositionDeals` is a parameter; it may throw.
pub mod Replay
use tradetrack_api.Prelude.{
  ℕ, String, str_eq, Bool, true, false, ◌||◌, Option, none, some, List, [], ◌∷◌, map, remove,
  if◌then◌else◌,
}
use tradetrack_api.Number.{JsNumber}
use tradetrack_api.Store.{TradeTable}
use tradetrack_api.Metaapi.Types.{buy, sell, AccountContext, AggregatedPosition}
use tradetrack_api.Metaapi.Writer.{write_position, write_unrealized}
use tradetrack_api.Metaapi.Aggregator.{Deal, is_text, aggregate_deals, record_all}

-- The fields of the SDK's `MetatraderPosition` that are read; `position_id` is `positionKey(id)`,
-- and `unrealized_profit` is absent unless it is a number.
pub record Position (F : Type 0) : Type 0 where
  pub position_id : String
  pub symbol : String
  pub position_type : String
  pub volume : F
  pub time : ℕ
  pub unrealized_profit : Option F

pub record Listener : Type 0 where
  pub open_position_ids : List String
  pub deals_synchronized : Bool

abbrev pub new_listener : Listener
new_listener = record { open_position_ids = []; deals_synchronized = false }

-- The callbacks, with what they are given.
pub data Callback (F : Type 0) : Type 0 where
  deals_synchronized : Callback F
  positions_replaced : List (Position F) → Callback F
  position_updated : Position F → Callback F
  position_removed : String → Callback F
  deal_added : Deal F → Callback F

-- What the listener is built with; `fetch_position_deals` gives nothing where it throws.
pub record Deps (F : Type 0) : Type 0 where
  pub ctx : AccountContext F
  pub fetch_position_deals : String → Option (List (Deal F))
  pub clamp_from : Option ℕ

module _ {F : Type 0} ⦃num : JsNumber F⦄ where
  abbrev pub open_position : Position F → AggregatedPosition F
  open_position p = record {
    position_id = p.position_id;
    symbol = p.symbol;
    side = if str_eq p.position_type "POSITION_TYPE_BUY" then buy else sell;
    quantity = p.volume;
    entry_date = p.time;
    exit_date = none;
    gross_profit = num.of_nat 0;
    commission = num.of_nat 0;
    swap = num.of_nat 0;
  }

module _ {F T : Type 0} ⦃num : JsNumber F⦄ ⦃table : TradeTable F T⦄ (deps : Deps F) where
  -- `finalize`, by the deals that were fetched. No deals, or an error, write nothing.
  abbrev finalized : List String → Option (List (Deal F)) → T → T
  finalized open_ids none t = t
  finalized open_ids (some deals) t =
      record_all deps.ctx (aggregate_deals deals open_ids deps.clamp_from) t

  unfoldable pub finalize : List String → String → T → T
  finalize open_ids id t = finalized open_ids (deps.fetch_position_deals id) t

  unfoldable pub write_open : Position F → T → T
  write_open p t = write_position deps.ctx (open_position p) t

  abbrev pub write_all_open : List (Position F) → T → T
  write_all_open [] t = t
  write_all_open (p ∷ ps) t = write_all_open ps (write_open p t)

  abbrev pub write_floating : String → Option F → T → T
  write_floating id none t = t
  write_floating id (some x) t = write_unrealized deps.ctx id x t

  -- `onDealAdded` of a deal that is about a position.
  abbrev pub on_deal : Listener → Option String → T → T
  on_deal l none t = t
  on_deal l (some id) t =
      if str_eq id ""
      then t
      else if l.deals_synchronized
      then finalize l.open_position_ids id t
      else t

  -- One callback, run to its end.
  unfoldable pub handle : Callback F → Listener × T → Listener × T
  handle deals_synchronized (l, t) = (record l { deals_synchronized = true }, t)
  handle (positions_replaced ps) (l, t) =
      (record l { open_position_ids = map (λ p. p.position_id) ps }, write_all_open ps t)
  handle (position_updated p) (l, t) = (
    record l { open_position_ids = p.position_id ∷ l.open_position_ids },
    write_floating p.position_id p.unrealized_profit (write_open p t),
  )
  handle (position_removed id) (l, t) =
      let ids = remove id l.open_position_ids in
      (record l { open_position_ids = ids }, if l.deals_synchronized then finalize ids id t else t)
  handle (deal_added d) (l, t) =
      (l, if str_eq d.deal_type "DEAL_TYPE_BALANCE" then t else on_deal l d.position_id t)

  -- Callbacks in the order in which they arrive.
  unfoldable pub handle_all : List (Callback F) → Listener × T → Listener × T
  handle_all [] s = s
  handle_all (c ∷ cs) s = handle_all cs (handle c s)
