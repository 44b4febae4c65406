-- ===== src/Metaapi/Aggregator.antt =====
-- src/metaapi/deal-aggregator.ts: MT5 positions, rebuilt from their deals; and the run of
-- src/metaapi/backfill.service.ts that writes them. `time` is the deal's time as a `Date`.
pub mod Sorted
pub mod Groups
pub mod Owned
use mathlib.Core.List.{foldl, filter_map}
use tradetrack_api.Prelude.{
  ℕ, ◌-◌, ◌*◌, max, ltb, leb, String, str_eq, Bool, true, false, not, ◌&&◌, ◌||◌, Option, none,
  some, is_some, value_or, coalesce, List, [], ◌∷◌, ◌++◌, get, set, elem, if◌then◌else◌,
}
use tradetrack_api.Number.{JsNumber}
use tradetrack_api.Store.{TradeTable}
use tradetrack_api.Metaapi.Types.{Side, buy, sell, AccountContext, AggregatedPosition}
use tradetrack_api.Metaapi.Writer.{write_position}

-- The fields of the SDK's `MetatraderDeal` that are read.
pub record Deal (F : Type 0) : Type 0 where
  pub deal_type : String
  pub entry_type : Option String
  pub position_id : Option String
  pub symbol : Option String
  pub volume : Option F
  pub time : ℕ
  pub profit : Option F
  pub commission : Option F
  pub swap : Option F

abbrev pub is_text : String → Option String → Bool
is_text s none = false
is_text s (some x) = str_eq x s

abbrev day_ms : ℕ
day_ms = 24 * 60 * 60 * 1000

abbrev before_close : Option ℕ → Option ℕ
before_close none = none
before_close (some e) = some (e - 15 * day_ms)

-- `resolveWatermark`, by the exit time of the newest closed trade and the clamp. The result is the
-- source's if `now` is at least the lookback: then no difference that is the result is negative.
unfoldable pub resolve_watermark : ℕ → Option ℕ → Option ℕ → ℕ
resolve_watermark now newest backfill_from =
    let lookback_floor = now - 90 * day_ms in
    let watermark = value_or lookback_floor (before_close newest) in
    max (max watermark lookback_floor) (value_or 0 backfill_from)

-- `exitDate && exitDate.getTime() <= clampMs`
abbrev pub booked_before : Option ℕ → Option ℕ → Bool
booked_before (some clamp) (some e) = leb e clamp
booked_before _ _ = false

module _ {F : Type 0} where
  -- The key of a deal's group, if it has one: balance operations and deals of no position have none.
  abbrev pub group_id : Deal F → Option String
  group_id d =
      if str_eq d.deal_type "DEAL_TYPE_BALANCE"
      then none
      else if is_text "" d.position_id
      then none
      else d.position_id

  abbrev add_to :
      Option String → Deal F → List (String × List (Deal F)) → List (String × List (Deal F))
  add_to none d m = m
  add_to (some id) d m = set id (value_or [] (get id m) ++ d ∷ []) m

  unfoldable pub deal_groups :
      List (Deal F) → List (String × List (Deal F)) → List (String × List (Deal F))
  deal_groups [] m = m
  deal_groups (d ∷ ds) m = deal_groups ds (add_to (group_id d) d m)

  -- `sort` by time, which is stable.
  abbrev pub insert_deal : Deal F → List (Deal F) → List (Deal F)
  insert_deal d [] = d ∷ []
  insert_deal d (e ∷ es) = if leb d.time e.time then d ∷ e ∷ es else e ∷ insert_deal d es

  abbrev pub sort_deals : List (Deal F) → List (Deal F)
  sort_deals [] = []
  sort_deals (d ∷ ds) = insert_deal d (sort_deals ds)

  -- `sorted.find((deal) => deal.entryType === DEAL_ENTRY_IN)`
  abbrev pub opening_of : List (Deal F) → Option (Deal F)
  opening_of [] = none
  opening_of (d ∷ ds) = if is_text "DEAL_ENTRY_IN" d.entry_type then some d else opening_of ds

  -- The time of the last closing deal.
  abbrev pub last_close : List (Deal F) → Option ℕ
  last_close [] = none
  last_close (d ∷ ds) =
      coalesce (last_close ds) (if is_text "DEAL_ENTRY_OUT" d.entry_type then some d.time else none)

  -- The deals after the clamp; all of them if there is none.
  abbrev pub owned_deals : Option ℕ → List (Deal F) → List (Deal F)
  owned_deals none ds = ds
  owned_deals (some clamp) [] = []
  owned_deals (some clamp) (d ∷ ds) =
      if ltb clamp d.time then d ∷ owned_deals (some clamp) ds else owned_deals (some clamp) ds

module _ {F : Type 0} ⦃num : JsNumber F⦄ where
  abbrev pub sum_of : (Deal F → Option F) → List (Deal F) → F
  sum_of f = foldl (λ s d. num.add s (value_or (num.of_nat 0) (f d))) (num.of_nat 0)

  abbrev pub built :
      Option ℕ → String → String → F → Deal F → List (Deal F) → Option ℕ → AggregatedPosition F
  built clamp id symbol volume opening sorted exit_date =
      let owned = owned_deals clamp sorted in
      record {
        position_id = id;
        symbol = symbol;
        side = if str_eq opening.deal_type "DEAL_TYPE_BUY" then buy else sell;
        quantity = volume;
        entry_date = opening.time;
        exit_date = exit_date;
        gross_profit = sum_of (λ d. d.profit) owned;
        commission = sum_of (λ d. d.commission) owned;
        swap = sum_of (λ d. d.swap) owned;
      }

  abbrev pub clamped : Option ℕ → Option ℕ → AggregatedPosition F → Option (AggregatedPosition F)
  clamped clamp exit_date p = if booked_before clamp exit_date then none else some p

  -- A symbol that is missing or empty, or a missing volume, skips the position.
  abbrev pub from_parts :
      List String
      → Option ℕ
      → String
      → List (Deal F)
      → Deal F
      → Option String
      → Option F
      → Option (AggregatedPosition F)
  from_parts open_ids clamp id sorted opening none volume = none
  from_parts open_ids clamp id sorted opening (some symbol) none = none
  from_parts open_ids clamp id sorted opening (some symbol) (some volume) =
      let exit_date = if elem id open_ids then none else last_close sorted in
      if str_eq symbol ""
      then none
      else clamped clamp exit_date (built clamp id symbol volume opening sorted exit_date)

  abbrev pub from_opening :
      List String
      → Option ℕ
      → String
      → List (Deal F)
      → Option (Deal F)
      → Option (AggregatedPosition F)
  from_opening open_ids clamp id sorted none = none
  from_opening open_ids clamp id sorted (some opening) =
      from_parts open_ids clamp id sorted opening opening.symbol opening.volume

  -- The body of the loop over the groups.
  unfoldable pub aggregate_group :
      List String → Option ℕ → String × List (Deal F) → Option (AggregatedPosition F)
  aggregate_group open_ids clamp (id, group) =
      let sorted = sort_deals group in from_opening open_ids clamp id sorted (opening_of sorted)

  unfoldable pub aggregate_deals :
      List (Deal F) → List String → Option ℕ → List (AggregatedPosition F)
  aggregate_deals deals open_ids clamp =
      filter_map (aggregate_group open_ids clamp) (deal_groups deals [])

  module _ {T : Type 0} ⦃table : TradeTable F T⦄ where
    -- The positions, one after the other.
    unfoldable pub record_all : AccountContext F → List (AggregatedPosition F) → T → T
    record_all ctx [] t = t
    record_all ctx (p ∷ ps) t = record_all ctx ps (write_position ctx p t)

    -- `run` of the backfill, once the deals of its window and the open positions are read.
    unfoldable pub run : AccountContext F → Option ℕ → List (Deal F) → List String → T → T
    run ctx backfill_from deals open_ids t =
        record_all ctx (aggregate_deals deals open_ids backfill_from) t
