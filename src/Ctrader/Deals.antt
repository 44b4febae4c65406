-- ===== src/Ctrader/Deals.antt =====
-- src/ctrader/backfill.service.ts: the deals and positions of cTrader's history, and what is read off
-- a position's deals. `now` is the time that `new Date()` gives.
use mathlib.Core.List.{foldl}
use tradetrack_api.Prelude.{
  ℕ, ◌-◌, ◌*◌, max, String, str_eq, Bool, not, ◌||◌, Option, none, some, is_some, coalesce, List,
  [], ◌∷◌, if◌then◌else◌,
}
use tradetrack_api.Number.{JsNumber}
use tradetrack_api.Ctrader.Types.{Int64, text, number, ClosePositionDetail, to_text, number_or_zero}

abbrev pub backfill_lookback_ms : ℕ
backfill_lookback_ms = 90 * 24 * 60 * 60 * 1000

abbrev pub backfill_watermark_buffer_ms : ℕ
backfill_watermark_buffer_ms = 15 * 24 * 60 * 60 * 1000

-- `RawDeal`; its `RawCloseDetail` has the fields of a `ClosePositionDetail`.
pub record RawDeal (F : Type 0) : Type 0 where
  pub position_id : Option (Int64 F)
  pub symbol_id : Option (Int64 F)
  pub volume : Option (Int64 F)
  pub filled_volume : Option (Int64 F)
  pub trade_side : Option (Int64 F)
  pub execution_timestamp : Option (Int64 F)
  pub create_timestamp : Option (Int64 F)
  pub close_position_detail : Option (ClosePositionDetail F)

pub record RawTradeData (F : Type 0) : Type 0 where
  pub symbol_id : Option (Int64 F)
  pub volume : Option (Int64 F)
  pub trade_side : Option (Int64 F)
  pub open_timestamp : Option (Int64 F)

pub record RawPosition (F : Type 0) : Type 0 where
  pub position_id : Option (Int64 F)
  pub trade_data : Option (RawTradeData F)

pub record CloseFigures (F : Type 0) : Type 0 where
  pub gross_profit : F
  pub commission : F
  pub swap : F

pub record NormalizedDeal (F : Type 0) : Type 0 where
  pub symbol_id : F
  pub volume : F
  pub filled_volume : F
  pub side : String
  pub execution_timestamp : F
  pub create_timestamp : F
  pub close : Option (CloseFigures F)

pub record OpenPosition (F : Type 0) : Type 0 where
  pub position_id : String
  pub symbol_id : F
  pub volume : F
  pub side : String
  pub open_timestamp : F

abbrev pub invert : String → String
invert side = if str_eq side "BUY" then "SELL" else "BUY"

-- `lastClosed` is the exit time of the last closed trade. The result is the source's if `now` is at
-- least the lookback: then no difference that is the result is negative.
unfoldable pub watermark : ℕ → Option ℕ → ℕ
watermark now none = now - backfill_lookback_ms
watermark now (some e) = max (now - backfill_lookback_ms) (e - backfill_watermark_buffer_ms)

module _ {F : Type 0} where
  -- `deals.filter((d) => d.close)`, `deals.find((d) => !d.close)` and the first of a list
  abbrev pub closing_deals : List (NormalizedDeal F) → List (NormalizedDeal F)
  closing_deals [] = []
  closing_deals (d ∷ ds) = if is_some d.close then d ∷ closing_deals ds else closing_deals ds

  abbrev pub open_deal : List (NormalizedDeal F) → Option (NormalizedDeal F)
  open_deal [] = none
  open_deal (d ∷ ds) = if is_some d.close then open_deal ds else some d

  abbrev pub first : List (NormalizedDeal F) → Option (NormalizedDeal F)
  first [] = none
  first (d ∷ ds) = some d

  abbrev pub either_deal {ℓ} :
      {A : Type ℓ}
      → A
      → (NormalizedDeal F → A)
      → (NormalizedDeal F → A)
      → Option (NormalizedDeal F)
      → Option (NormalizedDeal F)
      → A
  either_deal d f g (some o) c = f o
  either_deal d f g none (some c) = g c
  either_deal d f g none none = d

module _ {F : Type 0} ⦃num : JsNumber F⦄ where
  open num use {of_nat, add, div, lt, eq, to_ms}

  abbrev pub is_two : F → Bool
  is_two x = eq x (of_nat 2)

  -- `value === 'SELL' || Number(value) === 2`
  unfoldable pub normalize_side : Option (Int64 F) → String
  normalize_side none = "BUY"
  normalize_side (some (text s)) =
      if str_eq s "SELL" || is_two (num.of_string s) then "SELL" else "BUY"
  normalize_side (some (number x)) = if is_two x then "SELL" else "BUY"

  abbrev pub close_figures : ClosePositionDetail F → CloseFigures F
  close_figures detail = record {
    gross_profit = number_or_zero detail.gross_profit;
    commission = number_or_zero detail.commission;
    swap = number_or_zero detail.swap;
  }

  unfoldable pub normalize : RawDeal F → NormalizedDeal F
  unfolding normalize_side
  normalize d = record {
    symbol_id = number_or_zero d.symbol_id;
    volume = number_or_zero d.volume;
    filled_volume = number_or_zero (coalesce d.filled_volume d.volume);
    side = normalize_side d.trade_side;
    execution_timestamp = number_or_zero d.execution_timestamp;
    create_timestamp = number_or_zero d.create_timestamp;
    close = elim d.close_position_detail [
      | none ↦ none
      | some detail ↦ some (close_figures detail)
    ];
  }

  -- `toDate`: a missing or non-positive time is the present.
  abbrev pub date_of : ℕ → F → ℕ
  date_of now ms = if lt (of_nat 0) ms then to_ms ms else now

  -- `a || b` on numbers, where 0 and NaN count as false.
  abbrev pub or_else : F → F → F
  or_else a b = if eq a (of_nat 0) || not (eq a a) then b else a

  abbrev pub sum_of : (NormalizedDeal F → F) → List (NormalizedDeal F) → F
  sum_of f = foldl (λ s d. add s (f d)) (of_nat 0)

  abbrev pub figure : (CloseFigures F → F) → NormalizedDeal F → F
  figure f d = elim d.close [ none ↦ of_nat 0 | some x ↦ f x ]

  abbrev pub opened_at : NormalizedDeal F → F
  opened_at d = or_else d.execution_timestamp d.create_timestamp

  -- `String(raw.positionId ?? '')`
  abbrev pub raw_id : Option (Int64 F) → String
  raw_id none = ""
  raw_id (some id) = to_text id
