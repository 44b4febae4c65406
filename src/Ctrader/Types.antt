-- ===== src/Ctrader/Types.antt =====
-- src/ctrader/types.ts: a pooled account and the payload of an execution event.
use tradetrack_api.Prelude.{ℕ, String, Option, none, some}
use tradetrack_api.Number.{JsNumber}

pub data CtraderEnvironment : Type 0 where
  demo live : CtraderEnvironment

-- cTrader sends int64 fields as texts or as numbers.
pub data Int64 (F : Type 0) : Type 0 where
  text : String → Int64 F
  number : F → Int64 F

pub record PoolAccount (F : Type 0) : Type 0 where
  pub token_id : String
  pub trading_account_id : String
  pub ctid_trader_account_id : F
  pub access_token : String
  pub refresh_token : String
  pub expires_at : Option ℕ
  pub environment : CtraderEnvironment
  pub user_id : String
  pub nominal : F
  -- `symbolNames?.get`, absent until the symbol list is read.
  pub symbol_names : Option (F → Option String)

pub record TradeData (F : Type 0) : Type 0 where
  pub symbol_id : Option (Int64 F)
  pub volume : Option (Int64 F)
  pub trade_side : Option String
  pub open_timestamp : Option (Int64 F)

pub record ClosePositionDetail (F : Type 0) : Type 0 where
  pub gross_profit : Option (Int64 F)
  pub swap : Option (Int64 F)
  pub commission : Option (Int64 F)

pub record EventDeal (F : Type 0) : Type 0 where
  pub position_id : Option (Int64 F)
  pub symbol_id : Option (Int64 F)
  pub volume : Option (Int64 F)
  pub trade_side : Option String
  pub execution_timestamp : Option (Int64 F)
  pub close_position_detail : Option (ClosePositionDetail F)

pub record EventPosition (F : Type 0) : Type 0 where
  pub position_id : Option (Int64 F)
  pub position_status : Option String
  pub trade_data : Option (TradeData F)

pub record ExecutionEvent (F : Type 0) : Type 0 where
  pub position : Option (EventPosition F)
  pub deal : Option (EventDeal F)

module _ {F : Type 0} ⦃num : JsNumber F⦄ where
  -- `Number(x)` and `String(x)`
  abbrev pub to_number : Int64 F → F
  to_number (text s) = num.of_string s
  to_number (number x) = x

  abbrev pub to_text : Int64 F → String
  to_text (text s) = s
  to_text (number x) = num.to_string x

  -- `Number(x ?? 0)`
  abbrev pub number_or_zero : Option (Int64 F) → F
  number_or_zero none = num.of_nat 0
  number_or_zero (some x) = to_number x
