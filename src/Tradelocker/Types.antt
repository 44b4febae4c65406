-- ===== src/Tradelocker/Types.antt =====
-- src/tradelocker/types.ts and constants.ts: the data that the writer and the history reader share.
use tradetrack_api.Prelude.{ℕ, String, Option}

pub data TradeSide : Type 0 where
  buy sell : TradeSide

abbrev pub side_text : TradeSide → String
side_text buy = "BUY"
side_text sell = "SELL"

pub record AccountContext (F : Type 0) : Type 0 where
  pub user_id : String
  pub trading_account_id : String
  pub nominal : F

pub record OpenTrade (F : Type 0) : Type 0 where
  pub position_id : String
  pub symbol : String
  pub side : TradeSide
  pub quantity : F
  pub entry_date : ℕ

-- A realized trade from the report; `net_profit` is absent where the report gives none.
pub record ClosedTrade (F : Type 0) : Type 0 where
  pub position_id : String
  pub symbol : String
  pub side : TradeSide
  pub quantity : F
  pub entry_date : ℕ
  pub exit_date : ℕ
  pub gross_profit : F
  pub commission : F
  pub swap : F
  pub net_profit : Option F

abbrev pub terminal_name : String
terminal_name = "tradelocker"
