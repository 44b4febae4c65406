-- ===== src/Metaapi/Types.antt =====
-- src/metaapi/types.ts and constants.ts: the data that the parts of the MetaApi sync exchange.
use tradetrack_api.Prelude.{ℕ, String, Option}

pub data Side : Type 0 where
  buy sell : Side

abbrev pub side_text : Side → String
side_text buy = "BUY"
side_text sell = "SELL"

pub record AccountContext (F : Type 0) : Type 0 where
  pub user_id : String
  pub trading_account_id : String
  pub nominal : F

-- One MT5 position reconstructed from its deals; `exit_date` is absent while it is open.
pub record AggregatedPosition (F : Type 0) : Type 0 where
  pub position_id : String
  pub symbol : String
  pub side : Side
  pub quantity : F
  pub entry_date : ℕ
  pub exit_date : Option ℕ
  pub gross_profit : F
  pub commission : F
  pub swap : F

abbrev pub terminal_name : String
terminal_name = "metaapi"

abbrev pub position_key_prefix : String
position_key_prefix = "metaapi_pos_"
