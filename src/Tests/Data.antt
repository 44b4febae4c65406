-- ===== src/Tests/Data.antt =====
-- The data that the tests share.
use tradetrack_api.Prelude.{true, none, some}
use tradetrack_api.Number.Fixed.{ℤ, pos, negsuc}
use tradetrack_api.Store.Memory.{Memory, empty}
use tradetrack_api.Metaapi.Types as MetaapiTypes
use tradetrack_api.Tradelocker.Types as TradelockerTypes
use tradetrack_api.Ctrader.Types as CtraderTypes
use tradetrack_api.Ctrader.Writer.{BackfillPosition, Close}

abbrev pub mt5_account : MetaapiTypes.AccountContext ℤ
mt5_account = record { user_id = "u1"; trading_account_id = "a1"; nominal = pos 100000000 }

-- Open, and closed with a gain of 50.
abbrev pub mt5_open : MetaapiTypes.AggregatedPosition ℤ
mt5_open = record {
  position_id = "7";
  symbol = "EURUSD";
  side = MetaapiTypes.buy;
  quantity = pos 10000;
  entry_date = 1000;
  exit_date = none;
  gross_profit = pos 0;
  commission = pos 0;
  swap = pos 0;
}

abbrev pub mt5_closed : MetaapiTypes.AggregatedPosition ℤ
mt5_closed = record mt5_open { exit_date = some 2000; gross_profit = pos 500000 }

abbrev pub tradelocker_account : TradelockerTypes.AccountContext ℤ
tradelocker_account = record { user_id = "u1"; trading_account_id = "a2"; nominal = pos 100000000 }

abbrev pub tradelocker_open : TradelockerTypes.OpenTrade ℤ
tradelocker_open = record {
  position_id = "8";
  symbol = "XAUUSD";
  side = TradelockerTypes.sell;
  quantity = pos 10000;
  entry_date = 1000;
}

abbrev pub tradelocker_closed : TradelockerTypes.ClosedTrade ℤ
tradelocker_closed = record {
  position_id = "8";
  symbol = "XAUUSD";
  side = TradelockerTypes.sell;
  quantity = pos 10000;
  entry_date = 1000;
  exit_date = 3000;
  gross_profit = pos 500000;
  commission = negsuc 9999;
  swap = pos 0;
  net_profit = none;
}

abbrev pub ctrader_account : CtraderTypes.PoolAccount ℤ
ctrader_account = record {
  token_id = "t";
  trading_account_id = "a3";
  ctid_trader_account_id = pos 10000;
  access_token = "x";
  refresh_token = "y";
  expires_at = none;
  environment = CtraderTypes.demo;
  user_id = "u1";
  nominal = pos 100000000;
  symbol_names = none;
}

abbrev pub ctrader_closed : BackfillPosition ℤ
ctrader_closed = record {
  position_id = "9";
  symbol = "GBPUSD";
  direction = "BUY";
  quantity = pos 10000;
  entry_date = 1000;
  fully_closed = true;
  exit_date = some 4000;
  gross_profit = pos 500000;
  commission = pos 0;
  swap = pos 0;
}

abbrev pub ctrader_close : Close ℤ
ctrader_close = record {
  symbol = "GBPUSD";
  direction = "BUY";
  quantity = pos 10000;
  entry_date = 1000;
  exit_date = 4000;
  gross_profit = pos 500000;
  commission = pos 0;
  swap = pos 0;
  fully_closed = true;
}

abbrev pub no_trades : Memory ℤ
no_trades = empty
