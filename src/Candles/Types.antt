-- ===== src/Candles/Types.antt =====
-- src/candles/types.ts: a chart candle. `t` is the open time in milliseconds.
use tradetrack_api.Prelude.{ℕ}

pub record Candle (F : Type 0) : Type 0 where
  pub t : ℕ
  pub o : F
  pub h : F
  pub l : F
  pub c : F
  pub v : F
