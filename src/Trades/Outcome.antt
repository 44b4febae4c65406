-- ===== src/Trades/Outcome.antt =====
-- How `getTradeResult` (src/trades/metrics.ts) treats a gain and the equal loss.
use mathlib.Core.Option
use tradetrack_api.Prelude.{◌≡◌, some, not, arith}
use tradetrack_api.Number.{JsNumber}
use tradetrack_api.Trades.{TradeResult, tp, sl, be, get_trade_result}

abbrev pub flip : TradeResult → TradeResult
flip tp = sl
flip sl = tp
flip be = be

-- The laws of signed numbers that the classification rests on.
pub record SignLaws {F : Type 0} (num : JsNumber F) : Type 0 where
  pub div-neg : (x y : F) → num.div (num.neg x) y ≡ num.neg (num.div x y)
  pub mul-neg : (x y : F) → num.mul (num.neg x) y ≡ num.neg (num.mul x y)
  pub abs-neg : (x : F) → num.abs (num.neg x) ≡ num.abs x
  pub eq-neg : (x : F) → num.eq (num.neg x) (num.of_nat 0) ≡ num.eq x (num.of_nat 0)
  pub lt-neg : (x : F) → num.lt (num.of_nat 0) (num.neg x) ≡ num.lt x (num.of_nat 0)

-- For a profit that is neither zero nor NaN (exactly one of `pnl < 0` and `0 < pnl` holds), the
-- equal loss has the opposite outcome: TP and SL change places, and BE stays BE.
pub get_trade_result-neg :
    {F : Type 0} ⦃num : JsNumber F⦄ (laws : SignLaws num) (pnl nominal : F)
    → num.lt pnl (num.of_nat 0) ≡ not (num.lt (num.of_nat 0) pnl)
    → get_trade_result (some (num.neg pnl)) nominal
      ≡ Option.map flip (get_trade_result (some pnl) nominal)
unfolding get_trade_result
get_trade_result-neg ⦃num⦄ laws pnl nominal signed =
    rw
      (
        laws.div-neg pnl nominal,
        laws.mul-neg (num.div pnl nominal) (num.of_nat 100),
        laws.abs-neg,
        laws.eq-neg pnl,
        laws.lt-neg pnl,
        signed,
      )
      (ground arith)
