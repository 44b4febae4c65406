-- ===== src/Trades.antt =====
-- src/trades/metrics.ts: money rounding, the outcome of a trade, profit % and R-multiple.
pub mod Outcome
pub mod Multiple
use tradetrack_api.Prelude.{Option, none, some, Bool, ◌&&◌, ◌||◌, not, if◌then◌else◌}
use tradetrack_api.Number.{JsNumber}

pub data TradeResult : Type 0 where
  tp sl be : TradeResult

pub record RrParams (F : Type 0) : Type 0 where
  pub profit_money : Option F
  pub profit_percentage : Option F
  pub nominal : Option F
  pub risk_percentage : Option F

module _ {F : Type 0} ⦃num : JsNumber F⦄ where
  open num use {of_nat, tenth, mul, div, abs, round, lt, eq, is_finite}

  abbrev pub default_imported_risk_percentage : F
  default_imported_risk_percentage = of_nat 1

  unfoldable pub round_money : F → F
  round_money value = div (round (mul value (of_nat 100))) (of_nat 100)

  unfoldable pub round_percent : F → F
  round_percent value = div (round (mul value (of_nat 10000))) (of_nat 10000)

  unfoldable pub get_trade_result : Option F → F → Option TradeResult
  get_trade_result none nominal = none
  get_trade_result (some pnl) nominal =
      if lt (of_nat 0) nominal && lt (abs (mul (div pnl nominal) (of_nat 100))) tenth
      then some be
      else if eq nominal (of_nat 0) && eq pnl (of_nat 0)
      then some be
      else if lt (of_nat 0) pnl
      then some tp
      else some sl

  -- `nominal <= 0` is `nominal < 0 || nominal === 0`.
  abbrev pub le : F → F → Bool
  le a b = lt a b || eq a b

  unfoldable pub compute_profit_percentage_from_money : Option F → Option F → Option F
  compute_profit_percentage_from_money none nominal = none
  compute_profit_percentage_from_money (some money) none = none
  compute_profit_percentage_from_money (some money) (some nominal) =
      if not (is_finite money)
      then none
      else if not (is_finite nominal) || le nominal (of_nat 0)
      then none
      else some (round_percent (mul (div money nominal) (of_nat 100)))

  -- The second half of `computeTradeRr`: profit % over risk %.
  abbrev pub rr_from_percentage : Option F → F → Option F
  rr_from_percentage none risk = none
  rr_from_percentage (some pct) risk = if is_finite pct then some (div pct risk) else none

  -- The money branch, whose guard has passed.
  abbrev pub rr_from_money : F → F → F → Option F
  rr_from_money money nominal risk =
      let risk_money = div (mul nominal risk) (of_nat 100) in
      if not (is_finite risk_money) || eq risk_money (of_nat 0)
      then none
      else some (div money risk_money)

  abbrev pub rr_at_risk : Option F → Option F → Option F → F → Option F
  rr_at_risk (some money) pct (some nominal) risk =
      if is_finite money && lt (of_nat 0) nominal
      then rr_from_money money nominal risk
      else rr_from_percentage pct risk
  rr_at_risk (some money) pct none risk = rr_from_percentage pct risk
  rr_at_risk none pct nominal risk = rr_from_percentage pct risk

  unfoldable pub compute_trade_rr : RrParams F → Option F
  compute_trade_rr p = elim p.risk_percentage [
    | none ↦ none
    | some risk ↦
        if not (is_finite risk) || le risk (of_nat 0)
        then none
        else rr_at_risk p.profit_money p.profit_percentage p.nominal risk
  ]
