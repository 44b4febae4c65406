-- ===== src/Trades/Multiple.antt =====
-- The R-multiple of `computeTradeRr` (src/trades/metrics.ts) as a quotient of the inputs.
use mathlib.Core.Option
use tradetrack_api.Prelude.{
  ◌≡◌, refl, Option, none, some, true, false, arith, Option-cases, Bool-cases, ◌⊎◌, inl, inr, ◌&&◌,
}
use tradetrack_api.Number.{JsNumber}
use tradetrack_api.Trades.{
  le, RrParams, rr_from_percentage, rr_from_money, rr_at_risk, compute_trade_rr,
}

module _ {F : Type 0} ⦃num : JsNumber F⦄ where
  open num use {of_nat, mul, div, lt, eq, is_finite}

  -- The money at risk, in a part of the nominal.
  abbrev pub at_risk : F → F → F
  at_risk nominal risk = div (mul nominal risk) (of_nat 100)

  -- The profit in money over the money at risk, both of which can be computed.
  abbrev pub IsOfMoney : Option F → Option F → F → F → Type 0
  IsOfMoney money nominal risk r =
      (m : F) × (n : F) × (money ≡ some m)
      × (nominal ≡ some n)
      × (is_finite m ≡ true)
      × (lt (of_nat 0) n ≡ true)
      × (is_finite (at_risk n risk) ≡ true)
      × (eq (at_risk n risk) (of_nat 0) ≡ false)
      × (r ≡ div m (at_risk n risk))

  -- No finite profit in money with a nominal above zero.
  abbrev pub HasNoMoney : Option F → Option F → Type 0
  HasNoMoney money nominal =
      (m n : F) → money ≡ some m → nominal ≡ some n → (is_finite m && lt (of_nat 0) n) ≡ false

  -- The profit in percent over the percentage at risk.
  abbrev pub IsOfPercentage : Option F → F → F → Type 0
  IsOfPercentage percentage risk r =
      (p : F) × (percentage ≡ some p) × (is_finite p ≡ true) × (r ≡ div p risk)

  -- A quotient of the money, or without it of the percentages.
  abbrev pub IsRatio : Option F → Option F → Option F → F → F → Type 0
  IsRatio money percentage nominal risk r =
      IsOfMoney money nominal risk r ⊎ (HasNoMoney money nominal × IsOfPercentage percentage risk r)

  abbrev pub IsMultiple : RrParams F → F → Type 0
  IsMultiple p r =
      (risk : F) × (p.risk_percentage ≡ some risk)
      × (is_finite risk ≡ true)
      × (le risk (of_nat 0) ≡ false)
      × IsRatio p.profit_money p.profit_percentage p.nominal risk r

  rr_from_percentage-IsOfPercentage :
      (percentage : Option F) (risk r : F)
      → rr_from_percentage percentage risk ≡ some r
      → IsOfPercentage percentage risk r
  rr_from_percentage-IsOfPercentage none risk r h = cc
  rr_from_percentage-IsOfPercentage (some p) risk r h = (p, refl, ground arith, ground arith)

  rr_from_money-IsOfMoney :
      (m n risk r : F)
      → (is_finite m && lt (of_nat 0) n) ≡ true
      → rr_from_money m n risk ≡ some r
      → IsOfMoney (some m) (some n) risk r
  rr_from_money-IsOfMoney m n risk r guard h =
      (m, n, refl, refl, ground arith, ground arith, ground arith, ground arith, ground arith)

  rr_at_risk-IsRatio :
      (money percentage nominal : Option F) (risk r : F)
      → rr_at_risk money percentage nominal risk ≡ some r
      → IsRatio money percentage nominal risk r
  rr_at_risk-IsRatio none percentage nominal risk r h = inr (
    λ m n e f. absurd (Option.none-ne-some m e),
    rr_from_percentage-IsOfPercentage percentage risk r h,
  )
  rr_at_risk-IsRatio (some m) percentage none risk r h = inr (
    λ m' n e f. absurd (Option.none-ne-some n f),
    rr_from_percentage-IsOfPercentage percentage risk r h,
  )
  rr_at_risk-IsRatio (some m) percentage (some n) risk r h =
      elim (Bool-cases (is_finite m && lt (of_nat 0) n)) [
        | inl e ↦ inl (rr_from_money-IsOfMoney m n risk r e (rw e at h))
        | inr e ↦
            inr (λ m' n' f g. cc, rr_from_percentage-IsOfPercentage percentage risk r (rw e at h))
      ]

  -- Every R-multiple that is returned is the profit in money over the money at risk, where both are
  -- finite, the divisor is not zero and the nominal is above zero; or, only without a finite profit in
  -- money or a nominal above zero, the finite profit in percent over the risk percentage. That
  -- percentage is given, finite and above zero.
  pub compute_trade_rr-IsMultiple :
      (p : RrParams F) (r : F) → compute_trade_rr p ≡ some r → IsMultiple p r
  unfolding compute_trade_rr
  compute_trade_rr-IsMultiple p r h = elim (Option-cases p.risk_percentage) [
    | inl e ↦ ground arith
    | inr (risk, e) ↦ (
      risk,
      e,
      ground arith,
      ground arith,
      rr_at_risk-IsRatio p.profit_money p.profit_percentage p.nominal risk r (ground arith),
    )
  ]
