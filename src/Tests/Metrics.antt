-- ===== src/Tests/Metrics.antt =====
-- The metrics at concrete figures.
use tradetrack_api.Prelude.{ℕ, zero, suc, ◌≡◌, refl, Bool, true, false, none, some}
use tradetrack_api.Number.{JsNumber}
use tradetrack_api.Number.Fixed.{ℤ, pos, fixed_number}
use tradetrack_api.Trades.{RrParams, compute_trade_rr}
use tradetrack_api.Trades.Multiple.{IsMultiple, compute_trade_rr-IsMultiple}
use tradetrack_api.Trades.Outcome.{SignLaws}

-- A gain of 50 on 10,000 at a risk of 1 %: half of what was risked.
abbrev half_r : RrParams ℤ
half_r = record {
  profit_money = some (pos 500000);
  profit_percentage = none;
  nominal = some (pos 100000000);
  risk_percentage = some (pos 10000);
}

compute_trade_rr-IsMultiple_example : IsMultiple half_r (pos 5000)
unfolding compute_trade_rr
compute_trade_rr-IsMultiple_example = compute_trade_rr-IsMultiple half_r (pos 5000) refl

-- Numbers of which only the sign is kept.
data Sign : Type 0 where
  minus nought plus : Sign

abbrev flip_sign : Sign → Sign
flip_sign minus = plus
flip_sign nought = nought
flip_sign plus = minus

abbrev times : Sign → Sign → Sign
times minus x = flip_sign x
times nought x = nought
times plus x = x

abbrev is_nought : Sign → Bool
is_nought nought = true
is_nought x = false

abbrev is_minus : Sign → Bool
is_minus minus = true
is_minus x = false

abbrev size : Sign → Sign
size nought = nought
size x = plus

-- By sign alone: what is below zero, and zero below what is above it.
abbrev less : Sign → Sign → Bool
less minus minus = false
less minus nought = true
less minus plus = true
less nought plus = true
less x y = false

abbrev same_sign : Sign → Sign → Bool
same_sign minus minus = true
same_sign nought nought = true
same_sign plus plus = true
same_sign x y = false

abbrev sign_of_nat : ℕ → Sign
sign_of_nat zero = nought
sign_of_nat (suc n) = plus

abbrev add_sign : Sign → Sign → Sign
add_sign nought y = y
add_sign x y = x

instance abbrev sign_number : JsNumber Sign
sign_number = record {
  of_nat = sign_of_nat;
  tenth = plus;
  add = add_sign;
  mul = times;
  div = times;
  neg = flip_sign;
  abs = size;
  round = λ x. x;
  min = λ x y. if_less x y x y;
  max = λ x y. if_less x y y x;
  to_fixed = λ n x. x;
  lt = less;
  eq = same_sign;
  is_finite = λ x. true;
  of_string = λ s. nought;
  to_string = λ x. "0";
  of_float32 = sign_of_nat;
  to_ms = λ x. 0;
}
  where
    if_less : Sign → Sign → Sign → Sign → Sign
    if_less x y a b = elim (less x y) [ true ↦ a | false ↦ b ]

times-flip_sign : (x y : Sign) → times (flip_sign x) y ≡ flip_sign (times x y)
times-flip_sign minus minus = refl
times-flip_sign minus nought = refl
times-flip_sign minus plus = refl
times-flip_sign nought y = refl
times-flip_sign plus y = refl

size-flip_sign : (x : Sign) → size (flip_sign x) ≡ size x
size-flip_sign minus = refl
size-flip_sign nought = refl
size-flip_sign plus = refl

same_sign-flip_sign : (x : Sign) → same_sign (flip_sign x) nought ≡ same_sign x nought
same_sign-flip_sign minus = refl
same_sign-flip_sign nought = refl
same_sign-flip_sign plus = refl

less-flip_sign : (x : Sign) → less nought (flip_sign x) ≡ less x nought
less-flip_sign minus = refl
less-flip_sign nought = refl
less-flip_sign plus = refl

abbrev sign_laws : SignLaws sign_number
sign_laws = record {
  div-neg = times-flip_sign;
  mul-neg = times-flip_sign;
  abs-neg = size-flip_sign;
  eq-neg = same_sign-flip_sign;
  lt-neg = less-flip_sign;
}
