-- ===== src/Number/Fixed.antt =====
-- Numbers with four decimals, as one concrete choice of the parameter `JsNumber`: a value stands
-- for its ten-thousandth part, products and quotients are cut off towards zero.
use tradetrack_api.Prelude.{ℕ, suc, ◌+◌, ◌-◌, ◌*◌, ◌/◌, Bool, true, ltb, leb, ◌==◌, if◌then◌else◌}
use tradetrack_api.Number.{JsNumber}

-- `negsuc n` is -(n + 1).
pub data ℤ : Type 0 where
  pos : ℕ → ℤ
  negsuc : ℕ → ℤ

abbrev pub magnitude : ℤ → ℕ
magnitude (pos n) = n
magnitude (negsuc n) = suc n

abbrev pos_part : ℤ → ℕ
pos_part (pos n) = n
pos_part (negsuc n) = 0

abbrev neg_part : ℤ → ℕ
neg_part (pos n) = 0
neg_part (negsuc n) = suc n

abbrev pub sub_ℕ : ℕ → ℕ → ℤ
sub_ℕ a b = if leb b a then pos (a - b) else negsuc (b - a - 1)

abbrev pub negate : ℤ → ℤ
negate a = sub_ℕ (neg_part a) (pos_part a)

-- Two signs make the sign of a product.
abbrev pub signed : ℤ → ℤ → ℕ → ℤ
signed (pos a) (pos b) n = pos n
signed (pos a) (negsuc b) n = sub_ℕ 0 n
signed (negsuc a) (pos b) n = sub_ℕ 0 n
signed (negsuc a) (negsuc b) n = pos n

abbrev pub ltb_ℤ : ℤ → ℤ → Bool
ltb_ℤ a b = ltb (pos_part a + neg_part b) (pos_part b + neg_part a)

abbrev eq_ℤ : ℤ → ℤ → Bool
eq_ℤ a b = (pos_part a + neg_part b) == (pos_part b + neg_part a)

-- Half up, as `Math.round` does.
abbrev round_ℤ : ℤ → ℤ
round_ℤ (pos n) = pos ((n + 5000) / 10000 * 10000)
round_ℤ (negsuc n) = sub_ℕ 0 ((n + 5000) / 10000 * 10000)

instance abbrev pub fixed_number : JsNumber ℤ
fixed_number = record {
  of_nat = λ n. pos (n * 10000);
  tenth = pos 1000;
  add = λ a b. sub_ℕ (pos_part a + pos_part b) (neg_part a + neg_part b);
  mul = λ a b. signed a b (magnitude a * magnitude b / 10000);
  div = λ a b. signed a b (magnitude a * 10000 / magnitude b);
  neg = negate;
  abs = λ a. pos (magnitude a);
  round = round_ℤ;
  min = λ a b. if ltb_ℤ b a then b else a;
  max = λ a b. if ltb_ℤ a b then b else a;
  to_fixed = λ n a. a;
  lt = ltb_ℤ;
  eq = eq_ℤ;
  is_finite = λ a. true;
  of_string = λ s. pos 0;
  to_string = λ a. "1";
  of_float32 = λ n. pos (n * 10000);
  to_ms = λ a. magnitude a / 10000;
}
