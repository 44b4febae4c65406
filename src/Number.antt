-- ===== src/Number.antt =====
-- JavaScript's `number`, as the operations that the program calls on it. The type and its
-- arithmetic are a parameter of the model; what a theorem needs of the arithmetic is its hypothesis.
pub mod Fixed
use tradetrack_api.Prelude.{ℕ, Bool, String}

pub record JsNumber (F : Type 0) : Type 0 where
  pub of_nat : ℕ → F
  -- the literal 0.1
  pub tenth : F
  pub add : F → F → F
  pub mul : F → F → F
  pub div : F → F → F
  pub neg : F → F
  -- `Math.abs`, `Math.round`, `Math.min`, `Math.max`
  pub abs : F → F
  pub round : F → F
  pub min : F → F → F
  pub max : F → F → F
  -- `Number(x.toFixed(n))`
  pub to_fixed : ℕ → F → F
  -- `<` and `===`
  pub lt : F → F → Bool
  pub eq : F → F → Bool
  -- `Number.isFinite`
  pub is_finite : F → Bool
  -- `Number(text)` and `String(number)`
  pub of_string : String → F
  pub to_string : F → String
  -- The value of a float32 bit pattern.
  pub of_float32 : ℕ → F
  -- The time in milliseconds of `new Date(x)`, at a positive x.
  pub to_ms : F → ℕ
