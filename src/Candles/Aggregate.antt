-- ===== src/Candles/Aggregate.antt =====
-- src/candles/aggregate.ts: candles folded into a coarser timeframe.
pub mod Grouped
pub mod Fold
pub mod Ascending
use tradetrack_api.Prelude.{
  ℕ, ◌*◌, ◌/◌, ◌==◌, Option, none, some, List, [], ◌∷◌, ◌++◌, if◌then◌else◌,
}
use tradetrack_api.Number.{JsNumber}
use tradetrack_api.Candles.Types.{Candle}

module _ {F : Type 0} ⦃num : JsNumber F⦄ where
  open num use {add, min, max, to_fixed}

  -- `Math.floor(c.t / spanMs) * spanMs`
  abbrev pub bucket_of : ℕ → Candle F → ℕ
  bucket_of span c = c.t / span * span

  -- `flush`: the volume is rounded to four decimals.
  abbrev pub flushed : Candle F → Candle F
  flushed cur = record cur { v = to_fixed 4 cur.v }

  abbrev pub opened : ℕ → Candle F → Candle F
  opened b c = record c { t = b }

  abbrev pub absorbed : Candle F → Candle F → Candle F
  absorbed cur c = record cur { h = max cur.h c.h; l = min cur.l c.l; c = c.c; v = add cur.v c.v }

  -- The loop over the candles left, with its variables `cur`, `bucket` and `out`, and the last flush.
  unfoldable pub loop :
      ℕ → List (Candle F) → Option (Candle F) → ℕ → List (Candle F) → List (Candle F)
  loop span [] none bucket out = out
  loop span [] (some cur) bucket out = out ++ flushed cur ∷ []
  loop span (c ∷ cs) none bucket out =
      let b = bucket_of span c in loop span cs (some (opened b c)) b out
  loop span (c ∷ cs) (some cur) bucket out =
      let b = bucket_of span c in
      let next = loop span cs (some (opened b c)) b (out ++ flushed cur ∷ []) in
      let same = loop span cs (some (absorbed cur c)) bucket out in
      if b == bucket then same else next

  unfoldable pub aggregate_candles : List (Candle F) → ℕ → List (Candle F)
  aggregate_candles candles target_seconds = loop (target_seconds * 1000) candles none 0 []
