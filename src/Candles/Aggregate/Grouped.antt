-- ===== src/Candles/Aggregate/Grouped.antt =====
-- The fold without its loop: the candles cut into groups of one bucket each, a candle for each group.
use mathlib.Core.List.{foldl}
use tradetrack_api.Prelude.{ℕ, ◌==◌, List, [], ◌∷◌, if◌then◌else◌}
use tradetrack_api.Number.{JsNumber}
use tradetrack_api.Candles.Types.{Candle}
use tradetrack_api.Candles.Aggregate.{bucket_of}

-- A group is its first candle and the others.
abbrev pub Group : Type 0 → Type 0
Group F = Candle F × List (Candle F)

module _ {F : Type 0} ⦃num : JsNumber F⦄ where
  -- `c` in front of the groups: it joins the first one if that is of its bucket.
  unfoldable pub join : ℕ → Candle F → List (Group F) → List (Group F)
  join span c [] = (c, []) ∷ []
  join span c ((d, ds) ∷ gs) =
      if bucket_of span c == bucket_of span d then (c, d ∷ ds) ∷ gs else (c, []) ∷ (d, ds) ∷ gs

  unfoldable pub groups : ℕ → List (Candle F) → List (Group F)
  groups span [] = []
  groups span (c ∷ cs) = join span c (groups span cs)

  -- Opens where the group opens and closes where it closes; the extremes, and the rounded sum.
  unfoldable pub summary : ℕ → Group F → Candle F
  summary span (c, cs) = record {
    t = bucket_of span c;
    o = c.o;
    h = foldl (λ x d. num.max x d.h) c.h cs;
    l = foldl (λ x d. num.min x d.l) c.l cs;
    c = foldl (λ x d. d.c) c.c cs;
    v = num.to_fixed 4 (foldl (λ x d. num.add x d.v) c.v cs);
  }
