-- ===== src/Candles/Aggregate/Fold.antt =====
-- The loop of `aggregateCandles` (src/candles/aggregate.ts) and the summaries of the groups.
use mathlib.Core.List.{foldl, append_assoc}
use tradetrack_api.Prelude.{
  ℕ, ◌*◌, ◌≡◌, refl, ap, ◌∙◌, sym, ◌==◌, true, false, some, List, [], ◌∷◌, ◌++◌, map, if◌then◌else◌,
  arith, Bool-cases, inl, inr,
}
use tradetrack_api.Number.{JsNumber}
use tradetrack_api.Candles.Types.{Candle}
use tradetrack_api.Candles.Aggregate.{bucket_of, flushed, opened, absorbed, loop, aggregate_candles}
use tradetrack_api.Candles.Aggregate.Grouped.{Group, join, groups, summary}

module _ {F : Type 0} ⦃num : JsNumber F⦄ where
  -- What the loop adds to `out` when it stands at `cur`, by the groups that are left.
  abbrev rest_of : ℕ → Candle F → ℕ → List (Group F) → List (Candle F)
  rest_of span cur b [] = flushed cur ∷ []
  rest_of span cur b ((d, ds) ∷ gs) =
      if bucket_of span d == b
      then flushed (foldl absorbed cur (d ∷ ds)) ∷ map (summary span) gs
      else flushed cur ∷ map (summary span) ((d, ds) ∷ gs)

  -- Absorbing candle by candle keeps the opening and folds each of the other columns.
  flushed-foldl :
      (cur : Candle F) (cs : List (Candle F))
      → flushed (foldl absorbed cur cs) ≡ record {
        t = cur.t;
        o = cur.o;
        h = foldl (λ x d. num.max x d.h) cur.h cs;
        l = foldl (λ x d. num.min x d.l) cur.l cs;
        c = foldl (λ x d. d.c) cur.c cs;
        v = num.to_fixed 4 (foldl (λ x d. num.add x d.v) cur.v cs);
      }
  flushed-foldl cur [] = refl
  flushed-foldl cur (c ∷ cs) = flushed-foldl (absorbed cur c) cs

  summary-foldl :
      (span : ℕ) (c : Candle F) (cs : List (Candle F))
      → flushed (foldl absorbed (opened (bucket_of span c) c) cs) ≡ summary span (c, cs)
  unfolding summary
  summary-foldl span c cs = flushed-foldl (opened (bucket_of span c) c) cs

  rest_of-opened :
      (span : ℕ) (c : Candle F) (gs : List (Group F))
      → rest_of span (opened (bucket_of span c) c) (bucket_of span c) gs
        ≡ map (summary span) (join span c gs)
  unfolding join
  rest_of-opened span c [] = ap (λ x. x ∷ []) (summary-foldl span c [])
  rest_of-opened span c ((d, ds) ∷ gs) = elim (Bool-cases (bucket_of span d == bucket_of span c)) [
    | inl e ↦
        let e' : bucket_of span c == bucket_of span d ≡ true = ground arith in
        rw (e, e') (ap (λ x. x ∷ map (summary span) gs) (summary-foldl span c (d ∷ ds)))
    | inr e ↦
        let e' : bucket_of span c == bucket_of span d ≡ false = ground arith in
        rw (e, e') (ap (λ x. x ∷ map (summary span) ((d, ds) ∷ gs)) (summary-foldl span c []))
  ]

  -- A candle of the current bucket is absorbed.
  rest_of-same :
      (span : ℕ) (cur c : Candle F) (b : ℕ) (gs : List (Group F))
      → bucket_of span c == b ≡ true
      → rest_of span (absorbed cur c) b gs ≡ rest_of span cur b (join span c gs)
  unfolding join
  rest_of-same span cur c b [] e = rw e refl
  rest_of-same span cur c b ((d, ds) ∷ gs) e =
      elim (Bool-cases (bucket_of span c == bucket_of span d)) [
        | inl f ↦ let f' : bucket_of span d == b ≡ true = ground arith in rw (f, f', e) refl
        | inr f ↦ let f' : bucket_of span d == b ≡ false = ground arith in rw (f, f', e) refl
      ]

  -- A candle of another bucket closes the current one.
  rest_of-next :
      (span : ℕ) (cur c : Candle F) (b : ℕ) (gs : List (Group F))
      → bucket_of span c == b ≡ false
      → rest_of span cur b (join span c gs) ≡ flushed cur ∷ map (summary span) (join span c gs)
  unfolding join
  rest_of-next span cur c b [] e = rw e refl
  rest_of-next span cur c b ((d, ds) ∷ gs) e =
      elim (Bool-cases (bucket_of span c == bucket_of span d)) [
        | inl f ↦ rw (f, e) refl
        | inr f ↦ rw (f, e) refl
      ]

  loop_lem :
      (span : ℕ) (cs : List (Candle F)) (cur : Candle F) (b : ℕ) (out : List (Candle F))
      → loop span cs (some cur) b out ≡ out ++ rest_of span cur b (groups span cs)
  unfolding loop groups
  loop_lem span [] cur b out = refl
  loop_lem span (c ∷ cs) cur b out = elim (Bool-cases (bucket_of span c == b)) [
    | inl e ↦ rw e (
        loop_lem span cs (absorbed cur c) b out
        ∙ ap (λ x. out ++ x) (rest_of-same span cur c b (groups span cs) e))
    | inr e ↦ rw e (
        loop_lem span cs (opened (bucket_of span c) c) (bucket_of span c) (out ++ flushed cur ∷ [])
        ∙ append_assoc out (flushed cur ∷ []) _
        ∙ ap (λ x. out ++ flushed cur ∷ x) (rest_of-opened span c (groups span cs))
        ∙ ap (λ x. out ++ x) (sym (rest_of-next span cur c b (groups span cs) e)))
  ]

  -- The loop gives one candle for each group of consecutive candles of one bucket, in order.
  pub aggregate_candles-groups :
      (candles : List (Candle F)) (target_seconds : ℕ)
      → aggregate_candles candles target_seconds
        ≡ map (summary (target_seconds * 1000)) (groups (target_seconds * 1000) candles)
  unfolding aggregate_candles loop groups
  aggregate_candles-groups [] target_seconds = refl
  aggregate_candles-groups (c ∷ cs) target_seconds =
      let span = target_seconds * 1000 in
      loop_lem span cs (opened (bucket_of span c) c) (bucket_of span c) []
      ∙ rest_of-opened span c (groups span cs)
