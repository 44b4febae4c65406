-- ===== src/Candles/Aggregate/Ascending.antt =====
-- Folded candles of an ascending series (src/candles/aggregate.ts).
use tradetrack_api.Prelude.{
  ℕ, ◌*◌, ◌%◌, ◌≡◌, refl, sym, ◌≤◌, ◌<◌, ◌==◌, List, [], ◌∷◌, map, arith, Bool-cases, inl, inr,
  subst, ==→eq,
}
use tradetrack_api.Number.{JsNumber}
use tradetrack_api.Candles.Types.{Candle}
use tradetrack_api.Candles.Aggregate.{bucket_of, aggregate_candles}
use tradetrack_api.Candles.Aggregate.Grouped.{Group, join, groups, summary}
use tradetrack_api.Candles.Aggregate.Fold.{aggregate_candles-groups}

module _ {F : Type 0} where
  abbrev pub IsAscending : List (Candle F) → Type 0
  IsAscending [] = Unit {0}
  IsAscending (c ∷ []) = Unit {0}
  IsAscending (c ∷ d ∷ cs) = (c.t ≤ d.t) × IsAscending (d ∷ cs)

  -- Every candle opens at a multiple of `span`, after `b`, and after the one before it.
  abbrev pub IsAlignedAfter : ℕ → ℕ → List (Candle F) → Type 0
  IsAlignedAfter span b [] = Unit {0}
  IsAlignedAfter span b (c ∷ cs) = (b < c.t) × (c.t % span ≡ 0) × IsAlignedAfter span c.t cs

  -- The same with no bound for the first candle.
  abbrev pub IsAligned : ℕ → List (Candle F) → Type 0
  IsAligned span [] = Unit {0}
  IsAligned span (c ∷ cs) = (c.t % span ≡ 0) × IsAlignedAfter span c.t cs

module _ {F : Type 0} ⦃num : JsNumber F⦄ (span : ℕ) where
  -- The groups are of ever later buckets, all after `b`.
  abbrev Above : ℕ → List (Group F) → Type 0
  Above b [] = Unit {0}
  Above b ((d, ds) ∷ gs) = (b < bucket_of span d) × Above (bucket_of span d) gs

  -- The first group is of the bucket of `c`, and the others come after it.
  abbrev Leads : Candle F → List (Group F) → Type 0
  Leads c [] = ⊥
  Leads c ((d, ds) ∷ gs) = (bucket_of span d ≡ bucket_of span c) × Above (bucket_of span d) gs

  bucket_of_mono : (c d : Candle F) → c.t ≤ d.t → bucket_of span c ≤ bucket_of span d
  bucket_of_mono c d h = grind arith

  bucket_of-mod : (c : Candle F) → bucket_of span c % span ≡ 0
  bucket_of-mod c = grind arith

  join-Leads :
      (c d : Candle F) (gs : List (Group F)) → c.t ≤ d.t → Leads d gs → Leads c (join span c gs)
  unfolding join
  join-Leads c d [] h l = absurd l
  join-Leads c d ((e, es) ∷ gs) h (same, above) =
      elim (Bool-cases (bucket_of span c == bucket_of span e)) [
        | inl f ↦ rw f (
          refl,
          subst (λ b. Above b gs) (sym (==→eq (bucket_of span c) (bucket_of span e) f)) above,
        )
        | inr f ↦ rw f (refl, (ground (arith, bucket_of_mono c d h), above))
      ]

  join-Leads_nil : (c : Candle F) → Leads c (join span c [])
  unfolding join
  join-Leads_nil c = (refl, tt)

  groups-Leads :
      (c : Candle F) (cs : List (Candle F)) → IsAscending (c ∷ cs) → Leads c (groups span (c ∷ cs))
  unfolding groups
  groups-Leads c [] h = join-Leads_nil c
  groups-Leads c (d ∷ cs) h = join-Leads c d (groups span (d ∷ cs)) h.0 (groups-Leads d cs h.1)

  summary-IsAlignedAfter :
      (b : ℕ) (gs : List (Group F)) → Above b gs → IsAlignedAfter span b (map (summary span) gs)
  unfolding summary
  summary-IsAlignedAfter b [] h = tt
  summary-IsAlignedAfter b ((d, ds) ∷ gs) h =
      (h.0, bucket_of-mod d, summary-IsAlignedAfter (bucket_of span d) gs h.1)

  Leads-IsAligned :
      (c : Candle F) (gs : List (Group F)) → Leads c gs → IsAligned span (map (summary span) gs)
  unfolding summary
  Leads-IsAligned c [] l = absurd l
  Leads-IsAligned c ((d, ds) ∷ gs) l =
      (bucket_of-mod d, summary-IsAlignedAfter (bucket_of span d) gs l.1)

module _ {F : Type 0} ⦃num : JsNumber F⦄ where
  -- From candles in ascending order the fold gives candles that open at multiples of the target span,
  -- each strictly after the one before it: no bucket appears twice.
  pub aggregate_candles-IsAligned :
      (candles : List (Candle F)) (target_seconds : ℕ)
      → IsAscending candles
      → IsAligned (target_seconds * 1000) (aggregate_candles candles target_seconds)
  unfolding groups
  aggregate_candles-IsAligned [] target_seconds h =
      subst (IsAligned (target_seconds * 1000)) (sym (aggregate_candles-groups [] target_seconds))
        tt
  aggregate_candles-IsAligned (c ∷ cs) target_seconds h =
      let span = target_seconds * 1000 in
      subst (IsAligned span) (sym (aggregate_candles-groups (c ∷ cs) target_seconds))
        (Leads-IsAligned span c (groups span (c ∷ cs)) (groups-Leads span c cs h))
