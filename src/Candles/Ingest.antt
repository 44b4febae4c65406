-- ===== src/Candles/Ingest.antt =====
-- src/candles/ingest-worker.service.ts: what one ingest job fetches and folds.
use tradetrack_api.Prelude.{
  ℕ, ◌+◌, ◌*◌, String, str_eq, none, some, List, [], ◌∷◌, ◌++◌, ltb, length, if◌then◌else◌,
}
use tradetrack_api.Number.{JsNumber}
use tradetrack_api.Candles.Types.{Candle}
use tradetrack_api.Candles.Calendar.{ms_per_day}
use tradetrack_api.Candles.Buckets.{next_month_start_ms, next_year_start_ms, day_starts_in}
use tradetrack_api.Candles.Aggregate.{aggregate_candles}
use tradetrack_api.Candles.Archive.{
  Archive, IngestInstrument, Fetched, day, missing, failed, fetch_day_minute_candles, lookup,
  ingest_instruments, base_resolutions,
}
use tradetrack_api.Candles.Jobs.{JobKey}

abbrev pub publish_safety_margin_ms : ℕ
publish_safety_margin_ms = 6 * 60 * 60 * 1000

-- `IngestResult`, the sentinel `NOT_PUBLISHED`, `TerminalJobError`, or another error.
pub data Outcome (F : Type 0) : Type 0 where
  ingested : List (Candle F) → ℕ → Outcome F
  not_published : Outcome F
  terminal : String → Outcome F
  errored : String → Outcome F

-- The minutes of all days, in order, or the error of a day.
pub data Minutes (F : Type 0) : Type 0 where
  minutes : List (Candle F) → Minutes F
  broken : String → Minutes F

module _ {F : Type 0} where
  -- `minutes.push(...day)` for each day that has a file.
  abbrev pub prepend : Fetched F → Minutes F → Minutes F
  prepend (failed e) rest = broken e
  prepend missing rest = rest
  prepend (day cs) (minutes ms) = minutes (cs ++ ms)
  prepend (day cs) (broken e) = broken e

module _ {F : Type 0} ⦃num : JsNumber F⦄ (archive : Archive) where
  abbrev pub fetch_day : IngestInstrument → ℕ → Fetched F
  fetch_day i ms = fetch_day_minute_candles archive i.s3_folder ms i.decimal_factor

  -- `mapWithConcurrency` keeps the order of the days, and rejects if a day's fetch does.
  unfoldable pub fetch_days : IngestInstrument → List ℕ → Minutes F
  fetch_days i [] = minutes []
  fetch_days i (ms ∷ days) = prepend (fetch_day i ms) (fetch_days i days)

  abbrev pub folded : Minutes F → ℕ → ℕ → Outcome F
  folded (minutes ms) target_seconds files = ingested (aggregate_candles ms target_seconds) files
  folded (broken e) target_seconds files = errored e

  -- A missing file of a settled day is a closed market. `a - b < c` is `a < b + c`.
  abbrev pub settled_day : Fetched F → ℕ → ℕ → Outcome F
  settled_day (day cs) now bucket_ms = ingested cs 1
  settled_day missing now bucket_ms =
      if ltb now (bucket_ms + ms_per_day + publish_safety_margin_ms)
      then not_published
      else ingested [] 0
  settled_day (failed e) now bucket_ms = errored e

  unfoldable pub ingest_span : IngestInstrument → ℕ → ℕ → ℕ → ℕ → Outcome F
  ingest_span i target_seconds now bucket_ms span_end_ms =
      if ltb now (span_end_ms + publish_safety_margin_ms)
      then not_published
      else let days = day_starts_in bucket_ms span_end_ms in
        folded (fetch_days i days) target_seconds (length days)

  abbrev pub ingest_base : IngestInstrument → ℕ → ℕ → JobKey → Outcome F
  ingest_base i target_seconds now k =
      if str_eq k.resolution "1m"
      then settled_day (fetch_day i k.bucket_start) now k.bucket_start
      else ingest_span i target_seconds now k.bucket_start (
          if str_eq k.resolution "1h"
          then next_month_start_ms k.bucket_start
          else next_year_start_ms k.bucket_start)

  unfoldable pub ingest : ℕ → JobKey → Outcome F
  ingest now k = elim (lookup k.symbol ingest_instruments) [
    | none ↦ terminal "unknown replay symbol"
    | some i ↦ elim (lookup k.resolution base_resolutions) [
      | none ↦ terminal "not a base resolution"
      | some target_seconds ↦ ingest_base i target_seconds now k
    ]
  ]
