-- ===== src/Candles/Buckets.antt =====
-- src/candles/buckets.ts: the spans that a chunk covers, and the archive's key of a day.
pub mod Spans
pub mod Days
use tradetrack_api.Prelude.{
  ℕ, zero, suc, ◌+◌, ◌*◌, ◌/◌, String, concat, List, [], ◌∷◌, ltb, if◌then◌else◌,
}
use tradetrack_api.Candles.Calendar.{ms_per_day, civil, utc}

unfoldable pub next_month_start_ms : ℕ → ℕ
next_month_start_ms ms = let (k, month, day) = civil (ms / ms_per_day) in utc k (month + 1)

unfoldable pub next_year_start_ms : ℕ → ℕ
next_year_start_ms ms = let (k, month, day) = civil (ms / ms_per_day) in utc (k + 1) 0

-- `for (let d = first; d < toMs; d += MS_PER_DAY) out.push(d)`, the rounds that are left first.
unfoldable pub days_from : ℕ → ℕ → ℕ → List ℕ
days_from zero d to = []
days_from (suc rounds) d to =
    let rest = days_from rounds (d + ms_per_day) to in if ltb d to then d ∷ rest else []

-- The loop ends before the days of `to` are used up.
unfoldable pub day_starts_in : ℕ → ℕ → List ℕ
day_starts_in from to = days_from (suc (to / ms_per_day)) (from / ms_per_day * ms_per_day) to

-- `String(n).padStart(2, '0')`, where `text_of` is `String` on numbers.
abbrev pub pad_two : (ℕ → String) → ℕ → String
pad_two text_of n = if ltb n 10 then concat "0" (text_of n) else text_of n

-- Months count from 0 in the archive, and days from 1.
unfoldable pub day_minute_candles_key : (ℕ → String) → String → ℕ → String
day_minute_candles_key text_of s3_folder day_start_ms =
    let (k, month, day) = civil (day_start_ms / ms_per_day) in
    concat s3_folder (
      concat "/" (
        concat (text_of (1970 + k)) (
          concat "/" (
            concat (pad_two text_of month)
              (concat "/" (concat (pad_two text_of (day + 1)) "/BID_candles_min_1.bi5"))))))
