-- ===== src/Candles/Buckets/Spans.antt =====
-- The spans of month and year chunks (src/candles/buckets.ts).
use tradetrack_api.Prelude.{ℕ, ◌+◌, ◌*◌, ◌/◌, ◌≡◌, ◌≤◌, ◌<◌, arith, num_at}
use tradetrack_api.Candles.Calendar.{
  ms_per_day, civil, utc, civil_lem, civil_year, utc_here, utc-next, utc-year, utc-next_year,
  month_lengths, month_length-bounds, year_length, year_length-bounds,
}
use tradetrack_api.Candles.Buckets.{next_month_start_ms, next_year_start_ms}

-- A time lies between the start of its own month and `nextMonthStartMs`, which are as many days
-- apart as that month has, 28 to 31.
pub next_month_start_ms_lem :
    (ms : ℕ)
    → let (k, month, day) = civil (ms / ms_per_day) in
      let days = num_at (month_lengths k) month in
      (utc k month ≤ ms)
      × (ms < next_month_start_ms ms)
      × (next_month_start_ms ms ≡ utc k month + days * ms_per_day)
      × (28 ≤ days)
      × (days ≤ 31)
unfolding next_month_start_ms
next_month_start_ms_lem ms =
    let (k, m, r) = civil (ms / ms_per_day) in
    let (total, inside, small) = civil_lem (ms / ms_per_day) in
    let next = utc-next k m small in
    let here = utc_here k m small in
    let (low, high) = month_length-bounds k m small in
    (omega arith, omega arith, omega arith, low, high)

-- A time lies between the start of its own year and `nextYearStartMs`, 365 or 366 days apart.
pub next_year_start_ms_lem :
    (ms : ℕ)
    → let (k, month, day) = civil (ms / ms_per_day) in
      (utc k 0 ≤ ms)
      × (ms < next_year_start_ms ms)
      × (next_year_start_ms ms ≡ utc k 0 + year_length k * ms_per_day)
      × (365 ≤ year_length k)
      × (year_length k ≤ 366)
unfolding next_year_start_ms
next_year_start_ms_lem ms =
    let (k, m, r) = civil (ms / ms_per_day) in
    let (low, high) = civil_year (ms / ms_per_day) in
    let next = utc-next_year k in
    let here = utc-year k in
    let (short, long) = year_length-bounds k in (omega arith, omega arith, omega arith, short, long)
