-- ===== src/Candles/Buckets/Days.antt =====
-- The day starts of a span (src/candles/buckets.ts, dayStartsIn).
use tradetrack_api.Prelude.{
  ℕ, zero, suc, ◌+◌, ◌-◌, ◌*◌, ◌/◌, ◌≡◌, ◌∙◌, ◌≤◌, none, some, arith, ltb, if◌then◌else◌, get_elem?,
  length,
}
use tradetrack_api.Candles.Calendar.{ms_per_day}
use tradetrack_api.Candles.Buckets.{days_from, day_starts_in}

get_elem?-days_from :
    (rounds d to i : ℕ)
    → to ≤ d + rounds * ms_per_day
    → get_elem? (days_from rounds d to) i
      ≡ (if ltb (d + i * ms_per_day) to then some (d + i * ms_per_day) else none)
unfolding days_from
get_elem?-days_from zero d to i h = ground arith
get_elem?-days_from (suc rounds) d to zero h = ground arith
get_elem?-days_from (suc rounds) d to (suc i) h =
    ground (arith, get_elem?-days_from rounds (d + ms_per_day) to i)

length-days_from :
    (rounds d to : ℕ)
    → to ≤ d + rounds * ms_per_day
    → length (days_from rounds d to) ≡ (to - d + (ms_per_day - 1)) / ms_per_day
unfolding days_from
length-days_from zero d to h = omega arith
length-days_from (suc rounds) d to h = ground (arith, length-days_from rounds (d + ms_per_day) to)

-- The list holds exactly the midnights from that of `from` on that lie before `to`, in order: the
-- i-th one is i days after the midnight of `from`.
pub get_elem?-day_starts_in :
    (from to i : ℕ)
    → let d = (from / ms_per_day + i) * ms_per_day in
      get_elem? (day_starts_in from to) i ≡ (if ltb d to then some d else none)
unfolding day_starts_in
get_elem?-day_starts_in from to i =
    let first = from / ms_per_day * ms_per_day in
    let e : (from / ms_per_day + i) * ms_per_day ≡ first + i * ms_per_day = omega arith in
    rw e (get_elem?-days_from (suc (to / ms_per_day)) first to i (omega arith))

-- A span that starts at a midnight and ends `n` days later is built from `n` files.
pub length-day_starts_in :
    (first n : ℕ) → length (day_starts_in (first * ms_per_day) ((first + n) * ms_per_day)) ≡ n
unfolding day_starts_in
length-day_starts_in first n =
    let to = (first + n) * ms_per_day in
    let start = first * ms_per_day / ms_per_day * ms_per_day in
    length-days_from (suc (to / ms_per_day)) start to (omega arith) ∙ omega arith
