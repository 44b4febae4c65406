-- ===== src/Candles/Calendar.antt =====
-- JavaScript's UTC calendar, as far as src/candles/buckets.ts uses it: `getUTCFullYear`,
-- `getUTCMonth`, `getUTCDate` and `Date.UTC`. Times are milliseconds since 1970, which are not
-- negative; a year is counted from 1970.
use tradetrack_api.Prelude.{
  ℕ, zero, suc, ◌+◌, ◌-◌, ◌*◌, ◌/◌, ◌%◌, ◌≡◌, ap, ◌∙◌, ◌≤◌, ◌<◌, Bool, ◌&&◌, ◌||◌, not, List, [],
  ◌∷◌, arith, ltb, ◌==◌, if◌then◌else◌, sum, sum_before, num_at, length, Bool-cases, inl, inr, refl,
  ltb→lt, ltb-false→le,
}

abbrev pub ms_per_day : ℕ
ms_per_day = 86400000

-- The year 1970 + k.
unfoldable pub is_leap : ℕ → Bool
is_leap k = let y = 1970 + k in (y % 4 == 0) && (not (y % 100 == 0) || (y % 400 == 0))

unfoldable pub month_lengths : ℕ → List ℕ
unfolding is_leap
month_lengths k =
    31 ∷ (if is_leap k then 29 else 28) ∷ 31 ∷ 30 ∷ 31 ∷ 30 ∷ 31 ∷ 31 ∷ 30 ∷ 31 ∷ 30 ∷ 31 ∷ []

unfoldable pub year_length : ℕ → ℕ
unfolding month_lengths
year_length k = sum (month_lengths k)

-- The days before the year 1970 + k.
unfoldable pub days_before : ℕ → ℕ
days_before zero = 0
days_before (suc k) = days_before k + year_length k

-- The year in which a day lies, from year `k` on, and the day's place in it.
unfoldable pub split_year : ℕ → ℕ → ℕ → ℕ × ℕ
split_year zero k d = (k, d)
split_year (suc fuel) k d =
    let later = split_year fuel (suc k) (d - year_length k) in
    if ltb d (year_length k) then (k, d) else later

-- The month in which a day of the year lies, and the day's place in it, both from 0.
unfoldable pub split_month : List ℕ → ℕ → ℕ × ℕ
split_month [] d = (0, d)
split_month (n ∷ ns) d =
    let later = split_month ns (d - n) in if ltb d n then (0, d) else (suc later.0, later.1)

-- Year, month and day of the month of a day since 1970. A year has a day at least, so the day's own
-- number is fuel enough.
unfoldable pub civil : ℕ → ℕ × ℕ × ℕ
civil d =
    let (k, day) = split_year d 0 d in
    let (month, rest) = split_month (month_lengths k) day in (k, month, rest)

-- `Date.UTC(1970 + k, month, 1)`; months past December go on into the next year.
unfoldable pub utc : ℕ → ℕ → ℕ
utc k month =
    let year = k + month / 12 in
    (days_before year + sum_before (month_lengths year) (month % 12)) * ms_per_day

pub year_length-bounds : (k : ℕ) → (365 ≤ year_length k) × (year_length k ≤ 366)
unfolding year_length
year_length-bounds k = ground arith

split_year_lem :
    (fuel k d : ℕ)
    → d ≤ fuel
    → let (k', r) = split_year fuel k d in
      (days_before k' + r ≡ days_before k + d) × (r < year_length k')
unfolding split_year days_before
split_year_lem zero k d h = ground (arith, year_length-bounds k)
split_year_lem (suc fuel) k d h =
    ground (arith, year_length-bounds k, split_year_lem fuel (suc k) (d - year_length k))

split_month_lem :
    (ns : List ℕ) (d : ℕ)
    → d < sum ns
    → let (m, r) = split_month ns d in
      (sum_before ns m + r ≡ d) × (r < num_at ns m) × (m < length ns)
unfolding split_month
split_month_lem [] d h = absurd (omega arith)
split_month_lem (n ∷ ns) d h = ground (arith, split_month_lem ns (d - n))

sum_before_zero : (n : ℕ) (ns : List ℕ) → n + sum_before ns 0 ≡ n
sum_before_zero n [] = omega arith
sum_before_zero n (m ∷ ns) = omega arith

pub sum_before-suc : (ns : List ℕ) (m : ℕ) → sum_before ns (suc m) ≡ sum_before ns m + num_at ns m
sum_before-suc [] m = refl
sum_before-suc (n ∷ ns) zero = omega (arith, sum_before_zero n ns)
sum_before-suc (n ∷ ns) (suc m) = omega (arith, sum_before-suc ns m)

length-month_lengths : (k : ℕ) → length (month_lengths k) ≡ 12
unfolding month_lengths
length-month_lengths k = refl

days_before_zero : days_before 0 ≡ 0
unfolding days_before
days_before_zero = refl

sum-month_lengths : (k : ℕ) → sum (month_lengths k) ≡ year_length k
unfolding year_length
sum-month_lengths k = refl

-- Year, month and day of a day number add up to it again.
pub civil_lem :
    (d : ℕ)
    → let (k, m, r) = civil d in
      (days_before k + sum_before (month_lengths k) m + r ≡ d)
      × (r < num_at (month_lengths k) m)
      × (m < 12)
unfolding civil
civil_lem d =
    let (k, day) = split_year d 0 d in
    let (total, inside) = split_year_lem d 0 d (omega arith) in
    let (total', inside', small) =
      split_month_lem (month_lengths k) day (omega (arith, sum-month_lengths k)) in
    (
      omega (arith, days_before_zero, total, total'),
      inside',
      omega (arith, length-month_lengths k, small),
    )

abbrev AllBetween : ℕ → ℕ → List ℕ → Type 0
AllBetween lo hi [] = Unit {0}
AllBetween lo hi (n ∷ ns) = (lo ≤ n) × (n ≤ hi) × AllBetween lo hi ns

num_at-AllBetween :
    (lo hi : ℕ) (ns : List ℕ) (m : ℕ)
    → AllBetween lo hi ns
    → m < length ns
    → (lo ≤ num_at ns m) × (num_at ns m ≤ hi)
num_at-AllBetween lo hi [] m all h = absurd (omega arith)
num_at-AllBetween lo hi (n ∷ ns) zero all h = (all.0, all.1)
num_at-AllBetween lo hi (n ∷ ns) (suc m) all h = num_at-AllBetween lo hi ns m all.2 (omega arith)

month_lengths-AllBetween : (k : ℕ) → AllBetween 28 31 (month_lengths k)
unfolding month_lengths
month_lengths-AllBetween k = ground arith

-- A month has 28 to 31 days.
pub month_length-bounds :
    (k m : ℕ) → m < 12 → (28 ≤ num_at (month_lengths k) m) × (num_at (month_lengths k) m ≤ 31)
month_length-bounds k m h =
    num_at-AllBetween 28 31 (month_lengths k) m (month_lengths-AllBetween k)
      (omega (arith, length-month_lengths k))

sum_before-length : (ns : List ℕ) → sum_before ns (length ns) ≡ sum ns
sum_before-length [] = refl
sum_before-length (n ∷ ns) = omega (arith, sum_before-length ns)

sum_before-year : (k : ℕ) → sum_before (month_lengths k) 12 ≡ year_length k
unfolding year_length
sum_before-year k = sum_before-length (month_lengths k)

days_before-suc : (k : ℕ) → days_before (suc k) ≡ days_before k + year_length k
unfolding days_before
days_before-suc k = refl

sum_before_none : (ns : List ℕ) → sum_before ns 0 ≡ 0
sum_before_none [] = refl
sum_before_none (n ∷ ns) = refl

-- The first day of the next month, in December that of January.
pub utc-next :
    (k m : ℕ)
    → m < 12
    → utc k (m + 1)
      ≡ (days_before k + sum_before (month_lengths k) m + num_at (month_lengths k) m) * ms_per_day
unfolding utc
utc-next k m h = elim (Bool-cases (ltb m 11)) [
  | inl e ↦
      let same : k + (m + 1) / 12 ≡ k = omega (arith, ltb→lt m 11 e) in
      let month : (m + 1) % 12 ≡ suc m = omega (arith, ltb→lt m 11 e) in
      rw (same, month) (omega (arith, sum_before-suc (month_lengths k) m))
  | inr e ↦
      let december : m ≡ 11 = omega (arith, ltb-false→le m 11 e) in
      let later : k + (m + 1) / 12 ≡ suc k = omega arith in
      let january : (m + 1) % 12 ≡ 0 = omega arith in
      rw (later, january)
        (omega (
          arith,
          sum_before_none (month_lengths (suc k)),
          days_before-suc k,
          sum_before-year k,
          sum_before-suc (month_lengths k) m,
          ap (λ i. sum_before (month_lengths k) (suc i)) december,
        ))
]

-- Within a year.
pub utc_here :
    (k m : ℕ) → m < 12 → utc k m ≡ (days_before k + sum_before (month_lengths k) m) * ms_per_day
unfolding utc
utc_here k m h =
    let same : k + m / 12 ≡ k = omega arith in
    let month : m % 12 ≡ m = omega arith in rw (same, month)

-- A day of a year lies inside it.
pub civil_year :
    (d : ℕ) → let (k, m, r) = civil d in (days_before k ≤ d) × (d < days_before k + year_length k)
unfolding civil
civil_year d =
    let (k, day) = split_year d 0 d in
    let (total, inside) = split_year_lem d 0 d (omega arith) in
    (omega (arith, days_before_zero, total), omega (arith, days_before_zero, total, inside))

pub utc-year : (k : ℕ) → utc k 0 ≡ days_before k * ms_per_day
utc-year k = utc_here k 0 (omega arith) ∙ rw (sum_before_none (month_lengths k)) (omega arith)

pub utc-next_year : (k : ℕ) → utc (k + 1) 0 ≡ (days_before k + year_length k) * ms_per_day
utc-next_year k =
    let e : k + 1 ≡ suc k = omega arith in rw e (utc-year (suc k) ∙ rw (days_before-suc k))
