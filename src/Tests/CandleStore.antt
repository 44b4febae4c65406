-- ===== src/Tests/CandleStore.antt =====
-- The candle store at concrete candles, files and jobs.
use tradetrack_api.Prelude.{
  ℕ, ◌+◌, ◌*◌, ◌/◌, ◌≡◌, refl, none, some, List, [], ◌∷◌, map, arith, get_elem?, ltb, if◌then◌else◌,
}
use tradetrack_api.Number.Fixed.{ℤ, pos, fixed_number}
use tradetrack_api.Candles.Types.{Candle}
use tradetrack_api.Candles.Calendar.{ms_per_day}
use tradetrack_api.Candles.Buckets.{day_starts_in}
use tradetrack_api.Candles.Buckets.Days.{get_elem?-day_starts_in}
use tradetrack_api.Candles.Aggregate.{aggregate_candles}
use tradetrack_api.Candles.Aggregate.Grouped.{groups, summary}
use tradetrack_api.Candles.Aggregate.Fold.{aggregate_candles-groups}
use tradetrack_api.Candles.Aggregate.Ascending.{IsAligned, aggregate_candles-IsAligned}
use tradetrack_api.Candles.Bi5.{candles, decode_candle_file}
use tradetrack_api.Candles.Bi5.Records.{
  RawRecord, encode_file, traded, decode_candle_file-encode_file,
}
use tradetrack_api.Candles.Jobs.Memory.{slot_table}

-- A time in February 2024, in milliseconds.
abbrev in_february : ℕ
in_february = 1707000000000

get_elem?-day_starts_in_example : get_elem? (day_starts_in 100000000 300000000) 1 ≡ (
    if ltb ((100000000 / ms_per_day + 1) * ms_per_day) 300000000
    then some ((100000000 / ms_per_day + 1) * ms_per_day)
    else none)
get_elem?-day_starts_in_example = get_elem?-day_starts_in 100000000 300000000 1

abbrev candle : ℕ → ℕ → Candle ℤ
candle t price = record {
  t = t;
  o = pos price;
  h = pos (price + 20);
  l = pos price;
  c = pos (price + 10);
  v = pos 10000;
}

-- Three minutes, of which the last begins another hour.
abbrev three_minutes : List (Candle ℤ)
three_minutes = candle 3480000 100 ∷ candle 3540000 110 ∷ candle 3600000 120 ∷ []

aggregate_candles-groups_example :
    aggregate_candles three_minutes 3600 ≡ map (summary 3600000) (groups 3600000 three_minutes)
aggregate_candles-groups_example = aggregate_candles-groups three_minutes 3600

aggregate_candles-IsAligned_example : IsAligned 3600000 (aggregate_candles three_minutes 3600)
aggregate_candles-IsAligned_example =
    aggregate_candles-IsAligned three_minutes 3600 (omega arith, (omega arith, tt))

-- A record with a volume, and one without.
abbrev two_records : List RawRecord
two_records =
    record {
      seconds = 60;
      open_price = 109000;
      close_price = 109010;
      low_price = 108990;
      high_price = 109020;
      volume_bits = 1065353216;
    }
    ∷ record {
      seconds = 120;
      open_price = 109010;
      close_price = 109010;
      low_price = 109010;
      high_price = 109010;
      volume_bits = 0;
    }
    ∷ []

decode_candle_file-encode_file_example :
    decode_candle_file {F = ℤ} (λ bytes. some (encode_file two_records)) [] 0 (pos 1000000000)
    ≡ candles (traded 0 (pos 1000000000) two_records)
decode_candle_file-encode_file_example =
    decode_candle_file-encode_file 0 (pos 1000000000) (λ bytes. some (encode_file two_records)) []
      two_records refl
      (
        record {
          seconds = omega arith;
          open_price = omega arith;
          close_price = omega arith;
          low_price = omega arith;
          high_price = omega arith;
          volume_bits = omega arith;
        },
        (
          record {
            seconds = omega arith;
            open_price = omega arith;
            close_price = omega arith;
            low_price = omega arith;
            high_price = omega arith;
            volume_bits = omega arith;
          },
          tt,
        ),
      )
