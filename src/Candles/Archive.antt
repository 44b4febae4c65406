-- ===== src/Candles/Archive.antt =====
-- src/candles/archive-client.service.ts and constants.ts: the instruments of the archive, and the
-- candles of one day. The object store is a parameter, by what a GET of a key gives.
use tradetrack_api.Prelude.{ℕ, String, str_eq, Option, none, some, List, [], ◌∷◌, if◌then◌else◌}
use tradetrack_api.Number.{JsNumber}
use tradetrack_api.Candles.Types.{Candle}
use tradetrack_api.Candles.Buckets.{day_minute_candles_key}
use tradetrack_api.Candles.Bi5.{candles, unreadable, bad_size, decode_candle_file}

pub record IngestInstrument : Type 0 where
  pub s3_folder : String
  pub decimal_factor : ℕ

abbrev pub instrument : String → ℕ → IngestInstrument
instrument folder factor = record { s3_folder = folder; decimal_factor = factor }

-- `INGEST_INSTRUMENT_BY_SYMBOL`
abbrev pub ingest_instruments : List (String × IngestInstrument)
ingest_instruments =
    ("EURUSD", instrument "EURUSD" 100000)
    ∷ ("GBPUSD", instrument "GBPUSD" 100000)
    ∷ ("USDJPY", instrument "USDJPY" 1000)
    ∷ ("AUDUSD", instrument "AUDUSD" 100000)
    ∷ ("USDCAD", instrument "USDCAD" 100000)
    ∷ ("XAUUSD", instrument "XAUUSD" 1000)
    ∷ ("US30", instrument "USA30IDXUSD" 1000)
    ∷ ("SPX500", instrument "USA500IDXUSD" 1000)
    ∷ ("GER40", instrument "DEUIDXEUR" 1000)
    ∷ ("NAS100", instrument "USATECHIDXUSD" 1000)
    ∷ ("USOIL", instrument "LIGHTCMDUSD" 1000)
    ∷ ("GBPAUD", instrument "GBPAUD" 100000)
    ∷ ("GBPJPY", instrument "GBPJPY" 1000)
    ∷ ("BTCUSD", instrument "BTCUSD" 10)
    ∷ ("ADAUSD", instrument "ADAUSD" 1000)
    ∷ []

-- `BASE_RESOLUTION_SECONDS`
abbrev pub base_resolutions : List (String × ℕ)
base_resolutions = ("1m", 60) ∷ ("1h", 3600) ∷ ("1d", 86400) ∷ []

unfoldable pub lookup {ℓ} : {A : Type ℓ} → String → List (String × A) → Option A
lookup key [] = none
lookup key ((k, a) ∷ rest) = if str_eq k key then some a else lookup key rest

-- What the S3 client answers.
pub data Reply : Type 0 where
  body : List ℕ → Reply
  no_body no_such_key : Reply
  refused : String → Reply

-- One day's candles, no file, or an error that is thrown.
pub data Fetched (F : Type 0) : Type 0 where
  day : List (Candle F) → Fetched F
  missing : Fetched F
  failed : String → Fetched F

-- What the program does not implement: the store, the LZMA decoder, and `String` on numbers.
pub record Archive : Type 0 where
  pub get_object : String → Reply
  pub decompress_file : List ℕ → Option (List ℕ)
  pub text_of : ℕ → String

module _ {F : Type 0} ⦃num : JsNumber F⦄ (archive : Archive) where
  open archive use {get_object, decompress_file, text_of}

  abbrev pub decoded_day : List ℕ → ℕ → ℕ → Fetched F
  decoded_day bytes day_start_ms decimal_factor =
      elim (decode_candle_file {F = F} decompress_file bytes day_start_ms
        (num.of_nat decimal_factor)) [
          | candles cs ↦ day cs
          | unreadable ↦ failed "lzma"
          | bad_size n ↦ failed "bi5"
        ]

  unfoldable pub fetch_day_minute_candles : String → ℕ → ℕ → Fetched F
  fetch_day_minute_candles s3_folder day_start_ms decimal_factor =
      elim (get_object (day_minute_candles_key text_of s3_folder day_start_ms)) [
        | body bytes ↦ decoded_day bytes day_start_ms decimal_factor
        | no_body ↦ missing
        | no_such_key ↦ missing
        | refused e ↦ failed e
      ]
