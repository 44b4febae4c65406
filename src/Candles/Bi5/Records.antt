-- ===== src/Candles/Bi5/Records.antt =====
-- Files made of records, and what `decodeCandleFile` (src/candles/bi5.ts) reads back from them.
use mathlib.Core.List.{append_assoc}
use tradetrack_api.Prelude.{
  ℕ, zero, suc, ◌+◌, ◌*◌, ◌/◌, ◌%◌, ◌≡◌, refl, ap, ◌∙◌, subst, ◌<◌, ◌==◌, List, [], ◌∷◌, ◌++◌,
  Option, some, arith, length, length-append, num_at, if◌then◌else◌, ltb, lt→ltb, le→ltb-false,
  true, false,
}
use tradetrack_api.Number.{JsNumber}
use tradetrack_api.Candles.Types.{Candle}
use tradetrack_api.Candles.Bi5.{
  candles, read_u32_be, read_float_be, candle_at, decode_from, decode_bytes, decode_candle_file,
  candle_record_bytes,
}

-- The six words of a record, in the order of the file; the last is the volume's float32 pattern.
pub record RawRecord : Type 0 where
  pub seconds : ℕ
  pub open_price : ℕ
  pub close_price : ℕ
  pub low_price : ℕ
  pub high_price : ℕ
  pub volume_bits : ℕ

pub record FitsU32 (r : RawRecord) : Type 0 where
  pub seconds : r.seconds < 4294967296
  pub open_price : r.open_price < 4294967296
  pub close_price : r.close_price < 4294967296
  pub low_price : r.low_price < 4294967296
  pub high_price : r.high_price < 4294967296
  pub volume_bits : r.volume_bits < 4294967296

abbrev pub AllFit : List RawRecord → Type 0
AllFit [] = Unit {0}
AllFit (r ∷ rs) = FitsU32 r × AllFit rs

-- A word in front of `rest`, its highest byte first.
abbrev pub word : ℕ → List ℕ → List ℕ
word n rest = (n / 16777216) ∷ (n / 65536 % 256) ∷ (n / 256 % 256) ∷ (n % 256) ∷ rest

abbrev pub encode_record : RawRecord → List ℕ → List ℕ
encode_record r rest = word r.seconds (
    word r.open_price
      (word r.close_price (word r.low_price (word r.high_price (word r.volume_bits rest)))))

unfoldable pub encode_file : List RawRecord → List ℕ
encode_file [] = []
encode_file (r ∷ rs) = encode_record r (encode_file rs)

num_at-append_right : (xs ys : List ℕ) (i : ℕ) → num_at (xs ++ ys) (length xs + i) ≡ num_at ys i
num_at-append_right [] ys i = ground arith
num_at-append_right (x ∷ xs) ys i = ground (arith, num_at-append_right xs ys i)

num_at-append_at :
    (xs ys : List ℕ) (off i : ℕ) → off ≡ length xs + i → num_at (xs ++ ys) off ≡ num_at ys i
num_at-append_at xs ys off i e = rw e (num_at-append_right xs ys i)

read_u32_be-append_right :
    (xs ys : List ℕ) (off i : ℕ)
    → off ≡ length xs + i
    → read_u32_be (xs ++ ys) off ≡ read_u32_be ys i
unfolding read_u32_be
read_u32_be-append_right xs ys off i e = rw (
  num_at-append_at xs ys off i e,
  num_at-append_at xs ys (off + 1) (i + 1) (omega arith),
  num_at-append_at xs ys (off + 2) (i + 2) (omega arith),
  num_at-append_at xs ys (off + 3) (i + 3) (omega arith),
)

-- The words of a record, at their offsets.
read_u32_be-record :
    (r : RawRecord) (rest : List ℕ)
    → FitsU32 r
    → let bytes = encode_record r rest in
      (read_u32_be bytes 0 ≡ r.seconds)
      × (read_u32_be bytes 4 ≡ r.open_price)
      × (read_u32_be bytes 8 ≡ r.close_price)
      × (read_u32_be bytes 12 ≡ r.low_price)
      × (read_u32_be bytes 16 ≡ r.high_price)
      × (read_u32_be bytes 20 ≡ r.volume_bits)
unfolding read_u32_be
read_u32_be-record r rest h =
    (omega arith, omega arith, omega arith, omega arith, omega arith, omega arith)

length-encode_file : (rs : List RawRecord) → length (encode_file rs) ≡ length rs * 24
unfolding encode_file
length-encode_file [] = omega arith
length-encode_file (r ∷ rs) = omega (arith, length-encode_file rs)

module _ {F : Type 0} ⦃num : JsNumber F⦄ (file_start_ms : ℕ) (decimal_factor : F) where
  open num use {of_nat, div, eq, of_float32}

  abbrev pub candle_of : RawRecord → Candle F
  candle_of r = record {
    t = file_start_ms + r.seconds * 1000;
    o = div (of_nat r.open_price) decimal_factor;
    h = div (of_nat r.high_price) decimal_factor;
    l = div (of_nat r.low_price) decimal_factor;
    c = div (of_nat r.close_price) decimal_factor;
    v = of_float32 r.volume_bits;
  }

  -- A candle for each record with a volume other than 0, in order.
  abbrev pub traded : List RawRecord → List (Candle F)
  traded [] = []
  traded (r ∷ rs) =
      if eq (of_float32 r.volume_bits) (of_nat 0) then traded rs else candle_of r ∷ traded rs

  candle_at-record :
      (before : List ℕ) (r : RawRecord) (rest : List ℕ) (off : ℕ)
      → off ≡ length before + 0
      → FitsU32 r
      → (candle_at (before ++ encode_record r rest) off file_start_ms decimal_factor ≡ candle_of r)
        × (read_u32_be (before ++ encode_record r rest) (off + 20) ≡ r.volume_bits)
  unfolding candle_at
  candle_at-record before r rest off e h =
      let (seconds, open_price, close_price, low_price, high_price, volume) =
        read_u32_be-record r rest h in
      let at = read_u32_be-append_right before (encode_record r rest) in
      let bits = at (off + 20) 20 (omega arith) ∙ volume in
      (
        rw (
          at off 0 e ∙ seconds,
          at (off + 4) 4 (omega arith) ∙ open_price,
          at (off + 8) 8 (omega arith) ∙ close_price,
          at (off + 12) 12 (omega arith) ∙ low_price,
          at (off + 16) 16 (omega arith) ∙ high_price,
          ap of_float32 bits,
        ),
        bits,
      )

  decode_from-file :
      (rounds : ℕ) (before : List ℕ) (rs : List RawRecord) (off : ℕ)
      → off ≡ length before + 0
      → length rs < rounds
      → AllFit rs
      → decode_from rounds (before ++ encode_file rs) off file_start_ms decimal_factor ≡ traded rs
  unfolding decode_from encode_file
  decode_from-file zero before rs off e h fit = absurd (omega arith)
  decode_from-file (suc rounds) before [] off e h fit =
      let ends : ltb off (length (before ++ [])) ≡ false =
        le→ltb-false _ _ (omega (arith, length-append before [])) in
      rw ends
  decode_from-file (suc rounds) before (r ∷ rs) off e h fit =
      let bytes = before ++ encode_record r (encode_file rs) in
      let inside : ltb off (length bytes) ≡ true =
        lt→ltb _ _ (omega (arith, length-append before (encode_record r (encode_file rs)))) in
      let (candle, bits) = candle_at-record before r (encode_file rs) off e (fit.0) in
      let rest : decode_from rounds bytes (off + candle_record_bytes) file_start_ms decimal_factor
          ≡ traded rs =
        subst
          (λ x.
            decode_from rounds x (off + candle_record_bytes) file_start_ms decimal_factor
            ≡ traded rs)
          (append_assoc before (encode_record r []) (encode_file rs))
          (decode_from-file rounds (before ++ encode_record r []) rs (off + candle_record_bytes)
            (omega (arith, length-append before (encode_record r []))) (omega arith) fit.1) in
      let volume : read_float_be bytes (off + 20) ≡ of_float32 r.volume_bits = ap of_float32 bits in
      rw (inside, volume, candle, rest)

  -- A file made of records that fit into 32-bit words is read back record by record: each becomes its
  -- candle, and those with volume 0 are left out.
  pub decode_candle_file-encode_file :
      (decompress_file : List ℕ → Option (List ℕ)) (compressed : List ℕ) (rs : List RawRecord)
      → decompress_file compressed ≡ some (encode_file rs)
      → AllFit rs
      → decode_candle_file decompress_file compressed file_start_ms decimal_factor
        ≡ candles (traded rs)
  unfolding decode_candle_file decode_bytes
  decode_candle_file-encode_file decompress_file compressed rs e fit =
      let bytes = encode_file rs in
      let whole : (length bytes % candle_record_bytes == 0) ≡ true =
        ground (arith, length-encode_file rs) in
      let small : length rs < suc (length bytes) = omega (arith, length-encode_file rs) in
      rw (e, decode_candle_file)
        (rw whole (ap candles (decode_from-file (suc (length bytes)) [] rs 0 refl small fit)))
