-- ===== src/Candles/Bi5.antt =====
-- src/candles/bi5.ts: a decompressed candle file, byte by byte. The LZMA decoder is a parameter; a
-- file that it cannot read is `unreadable`.
pub mod Records
use tradetrack_api.Prelude.{
  ℕ, zero, suc, ◌+◌, ◌*◌, ◌%◌, ◌==◌, Option, none, some, List, [], ◌∷◌, ltb, if◌then◌else◌, length,
  num_at, not,
}
use tradetrack_api.Number.{JsNumber}
use tradetrack_api.Candles.Types.{Candle}

pub data Decoded (F : Type 0) : Type 0 where
  candles : List (Candle F) → Decoded F
  unreadable : Decoded F
  bad_size : ℕ → Decoded F

abbrev pub candle_record_bytes : ℕ
candle_record_bytes = 24

-- `data.readUInt32BE(off)`
unfoldable pub read_u32_be : List ℕ → ℕ → ℕ
read_u32_be bytes off =
    ((num_at bytes off * 256 + num_at bytes (off + 1)) * 256 + num_at bytes (off + 2)) * 256
    + num_at bytes (off + 3)

module _ {F : Type 0} ⦃num : JsNumber F⦄ where
  open num use {of_nat, div, eq, of_float32}

  -- `data.readFloatBE(off)`
  abbrev pub read_float_be : List ℕ → ℕ → F
  read_float_be bytes off = of_float32 (read_u32_be bytes off)

  unfoldable pub candle_at : List ℕ → ℕ → ℕ → F → Candle F
  candle_at bytes off file_start_ms decimal_factor = record {
    t = file_start_ms + read_u32_be bytes off * 1000;
    o = div (of_nat (read_u32_be bytes (off + 4))) decimal_factor;
    h = div (of_nat (read_u32_be bytes (off + 16))) decimal_factor;
    l = div (of_nat (read_u32_be bytes (off + 12))) decimal_factor;
    c = div (of_nat (read_u32_be bytes (off + 8))) decimal_factor;
    v = read_float_be bytes (off + 20);
  }

  -- The loop over the offsets; a record with volume 0 is dropped.
  unfoldable pub decode_from : ℕ → List ℕ → ℕ → ℕ → F → List (Candle F)
  decode_from zero bytes off file_start_ms decimal_factor = []
  decode_from (suc rounds) bytes off file_start_ms decimal_factor =
      let rest =
        decode_from rounds bytes (off + candle_record_bytes) file_start_ms decimal_factor in
      let kept =
        if eq (read_float_be bytes (off + 20)) (of_nat 0)
        then rest
        else candle_at bytes off file_start_ms decimal_factor ∷ rest in
      if ltb off (length bytes) then kept else []

  -- A file has no more records than bytes, so the rounds are enough.
  unfoldable pub decode_bytes : List ℕ → ℕ → F → Decoded F
  decode_bytes bytes file_start_ms decimal_factor =
      if not (length bytes % candle_record_bytes == 0)
      then bad_size (length bytes)
      else candles (decode_from (suc (length bytes)) bytes 0 file_start_ms decimal_factor)

  unfoldable pub decode_candle_file : (List ℕ → Option (List ℕ)) → List ℕ → ℕ → F → Decoded F
  decode_candle_file decompress_file compressed file_start_ms decimal_factor =
      elim (decompress_file compressed) [
        | none ↦ unreadable
        | some bytes ↦ decode_bytes bytes file_start_ms decimal_factor
      ]
