-- ===== src/MarketData/Sbe.antt =====
-- okx/marketdata/sbe_bbo: the binary messages of the best bid and ask. A read outside the message or the
-- table of powers is an error. The conversion of an integer to `double` is an argument.
pub mod Safe
pub mod Layout
pub mod RoundTrip
use cpp_trading_engine.Base.{
  ℕ, zero, suc, ◌+◌, ◌-◌, ◌*◌, ◌^◌, Bool, true, false, ◌||◌, ◌&&◌, not, Option, none, some, [], ◌∷◌,
  if◌then◌else◌, ltb, leb, ◌==◌, length, get_elem?, Text, Result, ok, err, ◌>>=◌, or_throw,
  out_of_bounds,
}
use cpp_trading_engine.Base.Double.{Double}
use cpp_trading_engine.Base.Int.{ℤ, pos, negsuc}

-- `kHeaderSize`, `kSchemaId`, `kBboTbtTemplateId` and `kBboTbtBlockLength`
abbrev pub header_size : ℕ
header_size = 8

abbrev pub schema_id_of_bbo : ℕ
schema_id_of_bbo = 1

abbrev pub template_id_of_bbo : ℕ
template_id_of_bbo = 1000

abbrev pub bbo_block_length : ℕ
bbo_block_length = 74

pub record MessageHeader : Type 0 where
  pub block_length : ℕ
  pub template_id : ℕ
  pub schema_id : ℕ
  pub version : ℕ

-- `Load` of so many bytes, the lowest first
unfoldable pub load : ℕ → Text → ℕ → Result ℕ
load zero bytes offset = ok 0
load (suc size) bytes offset = do
  low ← or_throw out_of_bounds (get_elem? bytes offset)
  high ← load size bytes (offset + 1)
  ok (low + 256 * high)

-- The signed number of `bits` bits, in two's complement
abbrev pub signed : ℕ → ℕ → ℤ
signed bits n = if ltb n (2 ^ (bits - 1)) then pos n else negsuc (2 ^ bits - 1 - n)

abbrev pub load_signed : ℕ → Text → ℕ → Result ℤ
load_signed size bytes offset = (load size bytes offset) >>= λ n. ok (signed (8 * size) n)

-- `DecodeHeader`
unfoldable pub decode_header : Text → Result (Option MessageHeader)
unfolding load
decode_header message = if ltb (length message) header_size then ok none else (do
  block_length ← load 2 message 0
  template_id ← load 2 message 2
  schema_id ← load 2 message 4
  version ← load 2 message 6
  ok (
      some (record {
        block_length = block_length;
        template_id = template_id;
        schema_id = schema_id;
        version = version;
      })))

-- `ExponentInRange`: from -18 to 18
abbrev pub exponent_in_range : ℤ → Bool
exponent_in_range (pos n) = leb n 18
exponent_in_range (negsuc n) = leb n 17

-- `exponent - kMinExponent`, as a `std::size_t`
abbrev pub table_index : ℤ → ℕ
table_index (pos n) = n + 18
table_index (negsuc n) = if leb n 17 then 17 - n else 2 ^ 64 + 17 - n

module _ (d : Double) where
  open d use {Val, mul, div, literal}

  -- The magnitude that `MakePow10Table` computes, and an element of the table
  unfoldable pub power_of_ten : ℕ → Val
  power_of_ten zero = literal (pos 10000)
  power_of_ten (suc steps) = mul (power_of_ten steps) (literal (pos 100000))

  unfoldable pub pow10_at : ℕ → Result Val
  unfolding power_of_ten
  pow10_at i =
      if ltb i 37
      then ok (
          if ltb i 18
          then div (literal (pos 10000)) (power_of_ten (18 - i))
          else power_of_ten (i - 18))
      else err out_of_bounds

  pub record BboTbt : Type 0 where
    pub inst_id_code : ℤ
    pub ts_us : ℤ
    pub out_time : ℤ
    pub seq_id : ℤ
    pub ask_px : Val
    pub ask_sz : Val
    pub bid_px : Val
    pub bid_sz : Val
    pub ask_ord_count : ℤ
    pub bid_ord_count : ℤ

  module _ (of_int : ℤ → Val) where
    -- `Scale` of a mantissa that is loaded
    abbrev pub load_scaled : Text → ℕ → ℤ → Result Val
    load_scaled message offset exponent = do
      mantissa ← load_signed 8 message offset
      factor ← pow10_at (table_index exponent)
      ok (mul (of_int mantissa) factor)

    -- The fields, where both exponents are in range; the offsets count the header.
    unfoldable pub decode_fields : Text → ℤ → ℤ → Result BboTbt
    unfolding load pow10_at
    decode_fields message px_exponent sz_exponent = do
      inst_id_code ← load_signed 8 message 8
      ts_us ← load_signed 8 message 16
      out_time ← load_signed 8 message 24
      seq_id ← load_signed 8 message 32
      ask_px ← load_scaled message 40 px_exponent
      ask_sz ← load_scaled message 48 sz_exponent
      bid_px ← load_scaled message 56 px_exponent
      bid_sz ← load_scaled message 64 sz_exponent
      ask_ord_count ← load_signed 4 message 72
      bid_ord_count ← load_signed 4 message 76
      ok (record {
        inst_id_code = inst_id_code;
        ts_us = ts_us;
        out_time = out_time;
        seq_id = seq_id;
        ask_px = ask_px;
        ask_sz = ask_sz;
        bid_px = bid_px;
        bid_sz = bid_sz;
        ask_ord_count = ask_ord_count;
        bid_ord_count = bid_ord_count;
      })

    abbrev pub decode_block : Text → Result (Option BboTbt)
    decode_block message = do
      px_exponent ← load_signed 1 message 80
      sz_exponent ← load_signed 1 message 81
      if not (exponent_in_range px_exponent) || not (exponent_in_range sz_exponent)
          then ok none
          else ((decode_fields message px_exponent sz_exponent) >>= λ bbo. ok (some bbo))

    abbrev pub decode_after : Text → Option MessageHeader → Result (Option BboTbt)
    decode_after message none = ok none
    decode_after message (some header) =
        if not (header.schema_id == schema_id_of_bbo)
          || not (header.template_id == template_id_of_bbo)
        then ok none
        else (if ltb header.block_length bbo_block_length
              || ltb (length message) (header_size + header.block_length)
            then ok none
            else decode_block message)

    -- `DecodeBboTbt`
    unfoldable pub decode_bbo_tbt : Text → Result (Option BboTbt)
    unfolding decode_header load decode_fields
    decode_bbo_tbt message = (decode_header message) >>= decode_after message
