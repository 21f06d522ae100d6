-- ===== src/MarketData/Sbe/RoundTrip.antt =====
-- okx/marketdata/sbe_bbo: the decoder on what the layout says.
use cpp_trading_engine.Base.{
  ℕ, ◌+◌, ◌-◌, ◌≡◌, ◌<◌, ◌≤◌, refl, ap, true, false, some, [], ltb, le→ltb, leb, length, Text, ok,
  arith,
}
use cpp_trading_engine.Base.Double.{Double}
use cpp_trading_engine.Base.Int.{ℤ, pos, negsuc}
use cpp_trading_engine.MarketData.Sbe.{
  header_size, load, load_signed, decode_header, exponent_in_range, table_index, power_of_ten,
  pow10_at, BboTbt, decode_fields, decode_bbo_tbt,
}
use cpp_trading_engine.MarketData.Sbe.Layout.{
  InRange, Fields, FieldsInRange, encode_bbo_tbt, load-little_endian, read_int64, read_int32,
  read_int8,
}

-- What each read of the decoder gives.
record Reads (block_length version : ℕ) (f : Fields) (message : Text) : Type 0 where
  whole : header_size + block_length ≤ length message
  enough : 82 ≤ length message
  block : load 2 message 0 ≡ ok block_length
  template : load 2 message 2 ≡ ok 1000
  schema : load 2 message 4 ≡ ok 1
  version_read : load 2 message 6 ≡ ok version
  code : load_signed 8 message 8 ≡ ok f.inst_id_code
  ts : load_signed 8 message 16 ≡ ok f.ts_us
  out : load_signed 8 message 24 ≡ ok f.out_time
  seq : load_signed 8 message 32 ≡ ok f.seq_id
  ask_px : load_signed 8 message 40 ≡ ok f.ask_px_mantissa
  ask_sz : load_signed 8 message 48 ≡ ok f.ask_sz_mantissa
  bid_px : load_signed 8 message 56 ≡ ok f.bid_px_mantissa
  bid_sz : load_signed 8 message 64 ≡ ok f.bid_sz_mantissa
  asks : load_signed 4 message 72 ≡ ok f.ask_ord_count
  bids : load_signed 4 message 76 ≡ ok f.bid_ord_count
  px : load_signed 1 message 80 ≡ ok f.px_exponent
  sz : load_signed 1 message 81 ≡ ok f.sz_exponent

exponent-InRange : (z : ℤ) → exponent_in_range z ≡ true → InRange 8 z
exponent-InRange (pos n) h = ground arith
exponent-InRange (negsuc n) h = ground arith

encode_bbo_tbt-Reads :
    (block_length version : ℕ) (f : Fields) (rest : Text)
    → FieldsInRange f
    → block_length < 65536
    → version < 65536
    → block_length ≤ 74 + length rest
    → Reads block_length version f (encode_bbo_tbt block_length version f rest)
unfolding encode_bbo_tbt load
encode_bbo_tbt-Reads block_length version f rest v b w l = record {
  whole = omega (arith, l);
  enough = omega arith;
  block = load-little_endian 2 block_length [] b;
  template = refl;
  schema = refl;
  version_read = load-little_endian 2 version [] w;
  code = read_int64 f.inst_id_code [] v.inst_id_code_fits;
  ts = read_int64 f.ts_us [] v.ts_us_fits;
  out = read_int64 f.out_time [] v.out_time_fits;
  seq = read_int64 f.seq_id [] v.seq_id_fits;
  ask_px = read_int64 f.ask_px_mantissa [] v.ask_px_fits;
  ask_sz = read_int64 f.ask_sz_mantissa [] v.ask_sz_fits;
  bid_px = read_int64 f.bid_px_mantissa [] v.bid_px_fits;
  bid_sz = read_int64 f.bid_sz_mantissa [] v.bid_sz_fits;
  asks = read_int32 f.ask_ord_count [] v.ask_ord_count_fits;
  bids = read_int32 f.bid_ord_count [] v.bid_ord_count_fits;
  px = read_int8 f.px_exponent [] (exponent-InRange f.px_exponent v.px_exponent_known);
  sz = read_int8 f.sz_exponent rest (exponent-InRange f.sz_exponent v.sz_exponent_known);
}

module _ (d : Double) where
  open d use {Val, mul, div, literal}

  -- Ten to a power that may be negative, by repeated multiplication
  abbrev pub ten_to : ℤ → Val
  ten_to (pos n) = power_of_ten d n
  ten_to (negsuc n) = div (literal (pos 10000)) (power_of_ten d (n + 1))

  table_holds : (z : ℤ) → exponent_in_range z ≡ true → pow10_at d (table_index z) ≡ ok (ten_to z)
  unfolding pow10_at
  table_holds (pos n) h =
      let a : ltb (n + 18) 37 ≡ true = ground arith in
      let b : ltb (n + 18) 18 ≡ false = ground arith in
      rw (a, b) (ap (λ k. ok (power_of_ten d k)) (omega arith))
  table_holds (negsuc n) h =
      let s : leb n 17 ≡ true = h in
      let a : ltb (17 - n) 37 ≡ true = ground arith in
      let b : ltb (17 - n) 18 ≡ true = ground arith in
      let c : 18 - (17 - n) ≡ n + 1 = ground arith in rw (s, a, b, c) refl

  module _ (of_int : ℤ → Val) where
    abbrev pub scaled : ℤ → ℤ → Val
    scaled mantissa exponent = mul (of_int mantissa) (ten_to exponent)

    abbrev pub decoded : Fields → BboTbt d
    decoded f = record {
      inst_id_code = f.inst_id_code;
      ts_us = f.ts_us;
      out_time = f.out_time;
      seq_id = f.seq_id;
      ask_px = scaled f.ask_px_mantissa f.px_exponent;
      ask_sz = scaled f.ask_sz_mantissa f.sz_exponent;
      bid_px = scaled f.bid_px_mantissa f.px_exponent;
      bid_sz = scaled f.bid_sz_mantissa f.sz_exponent;
      ask_ord_count = f.ask_ord_count;
      bid_ord_count = f.bid_ord_count;
    }

    decode_fields-Reads :
        (block_length version : ℕ) (f : Fields) (message : Text)
        → FieldsInRange f
        → Reads block_length version f message
        → decode_fields d of_int message f.px_exponent f.sz_exponent ≡ ok (decoded f)
    unfolding decode_fields
    decode_fields-Reads block_length version f message v r =
        rw
          (
            r.code,
            r.ts,
            r.out,
            r.seq,
            r.ask_px,
            r.ask_sz,
            r.bid_px,
            r.bid_sz,
            r.asks,
            r.bids,
            table_holds f.px_exponent v.px_exponent_known,
            table_holds f.sz_exponent v.sz_exponent_known,
          )
          refl

    decode-Reads :
        (block_length version : ℕ) (f : Fields) (message : Text)
        → FieldsInRange f
        → 74 ≤ block_length
        → Reads block_length version f message
        → decode_bbo_tbt d of_int message ≡ ok (some (decoded f))
    unfolding decode_bbo_tbt decode_header
    decode-Reads block_length version f message v k r =
        let long : ltb (length message) 8 ≡ false =
          le→ltb (length message) 8 (omega (arith, r.enough)) in
        let block : ltb block_length 74 ≡ false = le→ltb block_length 74 k in
        let whole : ltb (length message) (8 + block_length) ≡ false =
          le→ltb (length message) (8 + block_length) r.whole in
        rw
          (
            long,
            r.block,
            r.template,
            r.schema,
            r.version_read,
            block,
            whole,
            r.px,
            r.sz,
            v.px_exponent_known,
            v.sz_exponent_known,
            decode_fields-Reads block_length version f message v r,
          )
          refl

    -- A message laid out as the schema says, of this or a later version with more fields in the block
    -- or behind it, decodes to its fields: the integers as they are, the prices and sizes as the
    -- mantissa times the power of ten. The conditions are that the integers fit their types, that the
    -- exponents are from -18 to 18 and that the block is no longer than the message.
    pub decode_bbo_tbt-encode :
        (block_length version : ℕ) (f : Fields) (rest : Text)
        → FieldsInRange f
        → 74 ≤ block_length
        → block_length < 65536
        → version < 65536
        → block_length ≤ 74 + length rest
        → decode_bbo_tbt d of_int (encode_bbo_tbt block_length version f rest)
          ≡ ok (some (decoded f))
    decode_bbo_tbt-encode block_length version f rest v k b w l =
        decode-Reads block_length version f (encode_bbo_tbt block_length version f rest) v k
          (encode_bbo_tbt-Reads block_length version f rest v b w l)
