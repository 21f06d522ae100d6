-- ===== src/MarketData/FeedTests.antt =====
-- A message of the binary feed, written down by its layout, and what the source makes of it.
use cpp_trading_engine.Base.{◌≡◌, refl, [], ◌∷◌, Text, ok, some, arith}
use cpp_trading_engine.Base.Double.{integers}
use cpp_trading_engine.Base.Int.{ℤ}
use cpp_trading_engine.MarketData.OrderBook.{empty_book}
use cpp_trading_engine.MarketData.OrderBook.Laws.{empty_book-IsSound}
use cpp_trading_engine.MarketData.Sbe.{decode_bbo_tbt}
use cpp_trading_engine.MarketData.Sbe.Layout.{Fields, FieldsInRange, encode_bbo_tbt}
use cpp_trading_engine.MarketData.Sbe.RoundTrip.{decoded, decode_bbo_tbt-encode}
use cpp_trading_engine.MarketData.Sbe.Safe.{IsOk, decode_bbo_tbt-IsOk}
use cpp_trading_engine.MarketData.Sources.{new_sbe_source, on_sbe_message}
use cpp_trading_engine.MarketData.Sources.Fresh.{Taken, on_sbe_message-Taken}
use cpp_trading_engine.Perf.Trace.{new_trace}

abbrev fields : Fields
fields = record {
  inst_id_code = ℤ.pos 3;
  ts_us = ℤ.pos 1000;
  out_time = ℤ.pos 1001;
  seq_id = ℤ.pos 9;
  ask_px_mantissa = ℤ.pos 200100;
  ask_sz_mantissa = ℤ.pos 5;
  bid_px_mantissa = ℤ.pos 199900;
  bid_sz_mantissa = ℤ.pos 7;
  ask_ord_count = ℤ.pos 2;
  bid_ord_count = ℤ.pos 1;
  px_exponent = ℤ.negsuc 1;
  sz_exponent = ℤ.pos 0;
}

fields-InRange : FieldsInRange fields
fields-InRange = record {
  inst_id_code_fits = omega arith;
  ts_us_fits = omega arith;
  out_time_fits = omega arith;
  seq_id_fits = omega arith;
  ask_px_fits = omega arith;
  ask_sz_fits = omega arith;
  bid_px_fits = omega arith;
  bid_sz_fits = omega arith;
  ask_ord_count_fits = omega arith;
  bid_ord_count_fits = omega arith;
  px_exponent_known = refl;
  sz_exponent_known = refl;
}

abbrev scale : ℤ → ℤ
scale z = z

-- A message of version 3, with one byte behind the fields known
abbrev bbo_message : Text
bbo_message = encode_bbo_tbt 75 3 fields (9 ∷ [])

decode_bbo_tbt-encode_example :
    decode_bbo_tbt integers scale bbo_message ≡ ok (some (decoded integers scale fields))
decode_bbo_tbt-encode_example =
    decode_bbo_tbt-encode integers scale 75 3 fields (9 ∷ []) fields-InRange (omega arith)
      (omega arith) (omega arith) (omega arith)

decode_bbo_tbt-IsOk_example : IsOk (decode_bbo_tbt integers scale bbo_message)
decode_bbo_tbt-IsOk_example = decode_bbo_tbt-IsOk integers scale bbo_message

on_sbe_message-Taken_example :
    Taken integers
      (decode_bbo_tbt integers scale bbo_message)
      (new_trace 1 2 3)
      (new_sbe_source integers)
      (on_sbe_message integers scale 1 2 3 bbo_message (new_sbe_source integers))
unfolding new_sbe_source empty_book
on_sbe_message-Taken_example =
    on_sbe_message-Taken integers scale 1 2 3 bbo_message (new_sbe_source integers)
      (empty_book-IsSound integers)
