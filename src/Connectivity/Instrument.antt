-- ===== src/Connectivity/Instrument.antt =====
-- okx/connectivity/instrument.cpp: the queries of an instrument and what is read from their answers. `get`
-- is the call of the HTTP client, from the path to the answer's body.
use cpp_trading_engine.Base.{
  ◌++◌, Text, codes, Result, ok, ◌>>=◌, or_throw, malformed, instrument_not_found,
}
use cpp_trading_engine.Base.Int.{ℤ}
use cpp_trading_engine.Constants.{tick_sz_key, lot_sz_key, min_sz_key, inst_id_code_key}
use cpp_trading_engine.Json.Fields.{find_string, find_number, find_data, parse_ll}

pub record InstrumentSpec : Type 0 where
  pub inst_id : Text
  pub tick_sz : Text
  pub lot_sz : Text
  pub min_sz : Text

module _ (get : Text → Text) where
  -- `FetchInstrumentSpec`
  unfoldable pub fetch_instrument_spec : Text → Result InstrumentSpec
  unfolding find_data find_string
  fetch_instrument_spec inst_id = do
    element ←
        or_throw instrument_not_found
          (find_data (get (codes "/api/v5/public/instruments?instType=SPOT&instId=" ++ inst_id)))
    tick_sz ← or_throw malformed (find_string element tick_sz_key)
    lot_sz ← or_throw malformed (find_string element lot_sz_key)
    min_sz ← or_throw malformed (find_string element min_sz_key)
    ok (record { inst_id = inst_id; tick_sz = tick_sz; lot_sz = lot_sz; min_sz = min_sz })

  -- `FetchInstIdCode`
  unfoldable pub fetch_inst_id_code : Text → Result ℤ
  unfolding find_data find_number parse_ll
  fetch_inst_id_code inst_id = do
    element ←
        or_throw instrument_not_found
          (find_data (get (codes "/api/v5/account/instruments?instType=SPOT&instId=" ++ inst_id)))
    number ← or_throw malformed (find_number element inst_id_code_key)
    parse_ll number
