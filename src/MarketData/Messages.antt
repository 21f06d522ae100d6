-- ===== src/MarketData/Messages.antt =====
-- okx/marketdata/market_data.cpp: a message of the "books" channel applied to the order book. A
-- message that throws half-way leaves the book as it then is.
pub mod Levels
pub mod Laws
use cpp_trading_engine.Base.{
  ℕ, ◌-◌, Bool, true, false, ◌&&◌, not, Option, none, some, if◌then◌else◌, leb, length, Text,
  text_eq, Result, ok, err, ◌>>=◌, or_throw, malformed,
}
use cpp_trading_engine.Base.Int.{ℤ, negsuc, eqb_ℤ}
use cpp_trading_engine.Base.Double.{Double}
use cpp_trading_engine.Base.Effects.{Effect, store_result, resume}
use cpp_trading_engine.Constants.{
  is_text, channel_key, seq_id_key, prev_seq_id_key, asks_key, bids_key, books_channel,
}
use cpp_trading_engine.Json.Scan.{is_at, substr}
use cpp_trading_engine.Json.Fields.{find_string, find_element, find_data, parse_ll}
use cpp_trading_engine.Json.Loops.{for_each_element, for_each_field}
use cpp_trading_engine.Orders.Events.{parse_double}
use cpp_trading_engine.MarketData.OrderBook.{
  OrderBook, begin_snapshot, set_bid, set_ask, set_seq_id,
}

pub data BookMessageResult : Type 0 where
  ignored applied gap_detected : BookMessageResult

unfoldable pub strip_quotes : Text → Text
strip_quotes text =
    if leb 2 (length text) && is_at text 0 b'"' && is_at text (length text - 1) b'"'
    then substr text 1 (length text - 1)
    else text

-- What the loop over the message's fields collects; of a field given twice the last counts.
pub record BookFields : Type 0 where
  pub seq_id_text : Option Text
  pub prev_seq_id_text : Option Text
  pub bids : Option Text
  pub asks : Option Text

abbrev pub no_fields : BookFields
no_fields = record { seq_id_text = none; prev_seq_id_text = none; bids = none; asks = none }

unfoldable pub collect_field : Text → Text → Effect BookFields (Unit {0})
collect_field key value fields = (
  if text_eq key seq_id_key
      then record fields { seq_id_text = some value }
      else (if text_eq key prev_seq_id_key
          then record fields { prev_seq_id_text = some value }
          else (if text_eq key bids_key
              then record fields { bids = some value }
              else (if text_eq key asks_key then record fields { asks = some value } else fields))),
  ok tt,
)

abbrev pub snapshot_seq_id : ℤ
snapshot_seq_id = negsuc 0

module _ (d : Double) where
  open d use {Val}

  -- The level's price and size, and the side that takes them.
  unfoldable pub set_level_of : Text → Text → Text → OrderBook Val → Result (OrderBook Val)
  unfolding set_bid set_ask strip_quotes
  set_level_of key price_text size_text book = do
    price ← parse_double d (strip_quotes price_text)
    size ← parse_double d (strip_quotes size_text)
    if text_eq key bids_key then set_bid d book price size else set_ask d book price size

  abbrev pub apply_texts : Text → Option Text → Option Text → Effect (OrderBook Val) (Unit {0})
  apply_texts key (some price_text) (some size_text) book =
      store_result (set_level_of key price_text size_text book) book
  apply_texts key (some price_text) none book = (book, err malformed)
  apply_texts key none size_text book = (book, err malformed)

  unfoldable pub apply_level : Text → Text → Effect (OrderBook Val) (Unit {0})
  unfolding set_level_of find_element
  apply_level key level book = apply_texts key (find_element level 0) (find_element level 1) book

  -- `ApplyLevels` on a field that may be missing
  unfoldable pub apply_levels : Option Text → Text → Effect (OrderBook Val) (Unit {0})
  unfolding apply_level for_each_element
  apply_levels none key book = (book, ok tt)
  apply_levels (some array) key book = for_each_element (apply_level key) array book

  -- From the parse of the last field on: the sequence number is set last.
  abbrev pub finish : Result ℤ → Effect (OrderBook Val) BookMessageResult
  finish (err e) book = (book, err e)
  finish (ok seq_id) book = (set_seq_id d book seq_id, ok applied)

  abbrev pub apply_sides : Text → BookFields → Effect (OrderBook Val) BookMessageResult
  apply_sides seq_id_text fields book =
      resume
        (λ _ bidded.
          resume (λ _ asked. finish (parse_ll seq_id_text) asked)
            (apply_levels fields.asks asks_key bidded))
        (apply_levels fields.bids bids_key book)

  abbrev pub is_gap : Bool → ℤ → OrderBook Val → Bool
  is_gap is_snapshot prev_seq_id book =
      not is_snapshot && book.has_snapshot && not (eqb_ℤ prev_seq_id book.last_seq_id)

  abbrev pub apply_push : Text → BookFields → Result ℤ → Effect (OrderBook Val) BookMessageResult
  apply_push seq_id_text fields (err e) book = (book, err e)
  apply_push seq_id_text fields (ok prev_seq_id) book =
      let is_snapshot = eqb_ℤ prev_seq_id snapshot_seq_id in
      if is_gap is_snapshot prev_seq_id book
      then (book, ok gap_detected)
      else apply_sides seq_id_text fields (if is_snapshot then begin_snapshot d book else book)

  abbrev pub apply_fields :
      BookFields → Option Text → Option Text → Effect (OrderBook Val) BookMessageResult
  apply_fields fields (some seq_id_text) (some prev_seq_id_text) book =
      apply_push seq_id_text fields (parse_ll prev_seq_id_text) book
  apply_fields fields (some seq_id_text) none book = (book, err malformed)
  apply_fields fields none prev_seq_id_text book = (book, err malformed)

  abbrev pub apply_collected :
      BookFields × Result (Unit {0}) → Effect (OrderBook Val) BookMessageResult
  apply_collected (fields, err e) book = (book, err e)
  apply_collected (fields, ok done) book =
      apply_fields fields fields.seq_id_text fields.prev_seq_id_text book

  abbrev pub apply_data : Option Text → Effect (OrderBook Val) BookMessageResult
  apply_data none book = (book, ok ignored)
  apply_data (some data_text) book =
      apply_collected (for_each_field collect_field data_text no_fields) book

  unfoldable pub apply_book_message : Text → Effect (OrderBook Val) BookMessageResult
  unfolding apply_levels begin_snapshot set_seq_id parse_ll find_string find_data for_each_field
      collect_field
  apply_book_message message book =
      if is_text (find_string message channel_key) books_channel
      then apply_data (find_data message) book
      else (book, ok ignored)
