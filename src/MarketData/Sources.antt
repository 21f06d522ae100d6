-- ===== src/MarketData/Sources.antt =====
-- okx/marketdata/sbe_bbo_source.cpp and okx/marketdata/json_book_source.cpp: what the two sources of market
-- data do with a message of their client. The client's readings of the clock are arguments, and what a
-- source does with its client and its listener is a list, in order.
pub mod Fresh
use cpp_trading_engine.Base.{
  ℕ, Bool, true, false, not, Option, none, some, List, [], ◌∷◌, ◌++◌, if◌then◌else◌, Text, codes,
  Result, ok, err, ◌>>=◌,
}
use cpp_trading_engine.Base.Double.{Double}
use cpp_trading_engine.Base.Effects.{Effect, store_result}
use cpp_trading_engine.Base.Int.{ℤ, pos, negsuc, ltb_ℤ}
use cpp_trading_engine.MarketData.Messages.{
  BookMessageResult, ignored, applied, gap_detected, apply_book_message,
}
use cpp_trading_engine.MarketData.OrderBook.{
  OrderBook, empty_book, begin_snapshot, set_bid, set_ask, set_seq_id,
}
use cpp_trading_engine.MarketData.Sbe.{BboTbt, decode_bbo_tbt}
use cpp_trading_engine.Orders.Requests.{decimal_of}
use cpp_trading_engine.Perf.Trace.{TickToTradeTrace, new_trace}

pub data SourceAction : Type 0 where
  send_text : Text → SourceAction
  book_updated : TickToTradeTrace → SourceAction

-- `subscribe_msg_` of the binary source
abbrev pub sbe_subscribe_msg : ℤ → Text
sbe_subscribe_msg inst_id_code =
    codes "{\"op\":\"subscribe\",\"args\":[{\"channel\":\"bbo-tbt\",\"instIdCode\":"
    ++ decimal_of inst_id_code
    ++ codes "}]}"

-- The messages of the source of books; the first also subscribes to the trades.
abbrev pub json_subscribe_msg : Text → Text
json_subscribe_msg inst_id =
    codes "{\"op\":\"subscribe\",\"args\":[{\"channel\":\"books\",\"instId\":\""
    ++ inst_id
    ++ codes "\"},{\"channel\":\"trades\",\"instId\":\""
    ++ inst_id
    ++ codes "\"}]}"

abbrev pub unsubscribe_msg : Text → Text
unsubscribe_msg inst_id =
    codes "{\"op\":\"unsubscribe\",\"args\":[{\"channel\":\"books\",\"instId\":\""
    ++ inst_id
    ++ codes "\"}]}"

abbrev pub resubscribe_msg : Text → Text
resubscribe_msg inst_id =
    codes "{\"op\":\"subscribe\",\"args\":[{\"channel\":\"books\",\"instId\":\""
    ++ inst_id
    ++ codes "\"}]}"

module _ (d : Double) where
  open d use {Val}

  pub record SbeBboSource : Type 0 where
    pub book : OrderBook Val
    pub last_seq_id : ℤ

  unfoldable pub new_sbe_source : SbeBboSource
  unfolding empty_book
  new_sbe_source = record { book = empty_book d; last_seq_id = negsuc 0 }

  -- The statements on the book
  abbrev pub book_of : BboTbt d → OrderBook Val → Result (OrderBook Val)
  book_of bbo book = do
    bid ← set_bid d (begin_snapshot d book) bbo.bid_px bbo.bid_sz
    ask ← set_ask d bid bbo.ask_px bbo.ask_sz
    ok (set_seq_id d ask bbo.seq_id)

  abbrev pub published :
      TickToTradeTrace
      → ℤ
      → SbeBboSource
      → Result (OrderBook Val)
      → SbeBboSource × Result (List SourceAction)
  published trace seq_id s (ok book) =
      (record { book = book; last_seq_id = seq_id }, ok (book_updated trace ∷ []))
  published trace seq_id s (err e) = (record s { last_seq_id = seq_id }, err e)

  abbrev pub take_bbo :
      TickToTradeTrace
      → SbeBboSource
      → Result (Option (BboTbt d))
      → SbeBboSource × Result (List SourceAction)
  take_bbo trace s (err e) = (s, err e)
  take_bbo trace s (ok none) = (s, ok [])
  take_bbo trace s (ok (some bbo)) =
      if not (ltb_ℤ s.last_seq_id bbo.seq_id)
      then (s, ok [])
      else published trace bbo.seq_id s (book_of bbo s.book)

  module _ (of_int : ℤ → Val) where
    -- `SbeBboSource::OnMessage`
    unfoldable pub on_sbe_message : ℕ → ℕ → ℕ → Text → Effect SbeBboSource (List SourceAction)
    unfolding decode_bbo_tbt begin_snapshot set_bid set_ask set_seq_id
    on_sbe_message arrival decoded consistent message s =
        take_bbo (new_trace arrival decoded consistent) s (decode_bbo_tbt d of_int message)

  abbrev json_actions : Text → TickToTradeTrace → BookMessageResult → List SourceAction
  json_actions inst_id trace applied = book_updated trace ∷ []
  json_actions inst_id trace gap_detected =
      send_text (unsubscribe_msg inst_id) ∷ send_text (resubscribe_msg inst_id) ∷ []
  json_actions inst_id trace ignored = []

  abbrev acted :
      Text
      → TickToTradeTrace
      → OrderBook Val × Result BookMessageResult
      → OrderBook Val × Result (List SourceAction)
  acted inst_id trace (book, ok result) = (book, ok (json_actions inst_id trace result))
  acted inst_id trace (book, err e) = (book, err e)

  -- `JsonBookSource::OnMessage`
  unfoldable pub on_json_message :
      Text → ℕ → ℕ → ℕ → Text → Effect (OrderBook Val) (List SourceAction)
  unfolding apply_book_message
  on_json_message inst_id arrival decoded consistent message book =
      acted inst_id (new_trace arrival decoded consistent) (apply_book_message d message book)
