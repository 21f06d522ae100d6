-- ===== src/MarketData/Messages/Laws.antt =====
-- What a message of the "books" channel does to a sound book, on every branch.
use cpp_trading_engine.Base.{
  List, [], ◌≡◌, ◌≢◌, ◌⊎◌, true, false, ◌||◌, Option, none, some, if◌then◌else◌, Text, Error,
  Result, ok, err, malformed,
}
use cpp_trading_engine.Base.Int.{ℤ, eqb_ℤ}
use cpp_trading_engine.Base.Double.{Double, greater}
use cpp_trading_engine.Constants.{is_text, channel_key, books_channel}
use cpp_trading_engine.Json.Fields.{find_string, find_data, parse_ll}
use cpp_trading_engine.Json.Loops.{for_each_field}
use cpp_trading_engine.MarketData.PriceLevels.{Level, view}
use cpp_trading_engine.MarketData.OrderBook.{OrderBook, IsSound}
use cpp_trading_engine.MarketData.Messages.{
  BookMessageResult, ignored, applied, gap_detected, BookFields, no_fields, collect_field,
  snapshot_seq_id,
}
use cpp_trading_engine.MarketData.Messages.Levels.{put_levels}

module _ (d : Double) where
  open d use {Val, lt}

  -- A message of the channel "books" whose data has the fields.
  pub record Reads (message : Text) (fields : BookFields) : Type 0 where
    pub on_books : is_text (find_string message channel_key) books_channel ≡ true
    pub data_text : Text
    pub found : find_data message ≡ some data_text
    pub collected : for_each_field collect_field data_text no_fields ≡ (fields, ok tt)

  abbrev Carries : Option Text → ℤ → Type 0
  Carries field value = (text : Text) × (field ≡ some text) × (parse_ll text ≡ ok value)

  abbrev Chains : ℤ → OrderBook Val → Type 0
  Chains prev_seq_id book =
      (prev_seq_id ≡ snapshot_seq_id)
      ⊎ (book.has_snapshot ≡ false)
      ⊎ (prev_seq_id ≡ book.last_seq_id)

  -- A push that the book can take: a snapshot, one that follows the book's number, or any push where
  -- the book has no snapshot.
  pub record Push (message : Text) (book : OrderBook Val) : Type 0 where
    pub fields : BookFields
    pub reads : Reads message fields
    pub prev_seq_id : ℤ
    pub carries : Carries fields.prev_seq_id_text prev_seq_id
    pub chains : Chains prev_seq_id book
    pub seq_id_text : Text
    pub given : fields.seq_id_text ≡ some seq_id_text

  -- A side before a push's levels: a snapshot begins with an empty one.
  abbrev pub begun : ℤ → List (Level Val) → List (Level Val)
  begun prev_seq_id levels = if eqb_ℤ prev_seq_id snapshot_seq_id then [] else levels

  module _ {message : Text} {book : OrderBook Val} (push : Push message book) where
    abbrev pub new_bids : List (Level Val) × Result (Unit {0})
    new_bids = put_levels d (greater d) push.fields.bids (begun push.prev_seq_id (view book.bids))

    abbrev pub new_asks : List (Level Val) × Result (Unit {0})
    new_asks = put_levels d lt push.fields.asks (begun push.prev_seq_id (view book.asks))

    -- A sound book with a sequence number, and a snapshot where the push is one or there was one.
    pub record Left (seq_id : ℤ) (fresh : OrderBook Val) : Type 0 where
      pub sound : IsSound d fresh
      pub number : fresh.last_seq_id ≡ seq_id
      pub snapped :
          fresh.has_snapshot ≡ (eqb_ℤ push.prev_seq_id snapshot_seq_id || book.has_snapshot)

  -- What a message makes of a book, and its result: what there is to read decides between them.
  pub data Pushed (message : Text) (book : OrderBook Val)
      : OrderBook Val × Result BookMessageResult → Type 0 where
    other_channel :
        is_text (find_string message channel_key) books_channel ≡ false
        → Pushed message book (book, ok ignored)
    no_data :
        is_text (find_string message channel_key) books_channel ≡ true
        → find_data message ≡ none
        → Pushed message book (book, ok ignored)
    broken_fields :
        (data_text : Text) (e : Error)
        → find_data message ≡ some data_text
        → (for_each_field collect_field data_text no_fields).1 ≡ err e
        → Pushed message book (book, err e)
    missing :
        (fields : BookFields)
        → Reads message fields
        → (fields.seq_id_text ≡ none) ⊎ (fields.prev_seq_id_text ≡ none)
        → Pushed message book (book, err malformed)
    bad_number :
        (fields : BookFields) (text : Text) (e : Error)
        → Reads message fields
        → fields.prev_seq_id_text ≡ some text
        → parse_ll text ≡ err e
        → Pushed message book (book, err e)
    gap :
        (fields : BookFields) (prev_seq_id : ℤ)
        → Reads message fields
        → Carries fields.prev_seq_id_text prev_seq_id
        → book.has_snapshot ≡ true
        → prev_seq_id ≢ snapshot_seq_id
        → prev_seq_id ≢ book.last_seq_id
        → Pushed message book (book, ok gap_detected)
    taken :
        (push : Push message book) (seq_id : ℤ) (fresh : OrderBook Val)
        → parse_ll push.seq_id_text ≡ ok seq_id
        → new_bids push ≡ (view fresh.bids, ok tt)
        → new_asks push ≡ (view fresh.asks, ok tt)
        → Left push seq_id fresh
        → Pushed message book (fresh, ok applied)
    broken_bids :
        (push : Push message book) (e : Error) (fresh : OrderBook Val)
        → new_bids push ≡ (view fresh.bids, err e)
        → view fresh.asks ≡ begun push.prev_seq_id (view book.asks)
        → Left push book.last_seq_id fresh
        → Pushed message book (fresh, err e)
    broken_asks :
        (push : Push message book) (e : Error) (fresh : OrderBook Val)
        → new_bids push ≡ (view fresh.bids, ok tt)
        → new_asks push ≡ (view fresh.asks, err e)
        → Left push book.last_seq_id fresh
        → Pushed message book (fresh, err e)
    broken_number :
        (push : Push message book) (e : Error) (fresh : OrderBook Val)
        → new_bids push ≡ (view fresh.bids, ok tt)
        → new_asks push ≡ (view fresh.asks, ok tt)
        → parse_ll push.seq_id_text ≡ err e
        → Left push book.last_seq_id fresh
        → Pushed message book (fresh, err e)
