-- ===== src/MarketData/Sources/Fresh.antt =====
-- okx/marketdata/sbe_bbo_source.cpp: the book and the sequence numbers.
use cpp_trading_engine.Base.{
  ℕ, ◌≡◌, refl, ap, ◌∙◌, true, false, Bool-cases, Option, none, some, List, [], ◌∷◌, take, Text,
  Result, ok, inl, inr,
}
use cpp_trading_engine.Base.Double.{Double, zero_of, greater}
use cpp_trading_engine.Base.Int.{ℤ, ltb_ℤ}
use cpp_trading_engine.MarketData.OrderBook.{OrderBook, begin_snapshot, set_seq_id, IsSound}
use cpp_trading_engine.MarketData.OrderBook.Laws.{
  begin_snapshot-IsSound, set_bid-upsert, set_ask-upsert,
}
use cpp_trading_engine.MarketData.PriceLevels.{Level, view, capacity}
use cpp_trading_engine.MarketData.PriceLevels.Spec.{upsert}
use cpp_trading_engine.MarketData.Sbe.{decode_bbo_tbt, BboTbt}
use cpp_trading_engine.MarketData.Sbe.Safe.{decode_bbo_tbt-IsOk}
use cpp_trading_engine.MarketData.Sources.{
  SourceAction, book_updated, SbeBboSource, book_of, published, take_bbo, on_sbe_message,
}
use cpp_trading_engine.Perf.Trace.{TickToTradeTrace, new_trace}

module _ (d : Double) where
  open d use {Val}

  abbrev pub level_of : Val → Val → List (Level Val)
  level_of price size = record { price = price; size = size } ∷ []

  -- What becomes of a message: it is passed over, where it is no best bid and ask or has a sequence
  -- number that is not higher than the last; or its prices are the book, under a higher number.
  pub data Taken (found : Result (Option (BboTbt d))) (trace : TickToTradeTrace)
      (s : SbeBboSource d) : SbeBboSource d × Result (List SourceAction) → Type 0 where
    no_bbo : found ≡ ok none → Taken found trace s (s, ok [])
    stale :
        (bbo : BboTbt d)
        → found ≡ ok (some bbo)
        → ltb_ℤ s.last_seq_id bbo.seq_id ≡ false
        → Taken found trace s (s, ok [])
    fresh :
        (bbo : BboTbt d) (book : OrderBook Val)
        → found ≡ ok (some bbo)
        → ltb_ℤ s.last_seq_id bbo.seq_id ≡ true
        → IsSound d book
        → view book.bids ≡ level_of bbo.bid_px bbo.bid_sz
        → view book.asks ≡ level_of bbo.ask_px bbo.ask_sz
        → book.last_seq_id ≡ bbo.seq_id
        → Taken found trace s
            (record { book = book; last_seq_id = bbo.seq_id }, ok (book_updated trace ∷ []))

  book_of-fresh :
      (trace : TickToTradeTrace) (bbo : BboTbt d) (s : SbeBboSource d)
      → IsSound d s.book
      → ltb_ℤ s.last_seq_id bbo.seq_id ≡ true
      → Taken (ok (some bbo)) trace s (published d trace bbo.seq_id s (book_of d bbo s.book))
  unfolding set_seq_id upsert
  book_of-fresh trace bbo s v newer =
      let (clean, no_bids, no_asks, taken, kept) = begin_snapshot-IsSound d s.book v in
      let cleared = begin_snapshot d s.book in
      let (bid, bid_set, bid_sound, bids, same_asks, bid_seq, bid_snapshot) =
        set_bid-upsert d cleared bbo.bid_px bbo.bid_sz clean in
      let (ask, ask_set, ask_sound, asks, same_bids, ask_seq, ask_snapshot) =
        set_ask-upsert d bid bbo.ask_px bbo.ask_sz bid_sound in
      rw (bid_set, ask_set)
        (fresh bbo (record ask { last_seq_id = bbo.seq_id }) refl newer
          (record { bids_valid = ask_sound.bids_valid; asks_valid = ask_sound.asks_valid })
          (ap view same_bids
            ∙ bids
            ∙ ap (λ l. take capacity (upsert (greater d) d.eq (zero_of d) bbo.bid_px bbo.bid_sz l))
                no_bids)
          (asks
            ∙ ap (λ l. take capacity (upsert d.lt d.eq (zero_of d) bbo.ask_px bbo.ask_sz l))
                (ap view same_asks ∙ no_asks))
          refl)

  take_bbo-Taken :
      (trace : TickToTradeTrace) (s : SbeBboSource d) (found : Option (BboTbt d))
      → IsSound d s.book
      → Taken (ok found) trace s (take_bbo d trace s (ok found))
  take_bbo-Taken trace s none v = no_bbo refl
  take_bbo-Taken trace s (some bbo) v = elim (Bool-cases (ltb_ℤ s.last_seq_id bbo.seq_id)) [
    | inl e ↦ rw e (book_of-fresh trace bbo s v e)
    | inr e ↦ rw e (stale bbo refl e)
  ]

  -- The source never throws. A message that the decoder takes for no best bid and ask, or whose
  -- sequence number is not higher than the last, changes nothing; any other makes its two prices the
  -- whole of a sound book under its number, which is then published once.
  pub on_sbe_message-Taken :
      (of_int : ℤ → Val) (arrival decoded consistent : ℕ) (message : Text) (s : SbeBboSource d)
      → IsSound d s.book
      → Taken
          (decode_bbo_tbt d of_int message)
          (new_trace arrival decoded consistent)
          s
          (on_sbe_message d of_int arrival decoded consistent message s)
  unfolding on_sbe_message
  on_sbe_message-Taken of_int arrival decoded consistent message s v =
      let done = decode_bbo_tbt-IsOk d of_int message in
      rw done.returned (take_bbo-Taken (new_trace arrival decoded consistent) s done.value v)
