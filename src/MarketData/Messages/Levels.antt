-- ===== src/MarketData/Messages/Levels.antt =====
-- The levels of a message, set one after the other: on the book, and on the sorted list of one side.
use cpp_trading_engine.Base.{
  ◌≡◌, refl, ap, ◌∙◌, inl, inr, Bool, false, Option, none, some, List, take, Text, text_eq,
  text_eq_refl, Error, Result, Result-cases, ok, err, ◌>>=◌, malformed,
}
use cpp_trading_engine.Base.Double.{Double, zero_of, greater}
use cpp_trading_engine.Base.Effects.{Effect, resume, store_result}
use cpp_trading_engine.Constants.{bids_key, asks_key}
use cpp_trading_engine.Json.Fields.{find_element}
use cpp_trading_engine.Json.Loops.{for_each_element}
use cpp_trading_engine.Json.Simulate.{Joint, for_each_element-Joint}
use cpp_trading_engine.Orders.Events.{parse_double}
use cpp_trading_engine.MarketData.PriceLevels.{Level, capacity, view}
use cpp_trading_engine.MarketData.PriceLevels.Spec.{upsert}
use cpp_trading_engine.MarketData.OrderBook.{OrderBook, IsSound}
use cpp_trading_engine.MarketData.OrderBook.Laws.{set_bid-upsert, set_ask-upsert}
use cpp_trading_engine.MarketData.Messages.{
  strip_quotes, set_level_of, apply_texts, apply_level, apply_levels,
}

module _ (d : Double) where
  open d use {Val, lt, eq}

  -- The levels of one side, best first, under the levels of an array: each is put in its place, the
  -- best `capacity` are kept, and one that lacks a part or is no number ends the array.
  module _ (before : Val → Val → Bool) where
    abbrev put_level : Option Text → Option Text → Effect (List (Level Val)) (Unit {0})
    put_level (some price_text) (some size_text) levels =
        store_result
          ((parse_double d (strip_quotes price_text)) >>= λ price.
            (parse_double d (strip_quotes size_text)) >>= λ size.
            ok (take capacity (upsert before eq (zero_of d) price size levels)))
          levels
    put_level (some price_text) none levels = (levels, err malformed)
    put_level none size_text levels = (levels, err malformed)

    abbrev put_element : Text → Effect (List (Level Val)) (Unit {0})
    put_element level = put_level (find_element level 0) (find_element level 1)

    unfoldable pub put_levels : Option Text → Effect (List (Level Val)) (Unit {0})
    unfolding for_each_element find_element
    put_levels none levels = (levels, ok tt)
    put_levels (some array) levels = for_each_element put_element array levels

  -- A sound book with the bids given, and otherwise as `start`; then the same for the asks.
  abbrev pub BidsAre : OrderBook Val → OrderBook Val → List (Level Val) → Type 0
  BidsAre start book levels =
      IsSound d book
      × (view book.bids ≡ levels)
      × (book.asks ≡ start.asks)
      × (book.last_seq_id ≡ start.last_seq_id)
      × (book.has_snapshot ≡ start.has_snapshot)

  abbrev pub AsksAre : OrderBook Val → OrderBook Val → List (Level Val) → Type 0
  AsksAre start book levels =
      IsSound d book
      × (view book.asks ≡ levels)
      × (book.bids ≡ start.bids)
      × (book.last_seq_id ≡ start.last_seq_id)
      × (book.has_snapshot ≡ start.has_snapshot)

  -- Both throw the same, and the relation holds of what they leave.
  abbrev pub Failed :
      (OrderBook Val → List (Level Val) → Type 0)
      → OrderBook Val
      → Error
      → List (Level Val) × Result (Unit {0})
      → Type 0
  Failed R book e m = (m.1 ≡ err e) × R book m.0

  resume-Failed :
      (R : OrderBook Val → List (Level Val) → Type 0) (book : OrderBook Val) (e : Error)
      (m : List (Level Val) × Result (Unit {0}))
      (f : Unit {0} → Effect (List (Level Val)) (Unit {0}))
      → Failed R book e m
      → Failed R book e (resume f m)
  resume-Failed R book e (levels, ok done) f (h, k) = cc
  resume-Failed R book e (levels, err x) f h = h

  module _ (start : OrderBook Val) where
    abbrev ForBids :
        OrderBook Val × Result (Unit {0}) → List (Level Val) × Result (Unit {0}) → Type 0
    ForBids = Joint (BidsAre start) (Failed (BidsAre start))

    abbrev ForAsks :
        OrderBook Val × Result (Unit {0}) → List (Level Val) × Result (Unit {0}) → Type 0
    ForAsks = Joint (AsksAre start) (Failed (AsksAre start))

    bid_texts :
        (price_text size_text : Option Text) (book : OrderBook Val) (levels : List (Level Val))
        → BidsAre start book levels
        → ForBids
            (apply_texts d bids_key price_text size_text book)
            (put_level (greater d) price_text size_text levels)
    unfolding set_level_of
    bid_texts (some p) (some s) book levels (v, h, k, i, j) =
        elim (Result-cases (parse_double d (strip_quotes p))) [
          | inr (e, a) ↦ rw a (refl, (v, h, k, i, j))
          | inl (price, a) ↦ elim (Result-cases (parse_double d (strip_quotes s))) [
            | inr (e, b) ↦ rw (a, b) (refl, (v, h, k, i, j))
            | inl (size, b) ↦
                let (fresh, e, w, g, x, y, z) = set_bid-upsert d book price size v in
                rw (a, b, text_eq_refl bids_key, e)
                  (
                    w,
                    g ∙ ap (λ l. take capacity (upsert (greater d) eq (zero_of d) price size l)) h,
                    x ∙ k,
                    y ∙ i,
                    z ∙ j,
                  )
          ]
        ]
    bid_texts (some p) none book levels h = (refl, h)
    bid_texts none s book levels h = (refl, h)

    asks_differ : text_eq asks_key bids_key ≡ false
    unfolding text_eq
    asks_differ = refl

    ask_texts :
        (price_text size_text : Option Text) (book : OrderBook Val) (levels : List (Level Val))
        → AsksAre start book levels
        → ForAsks
            (apply_texts d asks_key price_text size_text book)
            (put_level lt price_text size_text levels)
    unfolding set_level_of
    ask_texts (some p) (some s) book levels (v, h, k, i, j) =
        elim (Result-cases (parse_double d (strip_quotes p))) [
          | inr (e, a) ↦ rw a (refl, (v, h, k, i, j))
          | inl (price, a) ↦ elim (Result-cases (parse_double d (strip_quotes s))) [
            | inr (e, b) ↦ rw (a, b) (refl, (v, h, k, i, j))
            | inl (size, b) ↦
                let (fresh, e, w, g, x, y, z) = set_ask-upsert d book price size v in
                rw (a, b, asks_differ, e)
                  (
                    w,
                    g ∙ ap (λ l. take capacity (upsert lt eq (zero_of d) price size l)) h,
                    x ∙ k,
                    y ∙ i,
                    z ∙ j,
                  )
          ]
        ]
    ask_texts (some p) none book levels h = (refl, h)
    ask_texts none s book levels h = (refl, h)

    pub apply_levels-bids :
        (array : Option Text) (book : OrderBook Val) (levels : List (Level Val))
        → BidsAre start book levels
        → ForBids (apply_levels d array bids_key book) (put_levels (greater d) array levels)
    unfolding apply_levels apply_level put_levels
    apply_levels-bids none book levels h = h
    apply_levels-bids (some array) book levels h =
        for_each_element-Joint (BidsAre start) (Failed (BidsAre start)) (λ b l g. (refl, g))
          (resume-Failed (BidsAre start)) (apply_level d bids_key) (put_element (greater d))
          (λ level b l g. bid_texts (find_element level 0) (find_element level 1) b l g) array book
          levels h

    pub apply_levels-asks :
        (array : Option Text) (book : OrderBook Val) (levels : List (Level Val))
        → AsksAre start book levels
        → ForAsks (apply_levels d array asks_key book) (put_levels lt array levels)
    unfolding apply_levels apply_level put_levels
    apply_levels-asks none book levels h = h
    apply_levels-asks (some array) book levels h =
        for_each_element-Joint (AsksAre start) (Failed (AsksAre start)) (λ b l g. (refl, g))
          (resume-Failed (AsksAre start)) (apply_level d asks_key) (put_element lt)
          (λ level b l g. ask_texts (find_element level 0) (find_element level 1) b l g) array book
          levels h
