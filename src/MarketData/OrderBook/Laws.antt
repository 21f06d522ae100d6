-- ===== src/MarketData/OrderBook/Laws.antt =====
-- okx/marketdata/order_book: the methods of the book, seen as two sorted lists.
use cpp_trading_engine.Base.{
  ℕ, zero, suc, ◌≡◌, refl, sym, ap, ◌∙◌, Bool, true, false, Option, none, some, List, [], ◌∷◌,
  Bool-cases, inl, inr, get_elem?, take, ok, arith, length,
}
use cpp_trading_engine.Base.Double.{Double, zero_of, greater, greater-IsStrictOrder}
use cpp_trading_engine.Base.Sorted.{IsStrictOrder}
use cpp_trading_engine.MarketData.PriceLevels.{
  Level, PriceLevels, capacity, view, level_at, set_level, best, IsValid,
}
use cpp_trading_engine.MarketData.PriceLevels.Spec.{upsert}
use cpp_trading_engine.MarketData.PriceLevels.Refine.{length-view}
use cpp_trading_engine.MarketData.PriceLevels.Update.{set_level-upsert}
use cpp_trading_engine.MarketData.OrderBook.{
  OrderBook, empty_book, begin_snapshot, set_bid, set_ask, IsSound,
}

abbrev pub head_price : {V : Type 0} → List (Level V) → Option V
head_price [] = none
head_price (x ∷ xs) = some x.price

-- `Best` of a side whose levels in use are a list is the price at the list's front.
best_of_levels :
    {V : Type 0} (levels : List (Level V)) (count : ℕ)
    → count ≡ length (take count levels)
    → best (record { levels = levels; count = count }) ≡ ok (head_price (take count levels))
unfolding best
best_of_levels levels zero h = refl
best_of_levels [] (suc n) h = absurd (omega arith)
best_of_levels (x ∷ xs) (suc n) h = ground arith

module _ {V : Type 0} {before same : V → V → Bool} (zero_size : V)
    (o : IsStrictOrder before same) where
  pub best-head_price : (p : PriceLevels V) → IsValid before p → best p ≡ ok (head_price (view p))
  best-head_price p v = best_of_levels p.levels p.count (sym (length-view zero_size o p v))

  -- A price better than every level in use, set with size zero.
  upsert_front :
      (price size : V) (xs : List (Level V))
      → ((x : Level V) → get_elem? xs 0 ≡ some x → before price x.price ≡ true)
      → upsert before same zero_size price size xs ≡ record { price = price; size = size } ∷ xs
  unfolding upsert
  upsert_front price size [] h = refl
  upsert_front price size (x ∷ xs) h =
      let b = h x refl in rw (o.asym price x.price b, not_same price x.price b) refl
    where
      not_same : (a b : V) → before a b ≡ true → same b a ≡ false
      not_same a b h = elim (Bool-cases (same b a)) [
        | inr e ↦ e
        | inl e ↦ let k = o.same→eq b a e in cc (o.asym a b h)
      ]

  -- The size of the level at the front, where there is one.
  abbrev pub FrontIs : V → V → PriceLevels V → Type 0
  FrontIs price size q =
      (best q ≡ ok (some price)) × (level_at q 0 ≡ ok (record { price = price; size = size }))

  front_of_view :
      (levels : List (Level V)) (count : ℕ) (x : Level V) (xs : List (Level V))
      → take count levels ≡ x ∷ xs
      → level_at (record { levels = levels; count = count }) 0 ≡ ok x
  front_of_view levels zero x xs e = cc
  front_of_view [] (suc n) x xs e = cc
  front_of_view (y ∷ ys) (suc n) x xs e = cc

  -- Setting a price better than all levels in use makes it the best price, whatever the size: a
  -- removal, which is a size of zero, of a price that is not there puts a level of size zero at the
  -- front.
  pub set_better_price :
      (p : PriceLevels V) (price size : V)
      → IsValid before p
      → ((x : Level V) → get_elem? (view p) 0 ≡ some x → before price x.price ≡ true)
      → (q : PriceLevels V) × (set_level before same zero_size p price size ≡ ok q)
        × FrontIs price size q
  set_better_price p price size v h =
      let (q, e, w, valid) = set_level-upsert zero_size o p price size v in
      let front : view q ≡ record { price = price; size = size } ∷ take 31 (view p) =
        w ∙ ap (take capacity) (upsert_front price size (view p) h) in
      (
        q,
        e,
        (
          best-head_price q valid ∙ ap (λ l. ok (head_price l)) front,
          front_of_view q.levels q.count (record { price = price; size = size }) (take 31 (view p))
              front,
        ),
      )

module _ (d : Double) where
  open d use {Val, lt, eq, order}

  pub empty_book-IsSound : IsSound d (empty_book d)
  unfolding empty_book
  empty_book-IsSound = record {
    bids_valid = record { storage = refl; within = omega arith; sorted = tt };
    asks_valid = record { storage = refl; within = omega arith; sorted = tt };
  }

  -- A snapshot empties both sides and is remembered; the sequence number stays until it is set.
  pub begin_snapshot-IsSound :
      (book : OrderBook Val)
      → IsSound d book
      → let fresh = begin_snapshot d book in
        IsSound d fresh
        × (view fresh.bids ≡ [])
        × (view fresh.asks ≡ [])
        × (fresh.has_snapshot ≡ true)
        × (fresh.last_seq_id ≡ book.last_seq_id)
  unfolding begin_snapshot
  begin_snapshot-IsSound book v = (
    record {
      bids_valid = record { storage = v.bids_valid.storage; within = omega arith; sorted = tt };
      asks_valid = record { storage = v.asks_valid.storage; within = omega arith; sorted = tt };
    },
    refl,
    refl,
    refl,
    refl,
  )

  -- A bid set in a sound book succeeds, whatever its price and size: the bids become the best
  -- `capacity` levels of the reference update in descending order of price, the book stays sound, and
  -- the asks, the sequence number and the snapshot flag stay.
  pub set_bid-upsert :
      (book : OrderBook Val) (price size : Val)
      → IsSound d book
      → (fresh : OrderBook Val) × (set_bid d book price size ≡ ok fresh)
        × IsSound d fresh
        × (view fresh.bids
            ≡ take capacity (upsert (greater d) eq (zero_of d) price size (view book.bids)))
        × (fresh.asks ≡ book.asks)
        × (fresh.last_seq_id ≡ book.last_seq_id)
        × (fresh.has_snapshot ≡ book.has_snapshot)
  unfolding set_bid
  set_bid-upsert book price size v =
      let (q, e, w, valid) =
        set_level-upsert (zero_of d) (greater-IsStrictOrder d) book.bids price size v.bids_valid in
      (
        record book { bids = q },
        rw e refl,
        record { bids_valid = valid; asks_valid = v.asks_valid },
        w,
        refl,
        refl,
        refl,
      )

  -- An ask set in a sound book succeeds, whatever its price and size: the asks become the best
  -- `capacity` levels of the reference update in ascending order of price, the book stays sound, and
  -- the bids, the sequence number and the snapshot flag stay.
  pub set_ask-upsert :
      (book : OrderBook Val) (price size : Val)
      → IsSound d book
      → (fresh : OrderBook Val) × (set_ask d book price size ≡ ok fresh)
        × IsSound d fresh
        × (view fresh.asks ≡ take capacity (upsert lt eq (zero_of d) price size (view book.asks)))
        × (fresh.bids ≡ book.bids)
        × (fresh.last_seq_id ≡ book.last_seq_id)
        × (fresh.has_snapshot ≡ book.has_snapshot)
  unfolding set_ask
  set_ask-upsert book price size v =
      let (q, e, w, valid) = set_level-upsert (zero_of d) order book.asks price size v.asks_valid in
      (
        record book { asks = q },
        rw e refl,
        record { bids_valid = v.bids_valid; asks_valid = valid },
        w,
        refl,
        refl,
        refl,
      )
