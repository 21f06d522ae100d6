-- ===== src/MarketData/Tests.antt =====
-- The order book on concrete books of two bids.
use cpp_trading_engine.Base.{
  ℕ, ◌+◌, ◌≡◌, refl, Bool, true, false, Option, none, some, List, [], ◌∷◌, ◌++◌, replicate, take,
  get_elem?, Result, ok, arith,
}
use cpp_trading_engine.Base.Int.{ℤ}
use cpp_trading_engine.Base.Double.{integers, greater, greater-IsStrictOrder}
use cpp_trading_engine.MarketData.PriceLevels.{
  Level, PriceLevels, capacity, view, level_at, set_level, best, initial, IsValid,
}
use cpp_trading_engine.MarketData.PriceLevels.Spec.{upsert}
use cpp_trading_engine.MarketData.PriceLevels.Update.{set_level-upsert}
use cpp_trading_engine.MarketData.PriceLevels.Refine.{Updated}
use cpp_trading_engine.MarketData.OrderBook.{OrderBook, best_ask}
use cpp_trading_engine.MarketData.OrderBook.Laws.{FrontIs, set_better_price}
use cpp_trading_engine.MarketData.Messages.{applied, gap_detected, apply_book_message}
use cpp_trading_engine.Base.{Text, codes, text_eq}
use cpp_trading_engine.Base.Int.{◌*ℤ◌, ◌+ℤ◌}
use cpp_trading_engine.Base.Bisect
use cpp_trading_engine.Base.Slots.{move_up}
use cpp_trading_engine.MarketData.PriceLevels
use cpp_trading_engine.MarketData.PriceLevels.{is_found, insert_level}

abbrev level : ℕ → ℕ → Level ℤ
level price size = record { price = ℤ.pos price; size = ℤ.pos size }

abbrev two_levels : PriceLevels ℤ
two_levels = record { levels = level 101 5 ∷ level 99 7 ∷ replicate 30 (level 0 0); count = 2 }

two_levels-IsValid : IsValid (greater integers) two_levels
two_levels-IsValid = record {
  storage = refl;
  within = omega arith;
  sorted = ((refl, tt), (tt, tt));
}

set_level-upsert_example :
    Updated
      (ℤ.pos 0)
      (greater-IsStrictOrder integers)
      (take capacity
        (upsert (greater integers) integers.eq (ℤ.pos 0) (ℤ.pos 99) (ℤ.pos 0) (view two_levels)))
      (set_level (greater integers) integers.eq (ℤ.pos 0) two_levels (ℤ.pos 99) (ℤ.pos 0))
set_level-upsert_example =
    set_level-upsert (ℤ.pos 0) (greater-IsStrictOrder integers) two_levels (ℤ.pos 99) (ℤ.pos 0)
      two_levels-IsValid

-- A bid at 103 is removed that the side does not hold.
set_better_price_example :
    (q : PriceLevels ℤ) × (set_level
        (greater integers)
        integers.eq
        (ℤ.pos 0)
        two_levels
        (ℤ.pos 103)
        (ℤ.pos 0)
      ≡ ok q)
    × FrontIs (ℤ.pos 0) (greater-IsStrictOrder integers) (ℤ.pos 103) (ℤ.pos 0) q
set_better_price_example =
    set_better_price (ℤ.pos 0) (greater-IsStrictOrder integers) two_levels (ℤ.pos 103) (ℤ.pos 0)
      two_levels-IsValid (λ x e. cc)

abbrev two_bids : OrderBook ℤ
two_bids = record {
  bids = two_levels;
  asks = initial (ℤ.pos 0);
  last_seq_id = ℤ.pos 9;
  has_snapshot = true;
}

-- An update that follows number 8, where the book stands at 9.
abbrev late_update : Text
late_update =
    codes
      "{\"arg\":{\"channel\":\"books\"},\"data\":[{\"asks\":[[\"5\",\"2\"]],\"prevSeqId\":8,\"seqId\":10}]}"

late_update_shows_gap : (apply_book_message integers late_update two_bids).1 ≡ ok gap_detected
unfolding apply_book_message text_eq
late_update_shows_gap = refl

abbrev update : Text
update =
    codes
      "{\"arg\":{\"channel\":\"books\"},\"data\":[{\"asks\":[[\"5\",\"2\"]],\"prevSeqId\":9,\"seqId\":10}]}"

update_is_applied :
    let (book, r) = apply_book_message integers update two_bids in
    (r ≡ ok applied)
    × (book.last_seq_id ≡ ℤ.pos 10)
    × (best_ask integers book ≡ ok (some (ℤ.pos 50000)))
unfolding apply_book_message best_ask text_eq set_level
    cpp_trading_engine.MarketData.PriceLevels.lower_bound cpp_trading_engine.Base.Bisect.lower_bound
    is_found best insert_level move_up ◌*ℤ◌ ◌+ℤ◌
update_is_applied = (refl, refl, refl)
