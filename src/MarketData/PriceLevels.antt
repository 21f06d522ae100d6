-- ===== src/MarketData/PriceLevels.antt =====
-- okx/marketdata/order_book.hpp: `OrderBook::Level` and `OrderBook::PriceLevels<Compare>`, one side of
-- the book. The array is a list of `capacity` levels; a read or write outside it is an error. Prices and
-- sizes are of any type with the comparison object, the equality and the zero that the code uses.
pub mod Spec
pub mod Refine
pub mod Update
use cpp_trading_engine.Base.{
  ℕ, suc, ◌+◌, ◌-◌, ◌≡◌, ◌≤◌, Bool, true, false, Option, none, some, List, ltb, leb, ◌==◌,
  if◌then◌else◌, length, get_elem?, set, take, replicate, Error, out_of_bounds, Result, ok, ◌>>=◌,
  or_throw,
}
use cpp_trading_engine.Base.Bisect.{lower_bound as search_slots}
use cpp_trading_engine.Base.Slots.{write_slot, move_up, move_down}
use cpp_trading_engine.Base.Sorted.{IsStrictlySorted}

pub record Level (V : Type 0) : Type 0 where
  pub price : V
  pub size : V

pub record PriceLevels (V : Type 0) : Type 0 where
  pub levels : List (Level V)
  pub count : ℕ

-- `kCapacity`
abbrev pub capacity : ℕ
capacity = 32

-- `Clear`
unfoldable pub clear : {V : Type 0} → PriceLevels V → PriceLevels V
clear p = record p { count = 0 }

-- `levels_[i]`, read
abbrev pub level_at : {V : Type 0} → PriceLevels V → ℕ → Result (Level V)
level_at p i = or_throw out_of_bounds (get_elem? p.levels i)

-- A value-initialised side: `capacity` levels of price and size zero, none in use.
abbrev pub initial : {V : Type 0} → V → PriceLevels V
initial zero = record {
  levels = replicate capacity (record { price = zero; size = zero });
  count = 0;
}

-- `InsertAt`
unfoldable pub insert_level : {V : Type 0} → PriceLevels V → ℕ → Level V → Result (PriceLevels V)
unfolding move_up
insert_level p i level =
    let last = if p.count == capacity then p.count - 1 else p.count in
    if leb capacity i then ok p else (do
      moved ← move_up p.levels i last
      levels ← write_slot moved i level
      ok (record {
        levels = levels;
        count = if ltb p.count capacity then p.count + 1 else p.count;
      }))

-- `RemoveAt`; the loop makes fewer rounds than there are levels.
unfoldable pub remove_level : {V : Type 0} → PriceLevels V → ℕ → Result (PriceLevels V)
unfolding move_down
remove_level p i = do
  levels ← move_down p.count p.levels i p.count
  ok (record { levels = levels; count = p.count - 1 })

-- `Best`
unfoldable pub best : {V : Type 0} → PriceLevels V → Result (Option V)
best p = if p.count == 0 then ok none else ((level_at p 0) >>= λ level. ok (some level.price))

module _ {V : Type 0} (before same : V → V → Bool) (zero : V) where
  -- `LowerBound`
  unfoldable pub lower_bound : PriceLevels V → V → Result ℕ
  lower_bound p price =
      search_slots (λ i. (level_at p i) >>= λ level. ok (before level.price price)) (suc p.count) 0
        p.count

  -- `i < count_ && levels_[i].price == price`
  unfoldable pub is_found : PriceLevels V → V → ℕ → Result Bool
  is_found p price i =
      if ltb i p.count then ((level_at p i) >>= λ level. ok (same level.price price)) else ok false

  -- `levels_[i].size = size`
  abbrev pub set_size : PriceLevels V → ℕ → V → Result (PriceLevels V)
  set_size p i size = do
    level ← level_at p i
    levels ← write_slot p.levels i (record level { size = size })
    ok (record p { levels = levels })

  -- `Set`
  unfoldable pub set_level : PriceLevels V → V → V → Result (PriceLevels V)
  set_level p price size = do
    i ← lower_bound p price
    found ← is_found p price i
    if found
        then (if same size zero then remove_level p i else set_size p i size)
        else insert_level p i (record { price = price; size = size })

-- The levels in use, best first.
abbrev pub view : {V : Type 0} → PriceLevels V → List (Level V)
view p = take p.count p.levels

abbrev pub price_of : {V : Type 0} → Level V → V
price_of level = level.price

-- The array keeps its size, and the levels in use are sorted with no price twice.
pub record IsValid {V : Type 0} (before : V → V → Bool) (p : PriceLevels V) : Type 0 where
  pub storage : length p.levels ≡ capacity
  pub within : p.count ≤ capacity
  pub sorted : IsStrictlySorted before price_of (view p)
