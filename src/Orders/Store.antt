-- ===== src/Orders/Store.antt =====
-- okx/orders/order_store: the live orders, sorted by the client's id in an array of `capacity` slots.
-- A pointer to an order is the index of its slot. A slot that is moved from keeps a copy here, which
-- the next write to it covers. The removal listener is told by the id that `remove` returns.
pub mod Spec
pub mod View
pub mod Refine
use cpp_trading_engine.Base.{
  ℕ, zero, suc, ◌+◌, ◌-◌, ◌≡◌, ◌≤◌, Bool, true, false, Option, none, some, List, [], ◌∷◌, map, ltb,
  leb, ◌==◌, if◌then◌else◌, length, get_elem?, set, take, replicate, Error, out_of_bounds,
  slot_empty, store_full, Result, ok, err, ◌>>=◌, or_throw, Text, text_eq, text_lt,
}
use cpp_trading_engine.Base.Bisect.{lower_bound as search_slots}
use cpp_trading_engine.Base.Slots.{shift_up, shift_down}
use cpp_trading_engine.Orders.Lifecycle.{Order, make_order}

pub record OrderStore : Type 0 where
  pub slots : List (Option Order)
  pub count : ℕ

-- `kCapacity`; shut, so that nothing lays out the array.
unfoldable pub capacity : ℕ
capacity = 1024

unfoldable pub empty_store : OrderStore
unfolding capacity
empty_store = record { slots = replicate capacity none; count = 0 }

-- `Size`
abbrev pub store_size : OrderStore → ℕ
store_size s = s.count

-- `At`: the slot, which must hold an order.
abbrev pub at : OrderStore → ℕ → Result Order
at s i = (or_throw out_of_bounds (get_elem? s.slots i)) >>= or_throw slot_empty

-- `LowerBound`
unfoldable pub lower_bound : OrderStore → Text → Result ℕ
lower_bound s cl_ord_id =
    search_slots (λ i. (at s i) >>= λ order. ok (text_lt order.cl_ord_id cl_ord_id)) (suc s.count) 0
      s.count

-- `i < count_ && At(i).ClOrdId() == cl_ord_id`
unfoldable pub is_found : OrderStore → Text → ℕ → Result Bool
is_found s cl_ord_id i =
    if ltb i s.count
    then ((at s i) >>= λ order. ok (text_eq order.cl_ord_id cl_ord_id))
    else ok false

-- `Add` of the order that the constructor makes of the arguments
unfoldable pub add_order : OrderStore → Order → Result OrderStore
add_order s order =
    if leb capacity s.count
    then err store_full
    else ((lower_bound s order.cl_ord_id) >>= λ i.
        ok
          (record { slots = set (shift_up s.slots i s.count) i (some order); count = s.count + 1 }))

unfoldable pub add : ℕ → OrderStore → Text → Text → Text → Text → Text → Result OrderStore
unfolding add_order make_order
add now s cl_ord_id inst_id side px sz = add_order s (make_order now cl_ord_id inst_id side px sz)

-- `Remove`, with the id that the listener is called with, if it is.
unfoldable pub remove : OrderStore → Text → Result (OrderStore × Option Text)
remove s cl_ord_id = do
  i ← lower_bound s cl_ord_id
  found ← is_found s cl_ord_id i
  if found
      then ok (
        record {
          slots = set (shift_down s.count s.slots i s.count) (s.count - 1) none;
          count = s.count - 1;
        },
        some cl_ord_id,
      )
      else ok (s, none)

-- `FindByClOrdId`
unfoldable pub find_by_cl_ord_id : OrderStore → Text → Result (Option ℕ)
find_by_cl_ord_id s cl_ord_id = do
  i ← lower_bound s cl_ord_id
  found ← is_found s cl_ord_id i
  ok (if found then some i else none)

-- The loop of `FindByOrdId`, over the slots left.
unfoldable pub find_by_ord_id_from : OrderStore → Text → ℕ → ℕ → Result (Option ℕ)
find_by_ord_id_from s ord_id i zero = ok none
find_by_ord_id_from s ord_id i (suc left) =
    let rest = find_by_ord_id_from s ord_id (i + 1) left in
    (at s i) >>= λ order. if text_eq order.ord_id ord_id then ok (some i) else rest

unfoldable pub find_by_ord_id : OrderStore → Text → Result (Option ℕ)
unfolding find_by_ord_id_from
find_by_ord_id s ord_id = find_by_ord_id_from s ord_id 0 s.count

-- The write of an order through a pointer to it.
abbrev pub write : OrderStore → ℕ → Order → OrderStore
write s i order = record s { slots = set s.slots i (some order) }

-- `ForEach`: the orders in turn, for an action that only reads them.
unfoldable pub orders_from : OrderStore → ℕ → ℕ → Result (List Order)
orders_from s i zero = ok []
orders_from s i (suc left) = do order ← at s i; rest ← orders_from s (i + 1) left; ok (order ∷ rest)

unfoldable pub all_orders : OrderStore → Result (List Order)
unfolding orders_from
all_orders s = orders_from s 0 s.count
