-- ===== src/Orders/Reconcile.antt =====
-- okx/orders/reconciliation.cpp: the store is brought in line with the orders that the exchange says
-- are pending. The set of ids is a list; the clock's reading is an argument. The result is the ids
-- that the removal listener is told, in order.
pub mod Grown
pub mod Kept
pub mod Laws
use cpp_trading_engine.Base.{
  ℕ, Bool, true, false, ◌||◌, Option, none, some, List, [], ◌∷◌, if◌then◌else◌, Text, text_eq,
  Result, ok, err, ◌>>=◌, unrecognized_state, malformed, vanished_after_add,
}
use cpp_trading_engine.Base.Effects.{Effect, resume}
use cpp_trading_engine.Json.Fields.{find_string}
use cpp_trading_engine.Json.Loops.{for_each_array_element}
use cpp_trading_engine.Constants.{
  value_or_empty, data_key, state_key, ord_id_key, cl_ord_id_key, inst_id_key, side_key, px_key,
  sz_key, acc_fill_sz_key, avg_px_key, state_live, state_partially_filled,
}
use cpp_trading_engine.Orders.Events.{OrderEventType, live, partial_fill, OrderEvent}
use cpp_trading_engine.Orders.Lifecycle.{Order, apply_event}
use cpp_trading_engine.Orders.Store.{
  OrderStore, find_by_cl_ord_id, at, write, remove, add, all_orders,
}

-- The store and the exchange's ids, as the first loop changes them.
abbrev pub Progress : Type 0
Progress = OrderStore × List Text

unfoldable pub classify_pending_state : Text → Result OrderEventType
classify_pending_state state =
    if text_eq state state_live
    then ok live
    else (if text_eq state state_partially_filled then ok partial_fill else err unrecognized_state)

abbrev field_of : Text → Text → Text
field_of order key = value_or_empty (find_string order key)

-- The event built from a pending order; it carries no fill.
unfoldable pub pending_event : Text → Text → OrderEventType → OrderEvent (Unit {0})
unfolding find_string
pending_event order cl_ord_id event_type = record {
  type = event_type;
  ord_id = field_of order ord_id_key;
  cl_ord_id = cl_ord_id;
  inst_id = field_of order inst_id_key;
  side = field_of order side_key;
  px = field_of order px_key;
  sz = field_of order sz_key;
  acc_fill_sz = field_of order acc_fill_sz_key;
  avg_px = field_of order avg_px_key;
  fill_data = none;
}

abbrev pub put_back :
    OrderStore → ℕ → List Text → Order × Result (Unit {0}) → Progress × Result (Unit {0})
put_back s i ids (order, r) = ((write s i order, ids), r)

-- From `FindByClOrdId` after the addition on.
abbrev pub apply_adopted :
    OrderEvent (Unit {0})
    → OrderStore
    → List Text
    → Result (Option ℕ)
    → Progress × Result (Unit {0})
apply_adopted event s ids (err e) = ((s, ids), err e)
apply_adopted event s ids (ok none) = ((s, ids), err vanished_after_add)
apply_adopted event s ids (ok (some i)) = elim (at s i) [
  | err e ↦ ((s, ids), err e)
  | ok order ↦ put_back s i ids (apply_event event order)
]

abbrev pub after_add :
    OrderEvent (Unit {0})
    → OrderStore
    → List Text
    → Result OrderStore
    → Progress × Result (Unit {0})
after_add event s ids (err e) = ((s, ids), err e)
after_add event s ids (ok t) = apply_adopted event t ids (find_by_cl_ord_id t event.cl_ord_id)

unfoldable pub adopt_event : ℕ → OrderEvent (Unit {0}) → Effect Progress (Unit {0})
adopt_event now event (s, ids) =
    after_add event s ids (add now s event.cl_ord_id event.inst_id event.side event.px event.sz)

abbrev pub adopt_classified : ℕ → Text → Text → Result OrderEventType → Effect Progress (Unit {0})
adopt_classified now order cl_ord_id (err e) p = (p, err e)
adopt_classified now order cl_ord_id (ok event_type) p =
    adopt_event now (pending_event order cl_ord_id event_type) p

abbrev pub adopt_unknown :
    ℕ → Text → Text → Text → Progress → Result (Option ℕ) → Progress × Result (Unit {0})
adopt_unknown now order cl_ord_id state p (err e) = (p, err e)
adopt_unknown now order cl_ord_id state p (ok (some i)) = (p, ok tt)
adopt_unknown now order cl_ord_id state p (ok none) =
    adopt_classified now order cl_ord_id (classify_pending_state state) p

abbrev pub adopt_fields : ℕ → Text → Option Text → Option Text → Effect Progress (Unit {0})
adopt_fields now order (some cl_ord_id) (some state) (s, ids) =
    adopt_unknown now order cl_ord_id state (s, cl_ord_id ∷ ids) (find_by_cl_ord_id s cl_ord_id)
adopt_fields now order (some cl_ord_id) none p = (p, err malformed)
adopt_fields now order none state p = (p, err malformed)

-- The action on one pending order of the response.
unfoldable pub adopt : ℕ → Text → Effect Progress (Unit {0})
unfolding classify_pending_state pending_event adopt_event find_string
adopt now order p =
    adopt_fields now order (find_string order cl_ord_id_key) (find_string order state_key) p

unfoldable pub contains : List Text → Text → Bool
contains [] id = false
contains (x ∷ xs) id = text_eq x id || contains xs id

-- The ids of the orders that the exchange does not know.
unfoldable pub to_drop : List Text → List Order → List Text
to_drop ids [] = []
to_drop ids (x ∷ xs) =
    let rest = to_drop ids xs in if contains ids x.cl_ord_id then rest else x.cl_ord_id ∷ rest

abbrev told : Option Text → List Text → List Text
told none notices = notices
told (some id) notices = id ∷ notices

-- The loop that removes; the notices so far stand before those to come.
unfoldable pub drop_all : List Text → Effect OrderStore (List Text)
drop_all [] s = (s, ok [])
drop_all (id ∷ ids) s = elim (remove s id) [
  | err e ↦ (s, err e)
  | ok (t, notice) ↦ resume (λ notices u. (u, ok (told notice notices))) (drop_all ids t)
]

abbrev pub drop_missing :
    List Text → OrderStore → Result (List Order) → OrderStore × Result (List Text)
drop_missing ids s (err e) = (s, err e)
drop_missing ids s (ok orders) = drop_all (to_drop ids orders) s

abbrev pub finish_reconcile : Progress × Result (Unit {0}) → OrderStore × Result (List Text)
finish_reconcile ((s, ids), err e) = (s, err e)
finish_reconcile ((s, ids), ok done) = drop_missing ids s (all_orders s)

-- The first loop, over the field "data" of the response.
unfoldable pub adopt_all : ℕ → Text → OrderStore → Progress × Result (Unit {0})
unfolding adopt for_each_array_element
adopt_all now response s = for_each_array_element response data_key (adopt now) (s, [])

unfoldable pub reconcile_orders : ℕ → Text → Effect OrderStore (List Text)
unfolding adopt_all to_drop drop_all contains all_orders
reconcile_orders now response s = finish_reconcile (adopt_all now response s)
