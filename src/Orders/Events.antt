-- ===== src/Orders/Events.antt =====
-- okx/orders/order_events: the events of the "orders" channel.
use cpp_trading_engine.Base.{
  Bool, true, false, ◌||◌, Option, none, some, if◌then◌else◌, Text, text_eq, Result, ok, err, ◌>>=◌,
  or_throw, unrecognized_state, malformed, parse_failed, is_empty,
}
use cpp_trading_engine.Base.Double.{Double, zero_of}
use cpp_trading_engine.Base.Effects.{Effect}
use cpp_trading_engine.Json.Fields.{find_string}
use cpp_trading_engine.Json.Loops.{for_each_array_element}
use cpp_trading_engine.Constants.{
  is_text, value_or_empty, channel_key, data_key, state_key, ord_id_key, cl_ord_id_key, inst_id_key,
  side_key, px_key, sz_key, acc_fill_sz_key, avg_px_key, fill_px_key, fill_sz_key, orders_channel,
  state_live, state_partially_filled, state_filled, state_canceled, state_mmp_canceled,
}

pub data OrderEventType : Type 0 where
  live partial_fill fill cancel : OrderEventType

pub record OrderFill (V : Type 0) : Type 0 where
  pub px : V
  pub sz : V

-- The field `fill` is named `fill_data` here.
pub record OrderEvent (V : Type 0) : Type 0 where
  pub type : OrderEventType
  pub ord_id : Text
  pub cl_ord_id : Text
  pub inst_id : Text
  pub side : Text
  pub px : Text
  pub sz : Text
  pub acc_fill_sz : Text
  pub avg_px : Text
  pub fill_data : Option (OrderFill V)

unfoldable pub classify_state : Text → Result OrderEventType
unfolding text_eq
classify_state state =
    if text_eq state state_live
    then ok live
    else (if text_eq state state_partially_filled
        then ok partial_fill
        else (if text_eq state state_filled
            then ok fill
            else (if text_eq state state_canceled || text_eq state state_mmp_canceled
                then ok cancel
                else err unrecognized_state)))

module _ (d : Double) where
  open d use {Val, lt, parse}

  -- `json::ParseDouble`, on texts that `strtod` does not read as NaN
  abbrev pub parse_double : Text → Result Val
  parse_double text = or_throw parse_failed (parse text)

  -- `value <= 0.0`
  abbrev at_most_zero : Val → Bool
  at_most_zero value = if lt (zero_of d) value then false else true

  -- A field of the fill: absent where it is missing, empty or not positive.
  abbrev fill_field : Option Text → Result (Option Val)
  fill_field none = ok none
  fill_field (some text) =
      if is_empty text
      then ok none
      else ((parse_double text) >>= λ value. ok (if at_most_zero value then none else some value))

  abbrev fill_size : Text → Option Val → Result (Option (OrderFill Val))
  fill_size order none = ok none
  fill_size order (some px) = (fill_field (find_string order fill_sz_key)) >>= λ size. elim size [
    | none ↦ ok none
    | some sz ↦ ok (some (record { px = px; sz = sz }))
  ]

  unfoldable pub classify_fill : Text → Result (Option (OrderFill Val))
  unfolding find_string
  classify_fill order = (fill_field (find_string order fill_px_key)) >>= fill_size order

  abbrev field_of : Text → Text → Text
  field_of order key = value_or_empty (find_string order key)

  abbrev order_event_of : Text → Option Text → Result (OrderEvent Val)
  order_event_of order none = err malformed
  order_event_of order (some state) = do
    event_type ← classify_state state
    fill_data ← classify_fill order
    ok (record {
      type = event_type;
      ord_id = field_of order ord_id_key;
      cl_ord_id = field_of order cl_ord_id_key;
      inst_id = field_of order inst_id_key;
      side = field_of order side_key;
      px = field_of order px_key;
      sz = field_of order sz_key;
      acc_fill_sz = field_of order acc_fill_sz_key;
      avg_px = field_of order avg_px_key;
      fill_data = fill_data;
    })

  -- The event that one element of the message's "data" stands for.
  unfoldable pub read_order_event : Text → Result (OrderEvent Val)
  unfolding classify_state classify_fill find_string
  read_order_event order = order_event_of order (find_string order state_key)

  abbrev pub act_on :
      {S : Type 0}
      → (OrderEvent Val → Effect S (Unit {0}))
      → Result (OrderEvent Val)
      → Effect S (Unit {0})
  act_on action (ok event) state = action event state
  act_on action (err e) state = (state, err e)

  unfoldable pub for_each_order_event :
      {S : Type 0} → Text → (OrderEvent Val → Effect S (Unit {0})) → Effect S (Unit {0})
  unfolding find_string for_each_array_element read_order_event
  for_each_order_event message action state =
      if is_text (find_string message channel_key) orders_channel
      then for_each_array_element message data_key (λ order. act_on action (read_order_event order))
          state
      else (state, ok tt)
