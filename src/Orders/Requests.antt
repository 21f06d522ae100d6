-- ===== src/Orders/Requests.antt =====
-- okx/orders/ws_orders.cpp and okx/orders/order_types.cpp: the ids of orders and requests, and the
-- messages that place, amend and cancel orders. The static `last_id` is an argument, as is the clock's
-- reading in milliseconds; the pieces of a format string stand between its arguments.
pub mod Ids
use cpp_trading_engine.Base.{
  ℕ, zero, suc, ◌+◌, ◌/◌, ◌%◌, max, Bool, List, [], ◌∷◌, ◌++◌, if◌then◌else◌, ◌==◌, Text, codes,
  text_eq, Result, ok, err, ◌>>=◌, market_order, no_orders,
}
use cpp_trading_engine.Base.Int.{ℤ, pos, negsuc}
use cpp_trading_engine.Constants.{market_type, cash}
use cpp_trading_engine.Risk.Checks.{OrderRequest}

-- `std::to_string`: the decimal digits of a number of at most so many, in front of a text
unfoldable pub digits_before : ℕ → ℕ → Text → Text
digits_before zero n text = text
digits_before (suc digits) n text =
    let rest = digits_before digits (n / 10) ((48 + n % 10) ∷ text) in
    if n / 10 == 0 then (48 + n % 10) ∷ text else rest

-- A 64-bit number has twenty digits at most.
unfoldable pub decimal : ℕ → Text
unfolding digits_before
decimal n = digits_before 20 n []

unfoldable pub decimal_of : ℤ → Text
unfolding decimal
decimal_of (pos n) = decimal n
decimal_of (negsuc n) = b'-' ∷ decimal (n + 1)

-- `GenerateId`, with the new `last_id`
unfoldable pub generate_id : ℕ → ℕ → ℕ × Text
unfolding decimal
generate_id now_ms last_id = let next = max (last_id + 1) now_ms in (next, decimal next)

-- `WsOrderRequest`
pub record WsOrderRequest : Type 0 where
  pub id : Text
  pub message : Text

-- `FormatOrderArg`
unfoldable pub format_order_arg : OrderRequest → Text → Result Text
unfolding decimal_of
format_order_arg request cl_ord_id =
    if text_eq request.ord_type market_type
    then err market_order
    else ok (
        codes "{\"instIdCode\":"
        ++ decimal_of request.inst_id_code
        ++ codes ",\"tdMode\":\""
        ++ cash
        ++ codes "\",\"side\":\""
        ++ request.side
        ++ codes "\",\"ordType\":\""
        ++ request.ord_type
        ++ codes "\",\"px\":\""
        ++ request.px
        ++ codes "\",\"sz\":\""
        ++ request.sz
        ++ codes "\",\"clOrdId\":\""
        ++ cl_ord_id
        ++ codes "\"}")

abbrev pub message_with : Text → Text → Text → Text
message_with id op args =
    codes "{\"id\":\""
    ++ id
    ++ codes "\",\"op\":\""
    ++ op
    ++ codes "\",\"args\":["
    ++ args
    ++ codes "]}"

-- `BuildWsOrderMessage`, with the id that it makes
unfoldable pub build_ws_order_message : Text → OrderRequest → Result WsOrderRequest
unfolding format_order_arg
build_ws_order_message id request = do
  arg ← format_order_arg request id
  ok (record { id = id; message = message_with id (codes "order") arg })

-- `BuildWsCancelOrderMessage`
unfoldable pub build_ws_cancel_order_message : Text → ℤ → Text → WsOrderRequest
unfolding decimal_of
build_ws_cancel_order_message id inst_id_code ord_id = record {
  id = id;
  message = message_with id (codes "cancel-order") (
      codes "{\"instIdCode\":"
      ++ decimal_of inst_id_code
      ++ codes ",\"ordId\":\""
      ++ ord_id
      ++ codes "\"}");
}

-- `BuildWsAmendOrderMessage`
unfoldable pub build_ws_amend_order_message : Text → ℤ → Text → Text → Text → WsOrderRequest
unfolding decimal_of
build_ws_amend_order_message id inst_id_code ord_id new_px new_sz = record {
  id = id;
  message = message_with id (codes "amend-order") (
      codes "{\"instIdCode\":"
      ++ decimal_of inst_id_code
      ++ codes ",\"ordId\":\""
      ++ ord_id
      ++ codes "\",\"newPx\":\""
      ++ new_px
      ++ codes "\",\"newSz\":\""
      ++ new_sz
      ++ codes "\"}");
}

-- `WsBatchOrderRequest`
pub record WsBatchOrderRequest : Type 0 where
  pub batch_id : Text
  pub batch_message : Text
  pub cl_ord_ids : List Text

-- The loop over the requests: the last id, the ids, and the arguments with a comma behind each. The
-- clock's reading is the one of the whole call.
unfoldable pub format_order_args : ℕ → ℕ → List OrderRequest → Result (ℕ × (List Text × Text))
unfolding generate_id format_order_arg
format_order_args now_ms last_id [] = ok (last_id, ([], []))
format_order_args now_ms last_id (request ∷ requests) =
    let (next, cl_ord_id) = generate_id now_ms last_id in
    (format_order_arg request cl_ord_id) >>= λ arg.
    (format_order_args now_ms next requests) >>= λ rest.
    ok (rest.0, (cl_ord_id ∷ rest.1.0, arg ++ b',' ∷ rest.1.1))

-- `std::string::pop_back`
abbrev pub pop_back : Text → Text
pop_back [] = []
pop_back (c ∷ []) = []
pop_back (c ∷ d ∷ text) = c ∷ pop_back (d ∷ text)

abbrev pub batch_of : ℕ → ℕ × (List Text × Text) → ℕ × WsBatchOrderRequest
batch_of now_ms (last_id, (ids, args)) =
    let (next, id) = generate_id now_ms last_id in
    (
      next,
      record {
        batch_id = id;
        batch_message = message_with id (codes "batch-orders") (pop_back args);
        cl_ord_ids = ids;
      },
    )

-- `BuildWsBatchOrdersMessage`
unfoldable pub build_ws_batch_orders_message :
    ℕ → ℕ → List OrderRequest → Result (ℕ × WsBatchOrderRequest)
unfolding format_order_args generate_id
build_ws_batch_orders_message now_ms last_id [] = err no_orders
build_ws_batch_orders_message now_ms last_id (request ∷ requests) =
    (format_order_args now_ms last_id (request ∷ requests)) >>= λ made. ok (batch_of now_ms made)
