-- ===== src/Orders/RestOrders.antt =====
-- okx/orders/rest_orders.cpp: the requests of the REST interface and what is read from its answers. `post`
-- is the call of the HTTP client with its signed headers: the path and the body to the answer's body.
use cpp_trading_engine.Base.{
  ℕ, Bool, false, ◌&&◌, Option, none, some, [], ◌++◌, if◌then◌else◌, Text, codes, text_eq, ok, err,
  market_order,
}
use cpp_trading_engine.Base.Effects.{Effect}
use cpp_trading_engine.Constants.{
  value_or_empty, code_key, success_code, ord_id_key, cl_ord_id_key, s_code_key, s_msg_key,
  market_type, cash,
}
use cpp_trading_engine.Json.Fields.{find_string, find_data}
use cpp_trading_engine.Orders.Requests.{generate_id}
use cpp_trading_engine.Risk.Checks.{OrderRequest}

pub record OrderResult : Type 0 where
  pub accepted : Bool
  pub ord_id : Text
  pub cl_ord_id : Text
  pub code : Text
  pub s_code : Text
  pub s_msg : Text

abbrev pub of_data : Text → Option Text → OrderResult
of_data code none = record {
  accepted = false;
  ord_id = [];
  cl_ord_id = [];
  code = code;
  s_code = [];
  s_msg = [];
}
of_data code (some data_text) =
    let s_code = value_or_empty (find_string data_text s_code_key) in
    record {
      accepted = text_eq code success_code && text_eq s_code success_code;
      ord_id = value_or_empty (find_string data_text ord_id_key);
      cl_ord_id = value_or_empty (find_string data_text cl_ord_id_key);
      code = code;
      s_code = s_code;
      s_msg = value_or_empty (find_string data_text s_msg_key);
    }

-- `ParseOrderResult`
unfoldable pub parse_order_result : Text → OrderResult
unfolding find_string find_data
parse_order_result response =
    of_data (value_or_empty (find_string response code_key)) (find_data response)

abbrev pub order_body : OrderRequest → Text → Text
order_body request cl_ord_id =
    codes "{\"instId\":\""
    ++ request.inst_id
    ++ codes "\",\"tdMode\":\""
    ++ cash
    ++ codes "\",\"side\":\""
    ++ request.side
    ++ codes "\",\"ordType\":\""
    ++ request.ord_type
    ++ codes "\",\"px\":\""
    ++ request.px
    ++ codes "\",\"sz\":\""
    ++ request.sz
    ++ codes "\",\"clOrdId\":\""
    ++ cl_ord_id
    ++ codes "\"}"

abbrev pub cancel_body : Text → Text → Text
cancel_body inst_id ord_id =
    codes "{\"instId\":\"" ++ inst_id ++ codes "\",\"ordId\":\"" ++ ord_id ++ codes "\"}"

module _ (post : Text → Text → Text) where
  -- `PlaceOrder`, with the static of `GenerateId`
  unfoldable pub place_rest_order : ℕ → OrderRequest → Effect ℕ OrderResult
  unfolding generate_id parse_order_result
  place_rest_order now_ms request last_id =
      if text_eq request.ord_type market_type
      then (last_id, err market_order)
      else (let (next, id) = generate_id now_ms last_id in
          (
            next,
            ok (parse_order_result (post (codes "/api/v5/trade/order") (order_body request id))),
          ))

  -- `CancelOrder`
  unfoldable pub cancel_rest_order : Text → Text → OrderResult
  unfolding parse_order_result
  cancel_rest_order inst_id ord_id =
      parse_order_result (post (codes "/api/v5/trade/cancel-order") (cancel_body inst_id ord_id))
