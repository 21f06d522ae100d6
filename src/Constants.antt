-- ===== src/Constants.antt =====
-- okx/common/okx_constants.hpp: the field names and values of messages.
use cpp_trading_engine.Base.{Text, codes, Bool, false, Option, none, some, text_eq}

-- `find(...) == text`, for a field that may be absent.
abbrev pub is_text : Option Text → Text → Bool
is_text none text = false
is_text (some field) text = text_eq field text

-- `field.value_or(kEmpty)`
abbrev pub value_or_empty : Option Text → Text
value_or_empty none = codes ""
value_or_empty (some field) = field

abbrev pub code_key : Text
code_key = codes "code"

abbrev pub msg_key : Text
msg_key = codes "msg"

abbrev pub data_key : Text
data_key = codes "data"

abbrev pub ord_id_key : Text
ord_id_key = codes "ordId"

abbrev pub cl_ord_id_key : Text
cl_ord_id_key = codes "clOrdId"

abbrev pub s_code_key : Text
s_code_key = codes "sCode"

abbrev pub s_msg_key : Text
s_msg_key = codes "sMsg"

abbrev pub event_key : Text
event_key = codes "event"

abbrev pub channel_key : Text
channel_key = codes "channel"

abbrev pub seq_id_key : Text
seq_id_key = codes "seqId"

abbrev pub prev_seq_id_key : Text
prev_seq_id_key = codes "prevSeqId"

abbrev pub asks_key : Text
asks_key = codes "asks"

abbrev pub bids_key : Text
bids_key = codes "bids"

abbrev pub inst_id_key : Text
inst_id_key = codes "instId"

abbrev pub side_key : Text
side_key = codes "side"

abbrev pub px_key : Text
px_key = codes "px"

abbrev pub sz_key : Text
sz_key = codes "sz"

abbrev pub acc_fill_sz_key : Text
acc_fill_sz_key = codes "accFillSz"

abbrev pub avg_px_key : Text
avg_px_key = codes "avgPx"

abbrev pub fill_px_key : Text
fill_px_key = codes "fillPx"

abbrev pub fill_sz_key : Text
fill_sz_key = codes "fillSz"

abbrev pub state_key : Text
state_key = codes "state"

abbrev pub details_key : Text
details_key = codes "details"

abbrev pub ccy_key : Text
ccy_key = codes "ccy"

abbrev pub cash_bal_key : Text
cash_bal_key = codes "cashBal"

abbrev pub avail_bal_key : Text
avail_bal_key = codes "availBal"

abbrev pub id_key : Text
id_key = codes "id"

abbrev pub op_key : Text
op_key = codes "op"

abbrev pub success_code : Text
success_code = codes "0"

abbrev pub buy : Text
buy = codes "buy"

abbrev pub sell : Text
sell = codes "sell"

abbrev pub limit_type : Text
limit_type = codes "limit"

abbrev pub ping_text : Text
ping_text = codes "ping"

abbrev pub pong_text : Text
pong_text = codes "pong"

abbrev pub login_event : Text
login_event = codes "login"

abbrev pub books_channel : Text
books_channel = codes "books"

abbrev pub orders_channel : Text
orders_channel = codes "orders"

abbrev pub account_channel : Text
account_channel = codes "account"

abbrev pub state_live : Text
state_live = codes "live"

abbrev pub state_partially_filled : Text
state_partially_filled = codes "partially_filled"

abbrev pub state_filled : Text
state_filled = codes "filled"

abbrev pub state_canceled : Text
state_canceled = codes "canceled"

abbrev pub state_mmp_canceled : Text
state_mmp_canceled = codes "mmp_canceled"

abbrev pub order_op : Text
order_op = codes "order"

abbrev pub cancel_order_op : Text
cancel_order_op = codes "cancel-order"

abbrev pub amend_order_op : Text
amend_order_op = codes "amend-order"

abbrev pub market_type : Text
market_type = codes "market"

abbrev pub cash : Text
cash = codes "cash"

abbrev pub tick_sz_key : Text
tick_sz_key = codes "tickSz"

abbrev pub lot_sz_key : Text
lot_sz_key = codes "lotSz"

abbrev pub min_sz_key : Text
min_sz_key = codes "minSz"

abbrev pub inst_id_code_key : Text
inst_id_code_key = codes "instIdCode"
