-- ===== src/Lib.antt =====
-- cpp-trading-engine: a trading client for the OKX exchange. It keeps an order book from the
-- exchange's market data, quotes a bid and an ask around its mid price, holds its own live orders
-- in a store, applies the exchange's order events to them, and brings the store in line with the
-- exchange after a reconnect. A kill switch stops the quoting where too much is lost.
--
-- How the parts hang together. OkxWsClient takes the frames off the bytes that it reads, answers
-- control frames, joins fragments and hands each message on; what it sends goes through a ring
-- buffer with one write in flight. Engine joins a private client with the members below and calls
-- them for each message, book, timer and signal. A WebSocket message is a text; util/json.cpp reads
-- its fields in place. A message of the "books" channel goes through ApplyBookMessage into the
-- OrderBook; one of the "orders" channel through ForEachOrderEvent and ApplyOrderEvent into the
-- OrderStore, which holds an Order per live order and drops it when it comes to its end.
-- ReconcileOrders compares the store with the REST answer of pending orders, which the timeout
-- monitor asks for when a request stays without an answer. Orders are checked against the risk
-- limits and the rate limits before they are sent.
--
--   Base          shared: numbers, lists, results, texts, arrays of slots, sorted lists, effects
--   Json          util/json.cpp and okx/common/response_utils.cpp: the scanner and its loops; Bounds and
--                 Stuck are about their termination, Rules carries invariants through them, Simulate
--                 relates two actions on the same text
--   Constants     okx/common/okx_constants.hpp
--   MarketData    okx/marketdata: PriceLevels and OrderBook for order_book.hpp and order_book.cpp, Messages
--                 for market_data.cpp, Sbe for sbe_bbo.cpp, Sources for sbe_bbo_source.cpp and
--                 json_book_source.cpp
--   Orders        okx/orders: Events for order_events.cpp, Lifecycle for order_lifecycle.cpp, Store for
--                 order_store.cpp, RoundTrip for ws_order_round_trip.cpp, of which ApplyOrderEvent is
--                 in Apply, Reconcile for reconciliation.cpp, Timeout for
--                 order_timeout_monitor.cpp, Requests for order_types.cpp and ws_orders.cpp, RestOrders for
--                 rest_orders.cpp
--   Connectivity  okx/connectivity: WsClient and ReadLoop for okx_ws_client.cpp, RateLimiter for
--                 rate_limiter.cpp, ResponseDemux for ws_response_demux.cpp, Heartbeat for heartbeat.cpp,
--                 Auth for auth.cpp, Instrument for instrument.cpp
--   Net           net: RingBuffer for ring_buffer.hpp, Reassembler for websocket_reassembler.hpp, Frame for
--                 websocket_frame.cpp, Control for websocket_control.cpp, Handshake for
--                 websocket_handshake.cpp
--   Perf          perf: Histogram for latency_histogram.cpp, Trace for tick_to_trade_trace.hpp, Stats for
--                 tick_to_trade_stats.cpp
--   Risk          okx/risk: Checks for risk.cpp, KillSwitch, Account for account_state.cpp, Position
--   Strategy      okx/strategy: Desk for the members and prices of naive_quoter, Quoter for what it does
--   Engine        okx/engine/engine.cpp: Messages and Events for its handlers, Run for any sequence of
--                 events; Safety, Halt and Loss are about the kill switch
--   Log           log/async_logger: Steps for the two threads
--
-- How the code is modelled. A text is the list of its bytes. A `double` is a value of any type with
-- the operations of the record Base.Double.Double, of which only the order is assumed to be lawful,
-- as it is where no value is NaN; strtod is its field `parse`, so that a text that it reads as NaN
-- is outside the model. A function that may throw returns a Result, and one that changes an object
-- and may throw half-way is an Effect: it returns the object as it then is, beside the result. A
-- pointer to an order is the index of its slot. An array is a list; a read outside it is an error,
-- and so are the order book's writes, so that a theorem that a call succeeds also says that those
-- stay inside the arrays. The other writes leave a list as it is outside, and the theorems about
-- them pin what the array then holds. The clock's reading is an argument; where a function reads it
-- several times, the readings are a function of the number of readings so far, as are the random
-- values. Calls of the transport and of the REST interface are lists, the latest first, and what
-- the other side answers is an argument; so is whether a call of the REST interface throws. The
-- callbacks of asio run one at a time, so that a run is a list of events. The logger's two threads
-- take their steps in any order; each access of a shared index is one step.
--
-- Bounds and fuel. Both binary searches take fuel of one more than the number of elements, since
-- each round leaves fewer of them. A loop over the elements or the fields of a text takes fuel of
-- one more than its length: a round over the fields passes at least the quotes of a key, and one
-- over the elements advances unless it stands at a closing brace, where the loop of the source
-- repeats on the same position until its action throws. The loop of ReadLoop over the frames has
-- one pass more than there are bytes: a frame takes at least one byte off, unless the sum of its
-- sizes wraps round. `FindHeader` has one pass more than the response has bytes; it needs no more,
-- since the response holds the end of its headers. `Write` of the ring buffer has the two passes
-- that its comment speaks of. A position is a number without a bound, since no text is as long as
-- 2^64. `long long` values are integers that ParseLL keeps in range; nothing is added to them.
--
-- Not modelled: sockets, TLS, HTTP and cryptography, which are third-party code; the text of log
-- lines and the ToString functions that serve them; configuration, bootstrapping and wiring; the
-- clocks.
pub mod Base
pub mod Connectivity
pub mod Constants
pub mod Engine
pub mod Json
pub mod Log
pub mod MarketData
pub mod Net
pub mod Orders
pub mod Perf
pub mod Risk
pub mod Strategy
