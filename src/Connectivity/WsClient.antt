-- ===== src/Connectivity/WsClient.antt =====
-- okx/connectivity/okx_ws_client: the client of one WebSocket. What lies outside is an argument: the keys
-- that `RAND_bytes` makes, the readings of the clocks and the jitter of the reconnection delay, each the
-- one of number `draws`. The calls of the transport and of the timers are kept in lists, the latest
-- first. `rx_buffer_` stands beside the client, in ReadLoop. A completion of an operation on a
-- transport that is gone is an error to the source, which is `schedule_reconnect`.
pub mod Handle
pub mod Queue
use cpp_trading_engine.Base.{
  ℕ, ◌+◌, ◌*◌, ◌^◌, min, Bool, true, false, ◌||◌, Option, none, some, List, [], ◌∷◌, ◌++◌, map,
  if◌then◌else◌, ◌==◌, Text, Result, ok, err, ◌>>=◌,
}
use cpp_trading_engine.Base.Effects.{Effect, resume}
use cpp_trading_engine.Connectivity.Heartbeat.{encode_okx_ping}
use cpp_trading_engine.Net.Frame.{text, encode_frame}
use cpp_trading_engine.Net.Reassembler.{Reassembler, make_reassembler}
use cpp_trading_engine.Net.RingBuffer.{
  RingBuffer, make_ring, write_bytes, readable, commit_read, reset,
}
use cpp_trading_engine.Perf.Trace.{TickToTradeTrace}

pub data WsEndpointKind : Type 0 where
  json sbe : WsEndpointKind

pub record Outside : Type 0 where
  pub rand_key : ℕ → Option Text
  pub read_counter : ℕ → ℕ
  -- The steady clock, and the system's in milliseconds.
  pub steady_now : ℕ → ℕ
  pub system_now : ℕ → ℕ
  -- A number of the uniform distribution from 0 to the second argument.
  pub jitter : ℕ → ℕ → ℕ

pub record WsClient : Type 0 where
  pub connected : Bool
  pub authenticated : Bool
  pub reconnect_attempt : ℕ
  pub last_message_arrival_ticks : ℕ
  pub last_message_decoded_ticks : ℕ
  pub tx_ring : RingBuffer
  pub write_in_flight : Bool
  pub batching : Bool
  pub reassembler : Reassembler
  pub pending_send_traces : List TickToTradeTrace
  pub draws : ℕ
  pub writes : List Text
  pub resolved : List TickToTradeTrace
  pub delays : List ℕ
  pub heartbeat_set : Bool

-- `kMaxMessageSize` and `kTxRingCapacity`; shut, so that nothing lays out the arrays.
unfoldable pub max_message_size : ℕ
max_message_size = 2 ^ 20

unfoldable pub tx_ring_capacity : ℕ
tx_ring_capacity = 2 ^ 14

unfoldable pub make_client : WsClient
unfolding max_message_size tx_ring_capacity
make_client = record {
  connected = false;
  authenticated = false;
  reconnect_attempt = 0;
  last_message_arrival_ticks = 0;
  last_message_decoded_ticks = 0;
  tx_ring = make_ring tx_ring_capacity;
  write_in_flight = false;
  batching = false;
  reassembler = make_reassembler max_message_size;
  pending_send_traces = [];
  draws = 0;
  writes = [];
  resolved = [];
  delays = [];
  heartbeat_set = false;
}

abbrev pub draw : WsClient → WsClient
draw c = record c { draws = c.draws + 1 }

-- `BeginBatch`
abbrev pub begin_batch : WsClient → WsClient
begin_batch c = record c { batching = true }

-- `kMaxBackoff` and `kBaseBackoff`, in milliseconds
abbrev pub backoff_cap : ℕ → ℕ
backoff_cap attempt = min 30000 (500 * 2 ^ min attempt 10)

-- The loop that empties `pending_send_traces_`, with the traces handed to the listener
abbrev pub resolve_traces :
    ℕ → List TickToTradeTrace → List TickToTradeTrace → List TickToTradeTrace
resolve_traces ticks [] resolved = resolved
resolve_traces ticks (trace ∷ traces) resolved =
    resolve_traces ticks traces (record trace { send_ticks = ticks } ∷ resolved)

abbrev pub with_trace : Option TickToTradeTrace → List TickToTradeTrace → List TickToTradeTrace
with_trace none traces = traces
with_trace (some trace) traces = traces ++ (trace ∷ [])

module _ (o : Outside) where
  abbrev pub key_of : WsClient → Option Text
  key_of c = o.rand_key c.draws

  abbrev pub ticks_of : WsClient → ℕ
  ticks_of c = o.read_counter c.draws

  -- `ComputeBackoff`
  abbrev pub compute_backoff : WsClient → ℕ
  compute_backoff c = o.jitter c.draws (backoff_cap c.reconnect_attempt)

  -- `ScheduleReconnect`
  unfoldable pub schedule_reconnect : WsClient → WsClient
  unfolding reset
  schedule_reconnect c = record c {
    connected = false;
    authenticated = false;
    heartbeat_set = false;
    tx_ring = reset c.tx_ring;
    write_in_flight = false;
    delays = compute_backoff c ∷ c.delays;
    draws = c.draws + 1;
    reconnect_attempt = c.reconnect_attempt + 1;
  }

  -- `StartWrite`
  unfoldable pub start_write : WsClient → WsClient
  unfolding readable tx_ring_capacity
  start_write c =
      if c.connected
      then record c {
        pending_send_traces = [];
        resolved = resolve_traces (ticks_of c) c.pending_send_traces c.resolved;
        draws = c.draws + 1;
        write_in_flight = true;
        writes = readable tx_ring_capacity c.tx_ring ∷ c.writes;
      }
      else c

  -- The completion of a write of `n` bytes; one with an error is `schedule_reconnect`.
  unfoldable pub on_write : ℕ → WsClient → WsClient
  unfolding commit_read start_write tx_ring_capacity
  on_write n c =
      let ring = commit_read tx_ring_capacity n c.tx_ring in
      let committed = record c { tx_ring = ring } in
      if ring.size == 0 then record committed { write_in_flight = false } else start_write committed

  abbrev pub queued :
      Option TickToTradeTrace → WsClient → Result RingBuffer → WsClient × Result (Unit {0})
  queued trace c (err e) = (c, err e)
  queued trace c (ok ring) =
      let held = record c {
        tx_ring = ring;
        pending_send_traces = with_trace trace c.pending_send_traces;
      } in
      (if c.write_in_flight || c.batching then held else start_write held, ok tt)

  -- `WriteRaw`
  unfoldable pub write_raw : Text → Option TickToTradeTrace → Effect WsClient (Unit {0})
  unfolding write_bytes start_write tx_ring_capacity
  write_raw frame trace c = queued trace c (write_bytes tx_ring_capacity frame c.tx_ring)

  -- `EndBatch`
  unfoldable pub end_batch : WsClient → WsClient
  unfolding start_write
  end_batch c =
      let ended = record c { batching = false } in
      if c.write_in_flight then ended else start_write ended

  abbrev pub write_encoded :
      Option TickToTradeTrace → WsClient → Result Text → WsClient × Result (Unit {0})
  write_encoded trace c (err e) = (c, err e)
  write_encoded trace c (ok frame) = write_raw frame trace c

  -- `Send`
  unfoldable pub send : Text → Option TickToTradeTrace → Effect WsClient (Unit {0})
  unfolding encode_frame write_raw
  send payload trace c = write_encoded trace (draw c) (encode_frame (key_of c) text payload)

  -- `ScheduleHeartbeat`
  abbrev pub schedule_heartbeat : WsEndpointKind → WsClient → WsClient
  schedule_heartbeat sbe c = c
  schedule_heartbeat json c = record c { heartbeat_set = true }

  -- What the heartbeat timer does when it goes off
  unfoldable pub on_heartbeat : WsEndpointKind → Effect WsClient (Unit {0})
  unfolding encode_okx_ping write_raw
  on_heartbeat kind c =
      resume (λ _ t. (schedule_heartbeat kind t, ok tt))
        (write_encoded none (draw (record c { heartbeat_set = false }))
          (encode_okx_ping (key_of c)))
