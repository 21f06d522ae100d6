-- ===== src/Strategy/Quoter/Batch.antt =====
-- okx/strategy/naive_quoter.cpp: the messages of one `Requote`.
use cpp_trading_engine.Base.{
  ℕ, ◌≡◌, Bool, ◌∷◌, Error, true, false, ◌||◌, if-both, Option, none, some, Text, Result, ok, err,
  arith,
}
use cpp_trading_engine.Base.Double.{Double}
use cpp_trading_engine.Base.Effects.{Effect, ◌>>=◌}
use cpp_trading_engine.Base.Keeps.{Keeps, Keeps-modify, keeps_rules}
use cpp_trading_engine.Connectivity.WsClient.{
  Outside, WsClient, with_trace, queued, write_raw, write_encoded, start_write, end_batch, send,
  draw, key_of, tx_ring_capacity,
}
use cpp_trading_engine.Net.Frame.{encode_frame, text}
use cpp_trading_engine.Net.RingBuffer.{RingBuffer, write_bytes, readable}
use cpp_trading_engine.Orders.Lifecycle.{Order}
use cpp_trading_engine.Orders.Store.{OrderStore}
use cpp_trading_engine.Perf.Trace.{TickToTradeTrace}
use cpp_trading_engine.Strategy.Desk.{Side, Desk}
use cpp_trading_engine.Strategy.Quoter.{
  Floor, stamp, next_id, with_client, set_mid, acquire, put_store, add_to_store, send_message,
  set_slot, request_amend,
}

-- A batch is open, and no write has been asked for since `start`.
abbrev InBatch : WsClient → WsClient → Type 0
InBatch start c =
    (c.batching ≡ true)
    × (c.writes ≡ start.writes)
    × (c.connected ≡ start.connected)
    × (c.write_in_flight ≡ start.write_in_flight)

-- What a requote that starts at the client `start` has asked of the transport: nothing where it
-- throws, nothing where a write is in flight or there is no connection, and else one write, of all
-- that its ring then holds.
pub data Written (start : WsClient) : WsClient → Result (Unit {0}) → Type 0 where
  thrown : {c : WsClient} → (e : Error) → c.writes ≡ start.writes → Written start c (err e)
  in_flight :
      {c : WsClient}
      → start.write_in_flight ≡ true
      → c.writes ≡ start.writes
      → Written start c (ok tt)
  offline :
      {c : WsClient}
      → start.write_in_flight ≡ false
      → start.connected ≡ false
      → c.writes ≡ start.writes
      → Written start c (ok tt)
  together :
      {c : WsClient}
      → start.write_in_flight ≡ false
      → start.connected ≡ true
      → c.writes ≡ readable tx_ring_capacity c.tx_ring ∷ start.writes
      → Written start c (ok tt)

module _ (o : Outside) (start : WsClient) where
  queued-InBatch :
      (trace : Option TickToTradeTrace) (c : WsClient) (r : Result RingBuffer)
      → InBatch start c
      → InBatch start (queued o trace c r).0
  queued-InBatch trace c (err e) p = p
  queued-InBatch trace c (ok ring) (b, w, l, f) =
      let kept = record c {
        tx_ring = ring;
        pending_send_traces = with_trace trace c.pending_send_traces;
      } in
      if-both (InBatch start) (c.write_in_flight || c.batching) kept (start_write o kept)
        (λ e. (b, w, l, f)) (λ e. absurd (cc (not_open c.write_in_flight c.batching e, b)))
    where
      not_open : (a b : Bool) → a || b ≡ false → b ≡ false
      not_open a b e = ground arith

  send-InBatch :
      (payload : Text) (trace : Option TickToTradeTrace) (c : WsClient)
      → InBatch start c
      → InBatch start (send o payload trace c).0
  unfolding send write_raw
  send-InBatch payload trace c p = encoded (encode_frame (key_of o c) text payload)
    where
      encoded : (r : Result Text) → InBatch start (write_encoded o trace (draw c) r).0
      encoded (err e) = p
      encoded (ok frame) =
          queued-InBatch trace (draw c) (write_bytes tx_ring_capacity frame c.tx_ring) p

module _ (d : Double) (o : Outside) (round : d.Val → d.Val) (to_chars : ℕ → d.Val → Text)
    (start : WsClient) where
  open d use {Val}

  abbrev FloorInBatch : Floor d o round to_chars → Type 0
  FloorInBatch (c, k) = InBatch start c

  stamp-InBatch :
      (mark : ℕ → Option TickToTradeTrace → Option TickToTradeTrace)
      (trace : Option TickToTradeTrace)
      → Keeps FloorInBatch (stamp d o round to_chars mark trace)
  stamp-InBatch mark none = record { keeps = λ s p. p }
  stamp-InBatch mark (some trace) = record { keeps = λ s p. p }

  acquire-InBatch : (op : Text) → Keeps FloorInBatch (acquire d o round to_chars op)
  acquire-InBatch op = record { keeps = λ s p. p }

  next_id-InBatch : Keeps FloorInBatch (next_id d o round to_chars)
  next_id-InBatch = record { keeps = λ s p. p }

  send_message-InBatch :
      (message : Text) (trace : Option TickToTradeTrace)
      → Keeps FloorInBatch (send_message d o round to_chars message trace)
  send_message-InBatch message trace = record {
    keeps = λ (c, k) p. send-InBatch o start message trace c p;
  }

  add_to_store-InBatch :
      (id : Text) (side : Side) (px : Text)
      → Keeps FloorInBatch (add_to_store d o round to_chars id side px)
  add_to_store-InBatch id side px = record { keeps = λ (c, k) p. stored_at (draw c, k) _ p }
    where
      stored_at :
          (s : Floor d o round to_chars) (r : Result OrderStore)
          → FloorInBatch s
          → FloorInBatch (put_store d o round to_chars s r).0
      stored_at s (err e) p = p
      stored_at (c, k) (ok store) p = p

  request_amend-InBatch :
      (i : ℕ) (order : Order) → Keeps FloorInBatch (request_amend d o round to_chars i order)
  request_amend-InBatch i order = record { keeps = λ s p. p }

  set_slot-InBatch :
      (side : Side) (id : Option Text) → Keeps FloorInBatch (set_slot d o round to_chars side id)
  set_slot-InBatch side id = Keeps-modify _ (λ s p. p)

  ruleset batch_rules = (
    keeps_rules, stamp-InBatch, acquire-InBatch, next_id-InBatch, send_message-InBatch,
    add_to_store-InBatch, request_amend-InBatch, set_slot-InBatch,
  )

  -- What the floor and the result of a requote say of its client.
  abbrev FloorWritten : Floor d o round to_chars × Result (Unit {0}) → Type 0
  FloorWritten ((c, k), r) = Written start c r

  abbrev last_part : Val → Unit {0} → Effect (Floor d o round to_chars) (Unit {0})
  last_part mid done =
      with_client d o round to_chars (end_batch o) >>= λ ended. set_mid d o round to_chars mid
