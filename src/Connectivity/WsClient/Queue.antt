-- ===== src/Connectivity/WsClient/Queue.antt =====
-- okx/connectivity/okx_ws_client.cpp: the bytes given to send, and those that the transport has taken.
use cpp_trading_engine.Base.{
  ℕ, ◌+◌, ◌-◌, ◌≡◌, ◌≤◌, min, refl, sym, ap, ◌∙◌, subst, Bool, true, false, ◌||◌, Option, List, [],
  ◌∷◌, ◌++◌, append_assoc, if◌then◌else◌, ◌==◌, length, take, drop, Text, Result, ok, arith, inl,
  inr, length-take, length-append, take-append-drop, take-front, take-take, if-both,
}
use cpp_trading_engine.Connectivity.WsClient.{
  Outside, WsClient, tx_ring_capacity, begin_batch, end_batch, start_write, on_write, write_raw,
  with_trace,
}
use cpp_trading_engine.Net.RingBuffer.{RingBuffer, commit_read}
use cpp_trading_engine.Net.RingBuffer.Refine.{
  Holds, write_bytes-append, readable-take, commit_read-drop,
}
use cpp_trading_engine.Perf.Trace.{TickToTradeTrace}

-- The region of the latest call of `AsyncWrite`
abbrev pub latest : List Text → Text
latest [] = []
latest (region ∷ regions) = region

abbrev pub one_if : Bool → ℕ
one_if true = 1
one_if false = 0

-- The part of the client that sending works on
abbrev SamePart : WsClient → WsClient → Type 0
SamePart c d =
    (c.connected ≡ d.connected)
    × (c.tx_ring ≡ d.tx_ring)
    × (c.write_in_flight ≡ d.write_in_flight)
    × (c.batching ≡ d.batching)
    × (c.writes ≡ d.writes)

module _ (o : Outside) where
  -- A connection, in the bytes queued since it began, the bytes that the transport has reported as
  -- written, and the numbers of the writes asked for before and of the writes completed since. A
  -- completed write is the one in flight and may be of a part of its region.
  pub data Run : Text → Text → ℕ → ℕ → WsClient → Type 0 where
    connected :
        {c : WsClient}
        → c.connected ≡ true
        → c.write_in_flight ≡ false
        → c.batching ≡ false
        → Holds tx_ring_capacity [] c.tx_ring
        → Run [] [] (length c.writes) 0 c
    sends :
        {asked taken : Text} {before done : ℕ} {c d : WsClient} (frame : Text)
        (trace : Option TickToTradeTrace)
        → Run asked taken before done c
        → write_raw o frame trace c ≡ (d, ok tt)
        → Run (asked ++ frame) taken before done d
    begins :
        {asked taken : Text} {before done : ℕ} {c : WsClient}
        → Run asked taken before done c
        → Run asked taken before done (begin_batch c)
    ends :
        {asked taken : Text} {before done : ℕ} {c : WsClient}
        → Run asked taken before done c
        → Run asked taken before done (end_batch o c)
    completes :
        {asked taken : Text} {before done : ℕ} {c : WsClient} (n : ℕ)
        → Run asked taken before done c
        → c.write_in_flight ≡ true
        → n ≤ length (latest c.writes)
        → Run asked (taken ++ take n (latest c.writes)) before (done + 1) (on_write o n c)
    others :
        {asked taken : Text} {before done : ℕ} {c d : WsClient}
        → Run asked taken before done c
        → SamePart c d
        → Run asked taken before done d

  -- The bytes `held` are queued and not yet written; a write in flight is of bytes at their front.
  pub record Sending (held : Text) (issued : ℕ) (c : WsClient) : Type 0 where
    pub up : c.connected ≡ true
    pub ring : Holds tx_ring_capacity held c.tx_ring
    pub front :
        c.write_in_flight ≡ true → (k : ℕ) × (latest c.writes ≡ take k held) × (k ≤ length held)
    pub idle : c.write_in_flight ≡ false → c.batching ≡ false → held ≡ []
    pub single : length c.writes ≡ issued + one_if c.write_in_flight

  start_write-Sending :
      (held : Text) (issued : ℕ) (c : WsClient)
      → c.connected ≡ true
      → Holds tx_ring_capacity held c.tx_ring
      → length c.writes ≡ issued
      → Sending held issued (start_write o c)
  unfolding start_write
  start_write-Sending held issued c up ring e =
      let (region, some) = readable-take tx_ring_capacity held c.tx_ring ring in
      rw up record {
        up = refl;
        ring = ring;
        front =
            λ _. (min (length held) (tx_ring_capacity - c.tx_ring.read_pos), region, omega arith);
        idle = λ f. cc;
        single = omega (arith, e);
      }

  write_raw-Sending :
      (held frame : Text) (issued : ℕ) (trace : Option TickToTradeTrace) (c d : WsClient)
      → Sending held issued c
      → write_raw o frame trace c ≡ (d, ok tt)
      → Sending (held ++ frame) issued d
  unfolding write_raw
  write_raw-Sending held frame issued trace c d v e =
      elim (write_bytes-append tx_ring_capacity held frame c.tx_ring v.ring) [
        | inr (full, f) ↦ absurd (cc (rw f at e))
        | inl (room, (q, f, h)) ↦
            let kept = record c {
              tx_ring = q;
              pending_send_traces = with_trace trace c.pending_send_traces;
            } in
            let busy = c.write_in_flight || c.batching in
            let answer : (WsClient × Result (Unit {0})) =
              (if busy then kept else start_write o kept, ok tt) in
            let same : answer ≡ (d, ok tt) = rw f at e in
            let next : Sending (held ++ frame) issued (if busy then kept else start_write o kept) =
              if-both (Sending (held ++ frame) issued) busy kept (start_write o kept)
                (λ b. record {
                  up = v.up;
                  ring = h;
                  front = λ flying.
                      let (k, region, inside) = v.front flying in
                      (
                        k,
                        region ∙ sym (take-front frame held k inside),
                        omega (arith, inside, length-append held frame),
                      );
                  idle = λ p q. absurd (ground arith);
                  single = v.single;
                })
                (λ b.
                  start_write-Sending (held ++ frame) issued kept v.up h
                    (omega (arith, v.single, ap one_if (idle_of b)))) in
            subst (Sending (held ++ frame) issued)
              (ap (λ (x : WsClient × Result (Unit {0})). x.0) same) next
      ]
    where
      idle_of : c.write_in_flight || c.batching ≡ false → c.write_in_flight ≡ false
      idle_of b = ground arith

  on_write-Sending :
      (held : Text) (issued n : ℕ) (c : WsClient)
      → Sending held issued c
      → c.write_in_flight ≡ true
      → n ≤ length (latest c.writes)
      → (take n (latest c.writes) ≡ take n held)
        × Sending (drop n held) (issued + 1) (on_write o n c)
  unfolding on_write
  on_write-Sending held issued n c v flying h =
      let (k, region, inside) = v.front flying in
      let short : n ≤ k = omega (arith, ap length region, length-take k held) in
      let ring =
        commit_read-drop tx_ring_capacity held n c.tx_ring v.ring (omega (arith, inside)) in
      let q = commit_read tx_ring_capacity n c.tx_ring in
      let kept = record c { tx_ring = q } in
      let count : length c.writes ≡ issued + 1 = omega (arith, v.single, ap one_if flying) in
      (
        ap (take n) region ∙ take-take n k held short,
        if-both (Sending (drop n held) (issued + 1)) (q.size == 0)
            (record kept { write_in_flight = false }) (start_write o kept)
            (λ e. record {
              up = v.up;
              ring = ring;
              front = λ f. cc;
              idle = λ f b. nothing_left (drop n held) q ring e;
              single = omega (arith, count);
            })
            (λ e. start_write-Sending (drop n held) (issued + 1) kept v.up ring count),
      )
    where
      nothing_left :
          (xs : Text) (q : RingBuffer)
          → Holds tx_ring_capacity xs q
          → (q.size == 0) ≡ true
          → xs ≡ []
      nothing_left [] q ring e = refl
      nothing_left (x ∷ xs) q ring e = absurd (ground (arith, ring.counted))

  end_batch-Sending :
      (held : Text) (issued : ℕ) (c : WsClient)
      → Sending held issued c
      → Sending held issued (end_batch o c)
  unfolding end_batch
  end_batch-Sending held issued c v =
      let ended = record c { batching = false } in
      if-both (Sending held issued) c.write_in_flight ended (start_write o ended)
        (λ f. record {
          up = v.up;
          ring = v.ring;
          front = v.front;
          idle = λ p q. absurd (cc (f, p));
          single = v.single;
        })
        (λ f.
          start_write-Sending held issued ended v.up v.ring (omega (arith, v.single, ap one_if f)))

  SamePart-Sending :
      (held : Text) (issued : ℕ) (c d : WsClient)
      → SamePart c d
      → Sending held issued c
      → Sending held issued d
  SamePart-Sending held issued c d (up, ring, flying, batching, writes) v = record {
    up = sym up ∙ v.up;
    ring = subst (Holds tx_ring_capacity held) ring v.ring;
    front = λ f.
        subst (λ w. (k : ℕ) × (latest w ≡ take k held) × (k ≤ length held)) writes
          (v.front (flying ∙ f));
    idle = λ f b. v.idle (flying ∙ f) (batching ∙ b);
    single = sym (ap length writes) ∙ v.single ∙ ap (λ b. issued + one_if b) flying;
  }

  -- On a connection, whatever is sent, batched or not, and however much each write takes: the
  -- transport gets the queued bytes in the order in which they were queued, each once; there is one
  -- write in flight at a time, of bytes that come next; and when none is and no batch is open,
  -- nothing queued is left behind.
  pub Run-Sending :
      {asked taken : Text} {before done : ℕ} {c : WsClient}
      → Run asked taken before done c
      → (held : Text) × (asked ≡ taken ++ held) × Sending held (before + done) c
  Run-Sending (connected {c} up idle closed ring) = (
    [],
    refl,
    record {
      up = up;
      ring = ring;
      front = λ f. absurd (cc (idle, f));
      idle = λ f b. refl;
      single = omega (arith, ap one_if idle);
    },
  )
  Run-Sending (sends {taken = taken} {c = c} {d = d} frame trace r e) =
      let (held, split, v) = Run-Sending r in
      (
        held ++ frame,
        ap (λ l. l ++ frame) split ∙ append_assoc taken held frame,
        write_raw-Sending held frame _ trace c d v e,
      )
  Run-Sending (begins r) =
      let (held, split, v) = Run-Sending r in
      (
        held,
        split,
        record { up = v.up; ring = v.ring; front = v.front; idle = λ f b. cc; single = v.single },
      )
  Run-Sending (ends {c = c} r) =
      let (held, split, v) = Run-Sending r in (held, split, end_batch-Sending held _ c v)
  Run-Sending (completes {taken = taken} {before} {done} {c} n r flying h) =
      let (held, split, v) = Run-Sending r in
      let (bytes, w) = on_write-Sending held (before + done) n c v flying h in
      (
        drop n held,
        split
            ∙ ap (λ l. taken ++ l) (sym (take-append-drop n held))
            ∙ sym (append_assoc taken (take n held) (drop n held))
            ∙ ap (λ l. (taken ++ l) ++ drop n held) (sym bytes),
        subst (λ k. Sending (drop n held) k (on_write o n c)) (omega arith) w,
      )
  Run-Sending (others {c = c} {d = d} r same) =
      let (held, split, v) = Run-Sending r in (held, split, SamePart-Sending held _ c d same v)

  -- A frame for which there is room in the ring is taken.
  pub write_raw_fits :
      (held frame : Text) (issued : ℕ) (trace : Option TickToTradeTrace) (c : WsClient)
      → Sending held issued c
      → length held + length frame ≤ tx_ring_capacity
      → (d : WsClient) × (write_raw o frame trace c ≡ (d, ok tt))
  unfolding write_raw
  write_raw_fits held frame issued trace c v h =
      elim (write_bytes-append tx_ring_capacity held frame c.tx_ring v.ring) [
        | inr (full, f) ↦ absurd (omega (arith, full))
        | inl (room, (q, f, g)) ↦ rw f (_, refl)
      ]
