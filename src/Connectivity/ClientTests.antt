-- ===== src/Connectivity/ClientTests.antt =====
-- Runs of the WebSocket client at concrete inputs, and what its theorems say there.
use cpp_trading_engine.Base.{
  codes, ◌≡◌, ◌≤◌, ◌<◌, refl, true, none, some, List, [], ◌∷◌, Text, drop, ok, arith, subst,
}
use cpp_trading_engine.Base.Effects.{Effect}
use cpp_trading_engine.Base.Int.{ℤ}
use cpp_trading_engine.Connectivity.Instrument.{fetch_inst_id_code}
use cpp_trading_engine.Connectivity.ReadLoop.{on_read, on_reads, take_frames}
use cpp_trading_engine.Connectivity.ReadLoop.Chunks.{Sized, sized}
use cpp_trading_engine.Connectivity.ReadLoop.Split.{on_reads-joined, joined, seen}
use cpp_trading_engine.Connectivity.WsClient.{
  Outside, WsClient, make_client, tx_ring_capacity, write_raw,
}
use cpp_trading_engine.Connectivity.WsClient.Queue.{
  Run, connected, sends, Run-Sending, Sending, write_raw_fits,
}
use cpp_trading_engine.Net.Frame.{Frame, decode_frame, decode_frame_header, opcode_of}
use cpp_trading_engine.Net.Frame.Prefix.{Fits}
use cpp_trading_engine.Net.RingBuffer.Refine.{make_ring-Holds}

-- The payloads handled, the latest first
collect : Frame → Effect (List Text) (Unit {0})
collect frame seen = (frame.payload ∷ seen, ok tt)

-- Two text frames, cut in the middle of each header and payload.
abbrev two_frames : List Text
two_frames = (129 ∷ []) ∷ (2 ∷ 72 ∷ []) ∷ (105 ∷ 129 ∷ 1 ∷ []) ∷ (33 ∷ []) ∷ []

two_frames_read :
    seen collect (on_reads collect two_frames ([], []))
    ≡ ((some [], (33 ∷ []) ∷ (72 ∷ 105 ∷ []) ∷ []), ok tt)
unfolding on_reads on_read take_frames decode_frame decode_frame_header opcode_of collect
two_frames_read = refl

Sized-one :
    (bytes : Text) (frame : Frame)
    → decode_frame bytes ≡ ok (some frame)
    → Fits frame
    → Sized (drop frame.total_size bytes)
    → Sized bytes
Sized-one bytes frame e fits rest =
    sized (λ other f. subst Fits (same other f) fits)
      (λ other f. subst (λ (x : Frame). Sized (drop x.total_size bytes)) (same other f) rest)
  where
    same : (other : Frame) → decode_frame bytes ≡ ok (some other) → frame ≡ other
    same other f = cc

Sized-none : (bytes : Text) → decode_frame bytes ≡ ok none → Sized bytes
Sized-none bytes e = sized (λ other f. absurd (cc (e, f))) (λ other f. absurd (cc (e, f)))

two_frames-Sized : Sized (joined two_frames)
unfolding decode_frame decode_frame_header opcode_of
two_frames-Sized =
    Sized-one _ _ refl (omega arith) (Sized-one _ _ refl (omega arith) (Sized-none [] refl))

on_reads-joined_example :
    seen collect (on_reads collect two_frames ([], []))
    ≡ seen collect (on_read collect (joined two_frames) ([], []))
on_reads-joined_example = on_reads-joined collect two_frames [] two_frames-Sized

abbrev outside : Outside
outside = record {
  rand_key = λ n. some (1 ∷ 2 ∷ 3 ∷ 4 ∷ []);
  read_counter = λ n. n;
  steady_now = λ n. n;
  system_now = λ n. n;
  jitter = λ n m. 0;
}

positive : 0 < tx_ring_capacity
unfolding tx_ring_capacity
positive = omega arith

room : 2 ≤ tx_ring_capacity
unfolding tx_ring_capacity
room = omega arith

abbrev up_client : WsClient
up_client = record make_client { connected = true }

up_client-Run : Run outside [] [] 0 0 up_client
unfolding make_client
up_client-Run = connected refl refl refl (make_ring-Holds tx_ring_capacity positive)

-- Two bytes are queued, and a write of them is asked for.
sent : (d : WsClient) × (write_raw outside (7 ∷ 8 ∷ []) none up_client ≡ (d, ok tt))
sent =
    let (held, split, v) = Run-Sending outside up_client-Run in
    write_raw_fits outside held (7 ∷ 8 ∷ []) 0 none up_client v (rw (← split) room)

Run-Sending_example : (held : Text) × ((7 ∷ 8 ∷ []) ≡ held) × Sending outside held 0 sent.0
Run-Sending_example = Run-Sending outside (sends (7 ∷ 8 ∷ []) none up_client-Run sent.1)

reads_inst_id_code :
    fetch_inst_id_code (λ path. codes "{\"data\":[{\"instIdCode\":12}]}") (codes "ETH-USDT")
    ≡ ok (ℤ.pos 12)
unfolding fetch_inst_id_code
reads_inst_id_code = refl
