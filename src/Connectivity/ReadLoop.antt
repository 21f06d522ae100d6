-- ===== src/Connectivity/ReadLoop.antt =====
-- okx/connectivity/okx_ws_client.cpp: the bytes received and the loop of `ReadLoop` that takes frames off
-- them. The state is the pair of `rx_buffer_` and what `HandleFrame` works on, which is of any type: no
-- handler reaches the buffer. The passes of the loop are bounded by the bytes at hand and one more.
pub mod Chunks
pub mod Split
use cpp_trading_engine.Base.{
  ℕ, zero, suc, ◌++◌, List, [], ◌∷◌, Option, none, some, length, drop, Text, Result, ok, err,
  out_of_fuel,
}
use cpp_trading_engine.Base.Effects.{Effect, resume}
use cpp_trading_engine.Net.Frame.{Frame, decode_frame}

module _ {S : Type 0} (handle_frame : Frame → Effect S (Unit {0})) where
  abbrev pub Outcome : Type 0
  Outcome = (Text × S) × Result (Unit {0})

  -- A frame is erased after its handler, and stays where that throws.
  abbrev after_frame : (Text → S → Outcome) → Text → Frame → S × Result (Unit {0}) → Outcome
  after_frame again bytes frame (s, err e) = ((bytes, s), err e)
  after_frame again bytes frame (s, ok done) = again (drop frame.total_size bytes) s

  abbrev decoded : (Text → S → Outcome) → Text → S → Result (Option Frame) → Outcome
  decoded again bytes s (err e) = ((bytes, s), err e)
  decoded again bytes s (ok none) = ((bytes, s), ok tt)
  decoded again bytes s (ok (some frame)) = after_frame again bytes frame (handle_frame frame s)

  -- The inner loop
  unfoldable pub take_frames : ℕ → Text → S → Outcome
  unfolding decode_frame
  take_frames zero bytes s = ((bytes, s), err out_of_fuel)
  take_frames (suc passes) bytes s = decoded (take_frames passes) bytes s (decode_frame bytes)

  -- What the completion of a read does with the bytes read
  unfoldable pub on_read : Text → Effect (Text × S) (Unit {0})
  unfolding take_frames
  on_read chunk (rx_buffer, s) =
      take_frames (suc (length (rx_buffer ++ chunk))) (rx_buffer ++ chunk) s

  -- One read after another, up to an exception
  unfoldable pub on_reads : List Text → Effect (Text × S) (Unit {0})
  unfolding on_read
  on_reads [] t = (t, ok tt)
  on_reads (chunk ∷ chunks) t = resume (λ _. on_reads chunks) (on_read chunk t)
