-- ===== src/Connectivity/ReadLoop/Chunks.antt =====
-- okx/connectivity/okx_ws_client.cpp: the loop of `ReadLoop` over the frames, and bytes without wrapped sizes.
use cpp_trading_engine.Base.{
  ℕ, zero, suc, ◌+◌, ◌^◌, ◌≡◌, ◌<◌, ◌≤◌, ◌⊎◌, refl, sym, ◌++◌, none, some, length, drop, Text,
  Result, Result-cases, Error, ok, err, arith, inl, inr, length-drop, drop-front, subst,
}
use cpp_trading_engine.Base.Effects.{Effect}
use cpp_trading_engine.Net.Frame.{FrameHeader, Frame, decode_frame, decode_frame_header}
use cpp_trading_engine.Net.Frame.Decode.{decode_frame-Lies}
use cpp_trading_engine.Net.Frame.Prefix.{
  Fits, decode_frame-front, decode_frame-front_err, decode_frame-front_header,
}
use cpp_trading_engine.Connectivity.ReadLoop.{Outcome, take_frames}

decode_frame-positive :
    (bytes : Text) (frame : Frame)
    → decode_frame bytes ≡ ok (some frame)
    → 0 < frame.header.header_size
unfolding decode_frame decode_frame_header
decode_frame-positive bytes frame e = ground arith

-- No frame that the loop comes to has sizes whose sum wraps round.
pub data Sized : Text → Type 0 where
  sized :
      {bytes : Text}
      → ((frame : Frame) → decode_frame bytes ≡ ok (some frame) → Fits frame)
      → ((frame : Frame)
          → decode_frame bytes ≡ ok (some frame)
          → Sized (drop frame.total_size bytes))
      → Sized bytes

pub sizes :
    (bytes : Text) (frame : Frame)
    → decode_frame bytes ≡ ok (some frame)
    → Sized bytes
    → Fits frame × Sized (drop frame.total_size bytes)
sizes bytes frame e (sized h k) = (h frame e, k frame e)

pub progress :
    (bytes : Text) (frame : Frame)
    → decode_frame bytes ≡ ok (some frame)
    → Fits frame
    → (0 < frame.total_size) × (frame.total_size ≤ length bytes)
progress bytes frame e h =
    let lies = decode_frame-Lies bytes frame e h in
    (rw lies.total (omega (arith, decode_frame-positive bytes frame e)), lies.inside)

module _ {S : Type 0} (handle_frame : Frame → Effect S (Unit {0})) where
  -- The loop as the source has it, without a bound: it ends when the bytes hold no whole frame, and
  -- when the bytes cannot be decoded or a handler throws.
  pub data Drains : Text → S → Outcome handle_frame → Type 0 where
    waits :
        {bytes : Text} {s : S} → decode_frame bytes ≡ ok none → Drains bytes s ((bytes, s), ok tt)
    broken :
        {bytes : Text} {s : S} {e : Error}
        → decode_frame bytes ≡ err e
        → Drains bytes s ((bytes, s), err e)
    throws :
        {bytes : Text} {s t : S} {e : Error} (frame : Frame)
        → decode_frame bytes ≡ ok (some frame)
        → handle_frame frame s ≡ (t, err e)
        → Drains bytes s ((bytes, t), err e)
    goes_on :
        {bytes : Text} {s t : S} {outcome : Outcome handle_frame} (frame : Frame)
        → decode_frame bytes ≡ ok (some frame)
        → handle_frame frame s ≡ (t, ok tt)
        → Drains (drop frame.total_size bytes) t outcome
        → Drains bytes s outcome

  handled :
      (r : S × Result (Unit {0})) → (t : S) × ((r ≡ (t, ok tt)) ⊎ ((e : Error) × (r ≡ (t, err e))))
  handled (t, ok done) = (t, inl refl)
  handled (t, err e) = (t, inr (e, refl))

  pub take_frames-Drains :
      (passes : ℕ) (bytes : Text) (s : S)
      → Sized bytes
      → length bytes < passes
      → Drains bytes s (take_frames handle_frame passes bytes s)
  unfolding take_frames
  take_frames-Drains zero bytes s z h = absurd (omega arith)
  take_frames-Drains (suc passes) bytes s z h = elim (Result-cases (decode_frame bytes)) [
    | inr (e, f) ↦ rw f (broken f)
    | inl (none, f) ↦ rw f (waits f)
    | inl (some frame, f) ↦
        let (fits, rest) = sizes bytes frame f z in
        let (positive, inside) = progress bytes frame f fits in
        let (t, outcome) = handled (handle_frame frame s) in
        elim outcome [
          | inr (e, g) ↦ rw (f, g) (throws frame f g)
          | inl g ↦
              rw (f, g)
                (goes_on frame f g (
                  take_frames-Drains passes (drop frame.total_size bytes) t rest
                    (omega (arith, length-drop frame.total_size bytes))))
        ]
  ]

  -- The function computes the outcome of the loop.
  pub Drains-take_frames :
      (passes : ℕ) {bytes : Text} {s : S} {outcome : Outcome handle_frame}
      → Drains bytes s outcome
      → Sized bytes
      → length bytes < passes
      → take_frames handle_frame passes bytes s ≡ outcome
  unfolding take_frames
  Drains-take_frames zero d z h = absurd (omega arith)
  Drains-take_frames (suc passes) (waits f) z h = rw f refl
  Drains-take_frames (suc passes) (broken f) z h = rw f refl
  Drains-take_frames (suc passes) (throws frame f g) z h = rw (f, g) refl
  Drains-take_frames (suc passes) {bytes} (goes_on frame f g d) z h =
      let (fits, rest) = sizes bytes frame f z in
      let (positive, inside) = progress bytes frame f fits in
      rw (f, g)
        (Drains-take_frames passes d rest (omega (arith, length-drop frame.total_size bytes)))

  -- What the outcome of the loop says of the same loop with `ys` behind the bytes: where it has come
  -- to wait for more, the loop goes on from there, and an exception comes all the same.
  abbrev pub Continues : Text → Text → S → Outcome handle_frame → Type 0
  Continues ys bytes s ((rest, t), ok done) =
      Sized (rest ++ ys)
      × (decode_frame rest ≡ ok none)
      × ((outcome : Outcome handle_frame)
          → Drains (rest ++ ys) t outcome
          → Drains (bytes ++ ys) s outcome)
  Continues ys bytes s ((rest, t), err e) = Drains (bytes ++ ys) s ((rest ++ ys, t), err e)

  -- A frame that more bytes leave as it is.
  record Stays (ys bytes : Text) (frame : Frame) : Type 0 where
    still : decode_frame (bytes ++ ys) ≡ ok (some frame)
    rest : drop frame.total_size (bytes ++ ys) ≡ drop frame.total_size bytes ++ ys
    fits : Fits frame
    later : Sized (drop frame.total_size bytes ++ ys)

  stays :
      (ys bytes : Text) (frame : Frame)
      → decode_frame bytes ≡ ok (some frame)
      → Sized (bytes ++ ys)
      → Stays ys bytes frame
  stays ys bytes frame f z =
      let (more, g, same) = decode_frame-front_header ys bytes frame f in
      let fits : Fits frame =
        subst (λ (x : FrameHeader). x.header_size + x.payload_length < 2 ^ 64) same
          (sizes (bytes ++ ys) more g z).0 in
      let still = decode_frame-front ys bytes frame f fits in
      let rest = drop-front ys bytes frame.total_size (progress bytes frame f fits).1 in
      record {
        still = still;
        rest = rest;
        fits = fits;
        later = subst Sized rest (sizes (bytes ++ ys) frame still z).1;
      }

  Continues-goes_on :
      (ys bytes : Text) (s t : S) (frame : Frame) (outcome : Outcome handle_frame)
      → Stays ys bytes frame
      → handle_frame frame s ≡ (t, ok tt)
      → Continues ys (drop frame.total_size bytes) t outcome
      → Continues ys bytes s outcome
  Continues-goes_on ys bytes s t frame ((rest, u), ok done) st g (z, w, k) =
      (z, w, λ o d. goes_on frame st.still g (subst (λ l. Drains l t o) (sym st.rest) (k o d)))
  Continues-goes_on ys bytes s t frame ((rest, u), err e) st g d =
      goes_on frame st.still g (subst (λ l. Drains l t ((rest ++ ys, u), err e)) (sym st.rest) d)

  pub Drains-Continues :
      (ys : Text) {bytes : Text} {s : S} {outcome : Outcome handle_frame}
      → Drains bytes s outcome
      → Sized (bytes ++ ys)
      → Continues ys bytes s outcome
  Drains-Continues ys (waits f) z = (z, f, λ o d. d)
  Drains-Continues ys (broken {bytes} {e = e} f) z = broken (decode_frame-front_err ys bytes e f)
  Drains-Continues ys (throws {bytes} frame f g) z = throws frame (stays ys bytes frame f z).still g
  Drains-Continues ys {bytes} {s} {outcome} (goes_on {t = t} frame f g d) z =
      let st = stays ys bytes frame f z in
      Continues-goes_on ys bytes s t frame outcome st g (Drains-Continues ys d st.later)
