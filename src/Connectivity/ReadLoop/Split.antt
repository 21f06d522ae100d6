-- ===== src/Connectivity/ReadLoop/Split.antt =====
-- okx/connectivity/okx_ws_client.cpp: `ReadLoop` on bytes that come in pieces and on the same at once.
use cpp_trading_engine.Base.{
  suc, ◌+◌, ◌^◌, ◌≡◌, ◌<◌, refl, sym, ap, ◌∙◌, List, [], ◌∷◌, ◌++◌, append_assoc, append-nil,
  Option, none, some, length, drop, Text, Result, ok, err, arith, drop-front, subst,
}
use cpp_trading_engine.Base.Effects.{Effect, resume}
use cpp_trading_engine.Net.Frame.{FrameHeader, Frame, decode_frame, decode_frame_header}
use cpp_trading_engine.Net.Frame.Prefix.{Fits, decode_frame-front, decode_frame-front_header}
use cpp_trading_engine.Connectivity.ReadLoop.{Outcome, on_read, on_reads}
use cpp_trading_engine.Connectivity.ReadLoop.Chunks.{
  Sized, sized, progress, Drains, waits, Continues, Drains-Continues, take_frames-Drains,
  Drains-take_frames,
}

abbrev pub joined : List Text → Text
joined [] = []
joined (chunk ∷ chunks) = chunk ++ joined chunks

front-Fits :
    {zs : Text} (xs ys : Text) (frame : Frame)
    → zs ≡ xs ++ ys
    → ((more : Frame) → decode_frame zs ≡ ok (some more) → Fits more)
    → decode_frame xs ≡ ok (some frame)
    → Fits frame
front-Fits xs ys frame e h f =
    let (more, g, same) = decode_frame-front_header ys xs frame f in
    subst (λ (x : FrameHeader). x.header_size + x.payload_length < 2 ^ 64) same (h more (rw e g))

Sized-front : {zs : Text} (xs ys : Text) → zs ≡ xs ++ ys → Sized zs → Sized xs
Sized-front xs ys e (sized {bytes} h k) =
    sized (λ frame f. front-Fits xs ys frame e h f)
      λ frame f.
        let fit = front-Fits xs ys frame e h f in
        let inside = (progress xs frame f fit).1 in
        let still : decode_frame bytes ≡ ok (some frame) =
          rw e (decode_frame-front ys xs frame f fit) in
        let tail : drop frame.total_size bytes ≡ drop frame.total_size xs ++ ys =
          rw e (drop-front ys xs frame.total_size inside) in
        Sized-front (drop frame.total_size xs) ys tail (k frame still)

module _ {S : Type 0} (handle_frame : Frame → Effect S (Unit {0})) where
  -- An outcome without the bytes left over by an exception
  abbrev pub seen : Outcome handle_frame → (Option Text × S) × Result (Unit {0})
  seen ((rest, s), ok done) = ((some rest, s), ok tt)
  seen ((rest, s), err e) = ((none, s), err e)

  -- The loop of a read ends, with the outcome that the loop of the source has.
  pub on_read-Drains :
      (chunk rx_buffer : Text) (s : S)
      → Sized (rx_buffer ++ chunk)
      → Drains handle_frame (rx_buffer ++ chunk) s (on_read handle_frame chunk (rx_buffer, s))
  unfolding on_read
  on_read-Drains chunk rx_buffer s z =
      take_frames-Drains handle_frame (suc (length (rx_buffer ++ chunk))) (rx_buffer ++ chunk) s z
        (omega arith)

  Drains-unique :
      {bytes : Text} {s : S} {a b : Outcome handle_frame}
      → Sized bytes
      → Drains handle_frame bytes s a
      → Drains handle_frame bytes s b
      → a ≡ b
  Drains-unique {bytes} z c d =
      sym (Drains-take_frames handle_frame (suc (length bytes)) c z (omega arith))
      ∙ Drains-take_frames handle_frame (suc (length bytes)) d z (omega arith)

  abbrev ReadsFrom : List Text → Type 0
  ReadsFrom chunks =
      (before : Text) (s : S) (once : Outcome handle_frame)
      → Sized (before ++ joined chunks)
      → decode_frame before ≡ ok none
      → Drains handle_frame (before ++ joined chunks) s once
      → seen (on_reads handle_frame chunks (before, s)) ≡ seen once

  after_read :
      (chunks : List Text) (bytes : Text) (s : S) (first once : Outcome handle_frame)
      → ReadsFrom chunks
      → Sized (bytes ++ joined chunks)
      → Continues handle_frame (joined chunks) bytes s first
      → Drains handle_frame (bytes ++ joined chunks) s once
      → seen (resume (λ _. on_reads handle_frame chunks) first) ≡ seen once
  after_read chunks bytes s ((rest, t), ok done) once ih z (y, w, k) d =
      let c =
        take_frames-Drains handle_frame (suc (length (rest ++ joined chunks)))
          (rest ++ joined chunks) t y (omega arith) in
      ih rest t _ y w c ∙ ap seen (Drains-unique z (k _ c) d)
  after_read chunks bytes s ((rest, t), err e) once ih z c d = ap seen (Drains-unique z c d)

  reads_from : (chunks : List Text) → ReadsFrom chunks
  unfolding on_reads
  reads_from [] before s once z w d =
      let alone : Drains handle_frame (before ++ []) s ((before, s), ok tt) =
        rw (append-nil before) (waits w) in
      ap seen (Drains-unique z alone d)
  reads_from (chunk ∷ chunks) before s once z w d =
      let z' : Sized ((before ++ chunk) ++ joined chunks) =
        rw (append_assoc before chunk (joined chunks)) z in
      let front = Sized-front (before ++ chunk) (joined chunks) refl z' in
      after_read chunks (before ++ chunk) s (on_read handle_frame chunk (before, s)) once
        (reads_from chunks) z'
        (Drains-Continues handle_frame (joined chunks) (on_read-Drains chunk before s front) z')
        (rw (append_assoc before chunk (joined chunks)) d)

  nothing : decode_frame [] ≡ ok none
  unfolding decode_frame decode_frame_header
  nothing = refl

  -- A fresh connection that receives bytes in any number of reads, cut anywhere, handles the frames
  -- as it would if all came in one read: the same handler calls in the same order with the same
  -- effect, the same exception if there is one, and the same bytes kept for later if there is none.
  -- The condition is that no frame says sizes whose 64-bit sum wraps round.
  pub on_reads-joined :
      (chunks : List Text) (s : S)
      → Sized (joined chunks)
      → seen (on_reads handle_frame chunks ([], s))
        ≡ seen (on_read handle_frame (joined chunks) ([], s))
  on_reads-joined chunks s z =
      reads_from chunks [] s _ z nothing (on_read-Drains (joined chunks) [] s z)
