-- ===== src/Net/Frame/Decode.antt =====
-- What `DecodeFrame` hands out, and where the length of the payload is too large for a 64-bit sum.
use cpp_trading_engine.Base.{
  ◌+◌, ◌%◌, ◌^◌, ◌≡◌, ◌<◌, ◌≤◌, refl, ◌∙◌, subst, false, Bool-cases, some, none, ltb, length, drop,
  take, Text, Result-cases, ok, arith, inl, inr, Option, some_inj, length-take, length-drop,
}
use cpp_trading_engine.Net.Frame.{
  FrameHeader, Frame, decode_frame_header, decode_frame, decode_with, decode_payload,
}
use native.Mathlib.Nat.{mod-eq_of_lt}

-- A frame lies in the bytes it was read from.
pub record Lies (bytes : Text) (frame : Frame) : Type 0 where
  pub total : frame.total_size ≡ frame.header.header_size + frame.header.payload_length
  pub inside : frame.total_size ≤ length bytes
  pub whole : length frame.payload ≡ frame.header.payload_length
  pub slice : frame.payload ≡ take frame.header.payload_length (drop frame.header.header_size bytes)

payload-Lies :
    (bytes : Text) (header : FrameHeader) (frame : Frame)
    → decode_payload bytes header ≡ some frame
    → header.header_size + header.payload_length < 2 ^ 64
    → (frame.header ≡ header) × Lies bytes frame
payload-Lies bytes header frame e h =
    let total = header.header_size + header.payload_length in
    let m : total % 2 ^ 64 ≡ total = mod-eq_of_lt h in
    elim (Bool-cases (ltb (length bytes) total)) [
      | inl b ↦ absurd (cc (rw (m, b) at e))
      | inr b ↦
          let found : Frame = record {
            header = header;
            payload = take header.payload_length (drop header.header_size bytes);
            total_size = total;
          } in
          let q : found ≡ frame = some_inj found frame (rw (m, b) at e) in
          let k : total ≤ length bytes = ground arith in
          rw⁻¹ q (
            refl,
            record {
              total = refl;
              inside = k;
              whole =
                  length-take header.payload_length (drop header.header_size bytes)
                  ∙ omega (arith, length-drop header.header_size bytes);
              slice = refl;
            },
          )
    ]

decode_with-Lies :
    (bytes : Text) (found : Option FrameHeader) (frame : Frame)
    → decode_with bytes found ≡ some frame
    → frame.header.header_size + frame.header.payload_length < 2 ^ 64
    → Lies bytes frame
decode_with-Lies bytes none frame e h = cc
decode_with-Lies bytes (some header) frame e h =
    let q = header_kept bytes header frame e in
    (payload-Lies bytes header frame e
      (subst (λ (x : FrameHeader). x.header_size + x.payload_length < 2 ^ 64) q h)).1
  where
    header_kept :
        (bytes : Text) (header : FrameHeader) (frame : Frame)
        → decode_payload bytes header ≡ some frame
        → frame.header ≡ header
    header_kept bytes header frame e = ground arith

-- Where the sizes of the header and the payload add up below 2^64, a frame that `DecodeFrame` hands
-- out lies whole in the bytes: its total size is the sum and is within them, and the payload is the
-- part of the bytes behind the header, of the length that the header says.
pub decode_frame-Lies :
    (bytes : Text) (frame : Frame)
    → decode_frame bytes ≡ ok (some frame)
    → frame.header.header_size + frame.header.payload_length < 2 ^ 64
    → Lies bytes frame
unfolding decode_frame
decode_frame-Lies bytes frame e h = elim (Result-cases (decode_frame_header bytes)) [
  | inr (x, f) ↦ absurd (cc (rw f at e))
  | inl (found, f) ↦
      decode_with-Lies bytes found frame (ok_inj (decode_with bytes found) (some frame) (rw f at e))
        h
]
  where
    ok_inj : (a b : Option Frame) → ok a ≡ ok b → a ≡ b
    ok_inj a b e = cc

-- Where they add up to 2^64 or more, the sum wraps round: `DecodeFrame` takes the frame for complete
-- as soon as its header is there, with a total size less than that of the header alone.
pub decode_frame_wraps :
    (bytes : Text) (header : FrameHeader)
    → decode_frame_header bytes ≡ ok (some header)
    → header.header_size ≤ length bytes
    → 2 ^ 64 ≤ header.header_size + header.payload_length
    → header.payload_length < 2 ^ 64
    → header.header_size < 2 ^ 64
    → (frame : Frame) × (decode_frame bytes ≡ ok (some frame))
      × (frame.total_size < header.header_size)
unfolding decode_frame
decode_frame_wraps bytes header e h k l m =
    let total = header.header_size + header.payload_length in
    let small : total % 2 ^ 64 < header.header_size = omega arith in
    let b : ltb (length bytes) (total % 2 ^ 64) ≡ false = ground arith in
    rw (e, b)
      (
        record {
          header = header;
          payload = take header.payload_length (drop header.header_size bytes);
          total_size = total % 2 ^ 64;
        },
        refl,
        small,
      )
