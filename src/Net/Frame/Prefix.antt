-- ===== src/Net/Frame/Prefix.antt =====
-- net/websocket_frame.cpp: `DecodeFrame` on bytes with more behind.
use cpp_trading_engine.Base.{
  ℕ, zero, suc, ◌+◌, ◌*◌, ◌/◌, ◌%◌, ◌^◌, ◌≡◌, ◌<◌, ◌≤◌, ◌⊎◌, refl, sym, ap, Bool, false, not,
  Bool-cases, [], ◌∷◌, ◌++◌, Option, none, some, ◌==◌, ltb, length, take, drop, Text, Result,
  Result-cases, ok, err, ◌>>=◌, bind_congr, or_throw, reserved_opcode, arith, inl, inr,
  length-append, length-drop, get_elem?-front, take-front, drop-front, ok_inj, subst, Error,
}
use cpp_trading_engine.Net.Frame.{
  WebSocketOpcode, opcode_of, FrameHeader, Frame, byte_at, read_big_endian16, read_chunks,
  decode_length, decode_bytes, decode_frame_header, decode_payload, decode_frame,
}
use native.Mathlib.Nat.{mod-eq_of_lt}

-- The frame fits where the sum of its sizes, as 64-bit numbers, does not wrap round.
abbrev pub Fits : Frame → Type 0
Fits frame = frame.header.header_size + frame.header.payload_length < 2 ^ 64

module _ (ys : Text) where
  byte_at-front : (xs : Text) (i : ℕ) → i < length xs → byte_at (xs ++ ys) i ≡ byte_at xs i
  byte_at-front xs i h = rw (get_elem?-front ys xs i h) refl

  read_big_endian16-front :
      (xs : Text) (i : ℕ)
      → i + 1 < length xs
      → read_big_endian16 (xs ++ ys) i ≡ read_big_endian16 xs i
  read_big_endian16-front xs i h =
      bind_congr (byte_at (xs ++ ys) i) (byte_at xs i) _ _ (byte_at-front xs i (omega arith))
        (λ high.
          bind_congr (byte_at (xs ++ ys) (i + 1)) (byte_at xs (i + 1)) _ _
            (byte_at-front xs (i + 1) h) (λ low. refl))

  read_chunks-front :
      (left : ℕ) (xs : Text) (i value : ℕ)
      → i + 2 * left ≤ length xs
      → read_chunks left (xs ++ ys) i value ≡ read_chunks left xs i value
  read_chunks-front zero xs i value h = refl
  read_chunks-front (suc left) xs i value h =
      bind_congr (read_big_endian16 (xs ++ ys) i) (read_big_endian16 xs i) _ _
        (read_big_endian16-front xs i (omega arith))
        (λ chunk. read_chunks-front left xs (i + 2) _ (omega arith))

  -- An answer that the bytes so far are too few, or the answer that more bytes leave as it is.
  abbrev Settled {ℓ} : {A : Type ℓ} → Result (Option A) → Result (Option A) → Type ℓ
  Settled now later = (now ≡ ok none) ⊎ (later ≡ now)

  enough : (xs : Text) (n : ℕ) → ltb (length xs) n ≡ false → ltb (length (xs ++ ys)) n ≡ false
  enough xs n h = ground (arith, length-append xs ys)

  decode_length-front :
      (xs : Text) (fin : Bool) (opcode : WebSocketOpcode) (marker : ℕ)
      → Settled (decode_length xs fin opcode marker) (decode_length (xs ++ ys) fin opcode marker)
  decode_length-front xs fin opcode marker = elim (Bool-cases (marker == 126)) [
    | inl e ↦ elim (Bool-cases (ltb (length xs) 4)) [
      | inl s ↦ rw (e, s) (inl refl)
      | inr s ↦
          rw (e, s, enough xs 4 s)
            (inr (
              bind_congr (read_big_endian16 (xs ++ ys) 2) (read_big_endian16 xs 2) _ _
                (read_big_endian16-front xs 2 (ground arith)) (λ n. refl)))
    ]
    | inr e ↦ elim (Bool-cases (marker == 127)) [
      | inl f ↦ elim (Bool-cases (ltb (length xs) 10)) [
        | inl s ↦ rw (e, f, s) (inl refl)
        | inr s ↦
            rw (e, f, s, enough xs 10 s)
              (inr (
                bind_congr (read_chunks 4 (xs ++ ys) 2 0) (read_chunks 4 xs 2 0) _ _
                  (read_chunks-front 4 xs 2 0 (ground arith)) (λ n. refl)))
      ]
      | inr f ↦ rw (e, f) (inr refl)
    ]
  ]

  decode_bytes-front :
      (xs : Text) (byte0 byte1 : ℕ)
      → Settled (decode_bytes xs byte0 byte1) (decode_bytes (xs ++ ys) byte0 byte1)
  decode_bytes-front xs byte0 byte1 = elim (Bool-cases ((byte0 / 16) % 8 == 0)) [
    | inr e ↦ rw e (inr refl)
    | inl e ↦ elim (Bool-cases (byte1 / 128 % 2 == 0)) [
      | inr f ↦ rw (e, f) (inr refl)
      | inl f ↦ rw (e, f) (opcode_cases (or_throw reserved_opcode (opcode_of (byte0 % 16))))
    ]
  ]
    where
      opcode_cases :
          (o : Result WebSocketOpcode)
          → let fin = not (byte0 / 128 % 2 == 0) in
            Settled
              (o >>= λ opcode. decode_length xs fin opcode (byte1 % 128))
              (o >>= λ opcode. decode_length (xs ++ ys) fin opcode (byte1 % 128))
      opcode_cases (err e) = inr refl
      opcode_cases (ok opcode) =
          decode_length-front xs (not (byte0 / 128 % 2 == 0)) opcode (byte1 % 128)

  decode_frame_header-front :
      (xs : Text) → Settled (decode_frame_header xs) (decode_frame_header (xs ++ ys))
  unfolding decode_frame_header
  decode_frame_header-front [] = inl refl
  decode_frame_header-front (a ∷ []) = inl refl
  decode_frame_header-front (a ∷ b ∷ xs) =
      let now : ltb (length (a ∷ b ∷ xs)) 2 ≡ false = ground arith in
      rw (now, enough (a ∷ b ∷ xs) 2 now) (decode_bytes-front (a ∷ b ∷ xs) a b)

  decode_payload-front :
      (xs : Text) (header : FrameHeader) (frame : Frame)
      → decode_payload xs header ≡ some frame
      → header.header_size + header.payload_length < 2 ^ 64
      → decode_payload (xs ++ ys) header ≡ some frame
  decode_payload-front xs header frame e h =
      let total = header.header_size + header.payload_length in
      let m : total % 2 ^ 64 ≡ total = mod-eq_of_lt h in
      elim (Bool-cases (ltb (length xs) total)) [
        | inl b ↦ absurd (cc (rw (m, b) at e))
        | inr b ↦
            let t : take header.payload_length (drop header.header_size (xs ++ ys))
                ≡ take header.payload_length (drop header.header_size xs) =
              rw (drop-front ys xs header.header_size (ground arith)) (
                take-front ys (drop header.header_size xs) header.payload_length
                  (ground (arith, length-drop header.header_size xs))) in
            rw (m, enough xs total b, t) (rw (m, b) at e)
      ]

  payload_header :
      (xs : Text) (header : FrameHeader) (frame : Frame)
      → decode_payload xs header ≡ some frame
      → frame.header ≡ header
  payload_header xs header frame e = ground arith

  -- A frame that was there stays the frame there is.
  pub decode_frame-front :
      (xs : Text) (frame : Frame)
      → decode_frame xs ≡ ok (some frame)
      → Fits frame
      → decode_frame (xs ++ ys) ≡ ok (some frame)
  unfolding decode_frame
  decode_frame-front xs frame e h = elim (Result-cases (decode_frame_header xs)) [
    | inr (x, f) ↦ absurd (cc (rw f at e))
    | inl (none, f) ↦ absurd (cc (rw f at e))
    | inl (some header, f) ↦ elim (decode_frame_header-front xs) [
      | inl s ↦ absurd (cc (rw f at s))
      | inr s ↦
          let p : decode_payload xs header ≡ some frame = ok_inj _ _ (rw f at e) in
          rw (s, f)
            (ap (λ x. ok x)
              (decode_payload-front xs header frame p (
                subst (λ (x : FrameHeader). x.header_size + x.payload_length < 2 ^ 64)
                  (payload_header xs header frame p) h)))
    ]
  ]

  -- So does an error.
  pub decode_frame-front_err :
      (xs : Text) (x : Error) → decode_frame xs ≡ err x → decode_frame (xs ++ ys) ≡ err x
  unfolding decode_frame
  decode_frame-front_err xs x e = elim (Result-cases (decode_frame_header xs)) [
    | inl (found, f) ↦ absurd (cc (rw f at e))
    | inr (y, f) ↦ elim (decode_frame_header-front xs) [
      | inl s ↦ absurd (cc (rw f at s))
      | inr s ↦ rw (s, f) (rw f at e)
    ]
  ]

  -- With more bytes there is a frame with the same header, whatever its sizes.
  pub decode_frame-front_header :
      (xs : Text) (frame : Frame)
      → decode_frame xs ≡ ok (some frame)
      → (more : Frame) × (decode_frame (xs ++ ys) ≡ ok (some more)) × (more.header ≡ frame.header)
  unfolding decode_frame
  decode_frame-front_header xs frame e = elim (Result-cases (decode_frame_header xs)) [
    | inr (x, f) ↦ absurd (cc (rw f at e))
    | inl (none, f) ↦ absurd (cc (rw f at e))
    | inl (some header, f) ↦ elim (decode_frame_header-front xs) [
      | inl s ↦ absurd (cc (rw f at s))
      | inr s ↦
          let p : decode_payload xs header ≡ some frame = ok_inj _ _ (rw f at e) in
          let total = (header.header_size + header.payload_length) % 2 ^ 64 in
          elim (Bool-cases (ltb (length xs) total)) [
            | inl b ↦ absurd (cc (rw b at p))
            | inr b ↦ rw (s, f, enough xs total b) (_, refl, sym (payload_header xs header frame p))
          ]
    ]
  ]
