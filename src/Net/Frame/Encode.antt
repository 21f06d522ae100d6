-- ===== src/Net/Frame/Encode.antt =====
-- What a peer that allows masked frames reads from a frame that `EncodeFrame` makes.
use cpp_trading_engine.Base.{
  ℕ, ◌+◌, ◌*◌, ◌/◌, ◌%◌, ◌^◌, ◌≡◌, ◌<◌, ◌≤◌, refl, ◌∙◌, true, false, Bool-cases, [], ◌∷◌, ◌++◌,
  some, if◌then◌else◌, ◌==◌, ltb, leb, length, Text, ok, arith, inl, inr,
}
use cpp_trading_engine.Net.Frame.{
  WebSocketOpcode, continuation, text, binary, close, ping, pong, opcode_value, opcode_of,
  header_with, big_endian16, big_endian64, frame_head, decode_frame_header, decode_bytes,
  decode_length,
}

big_endian16-read : (v : ℕ) → v < 65536 → v / 256 % 256 * 256 + v % 256 ≡ v
big_endian16-read v h = omega arith

chunk : (v : ℕ) → v / 256 % 256 * 256 + v % 256 ≡ v % 65536
chunk v = omega arith

opcode_of-value : (o : WebSocketOpcode) → opcode_of (opcode_value o) ≡ some o
unfolding opcode_of opcode_value
opcode_of-value continuation = refl
opcode_of-value text = refl
opcode_of-value binary = refl
opcode_of-value close = refl
opcode_of-value ping = refl
opcode_of-value pong = refl

opcode_value-lt : (o : WebSocketOpcode) → opcode_value o < 16
unfolding opcode_value
opcode_value-lt continuation = omega arith
opcode_value-lt text = omega arith
opcode_value-lt binary = omega arith
opcode_value-lt close = omega arith
opcode_value-lt ping = omega arith
opcode_value-lt pong = omega arith

first_byte :
    (o : WebSocketOpcode)
    → ((128 + opcode_value o) / 16 % 8 ≡ 0)
      × ((128 + opcode_value o) / 128 % 2 ≡ 1)
      × ((128 + opcode_value o) % 16 ≡ opcode_value o)
first_byte o = let h = opcode_value-lt o in (omega arith, omega arith, omega arith)

-- The frame as a server sends it: without the mask bit, which is the top bit of the second byte.
abbrev pub without_mask_bit : Text → Text
without_mask_bit [] = []
without_mask_bit (a ∷ []) = a ∷ []
without_mask_bit (a ∷ b ∷ bytes) = a ∷ b % 128 ∷ bytes

-- The size of the header without the key
abbrev pub head_size : ℕ → ℕ
head_size n = if leb n 125 then 2 else (if leb n 65535 then 4 else 10)

chunks64 :
    (n : ℕ)
    → n < 2 ^ 64
    → ((((((0 * 65536 + n / 2 ^ 48 % 65536) % 2 ^ 64) * 65536 + n / 2 ^ 32 % 65536) % 2 ^ 64)
                * 65536
              + n / 2 ^ 16 % 65536)
            % 2 ^ 64
            * 65536
          + n % 65536)
        % 2 ^ 64
      ≡ n
chunks64 n h = omega arith

two_bytes :
    (a b : ℕ) (rest : Text) → decode_frame_header (a ∷ b ∷ rest) ≡ decode_bytes (a ∷ b ∷ rest) a b
unfolding decode_frame_header
two_bytes a b rest = let h : ltb (length (a ∷ b ∷ rest)) 2 ≡ false = ground arith in rw h refl

-- After the checks of the first two bytes only the length is left.
checked :
    (o : WebSocketOpcode) (marker : ℕ) (rest : Text)
    → marker < 128
    → let bytes : Text = (128 + opcode_value o) ∷ (128 + marker) % 128 ∷ rest in
      decode_frame_header bytes ≡ decode_length bytes true o marker
checked o marker rest h =
    let a = 128 + opcode_value o in
    let (p, q, r) = first_byte o in
    let b : (128 + marker) % 128 ≡ marker = omega arith in
    let c : marker / 128 % 2 ≡ 0 = omega arith in
    let d : marker % 128 ≡ marker = omega arith in
    rw (b, two_bytes a marker rest, p, q, r, opcode_of-value o, c, d) refl

short_header :
    (o : WebSocketOpcode) (n : ℕ) (bytes : Text)
    → n ≤ 125
    → decode_length bytes true o n ≡ ok (some (header_with true o n 2))
short_header o n bytes h =
    let a : (n == 126) ≡ false = ground arith in
    let b : (n == 127) ≡ false = ground arith in rw (a, b) refl

medium_header :
    (o : WebSocketOpcode) (n a b : ℕ) (rest : Text)
    → n < 65536
    → decode_length (a ∷ b ∷ (big_endian16 n ++ rest)) true o 126
      ≡ ok (some (header_with true o n 4))
medium_header o n a b rest h =
    let l : ltb (length (a ∷ b ∷ (big_endian16 n ++ rest))) 4 ≡ false = ground arith in
    rw (l, big_endian16-read n h) refl

long_header :
    (o : WebSocketOpcode) (n a b : ℕ) (rest : Text)
    → n < 2 ^ 64
    → decode_length (a ∷ b ∷ (big_endian64 n ++ rest)) true o 127
      ≡ ok (some (header_with true o n 10))
long_header o n a b rest h =
    let l : ltb (length (a ∷ b ∷ (big_endian64 n ++ rest))) 10 ≡ false = ground arith in
    let c3 : n / 2 ^ 48 % 65536 / 256 % 256 * 256 + n / 2 ^ 48 % 65536 % 256 ≡ n / 2 ^ 48 % 65536 =
      omega arith in
    let c2 : n / 2 ^ 32 % 65536 / 256 % 256 * 256 + n / 2 ^ 32 % 65536 % 256 ≡ n / 2 ^ 32 % 65536 =
      omega arith in
    let c1 : n / 2 ^ 16 % 65536 / 256 % 256 * 256 + n / 2 ^ 16 % 65536 % 256 ≡ n / 2 ^ 16 % 65536 =
      omega arith in
    let c0 : n % 65536 / 256 % 256 * 256 + n % 65536 % 256 ≡ n % 65536 = omega arith in
    rw (l, c3, c2, c1, c0, chunks64 n h) refl

-- A server reads the header of a frame that the client sends, whatever comes behind it, as the final
-- frame of the opcode, with the payload's length and the size that the header has without its key.
pub frame_head-decode :
    (o : WebSocketOpcode) (n : ℕ) (rest : Text)
    → n < 2 ^ 64
    → decode_frame_header (without_mask_bit (frame_head o n ++ rest))
      ≡ ok (some (header_with true o n (head_size n)))
unfolding frame_head
frame_head-decode o n rest h = elim (Bool-cases (leb n 125)) [
  | inl e ↦
      let k : n ≤ 125 = ground arith in
      rw (e, checked o n rest (omega arith))
        (short_header o n ((128 + opcode_value o) ∷ (128 + n) % 128 ∷ rest) k)
  | inr e ↦ elim (Bool-cases (leb n 65535)) [
    | inl f ↦
        let k : n < 65536 = ground arith in
        rw (e, f)
          (checked o 126 (big_endian16 n ++ rest) (omega arith)
            ∙ medium_header o n (128 + opcode_value o) 126 rest k)
    | inr f ↦
        rw (e, f)
          (checked o 127 (big_endian64 n ++ rest) (omega arith)
            ∙ long_header o n (128 + opcode_value o) 127 rest h)
  ]
]
