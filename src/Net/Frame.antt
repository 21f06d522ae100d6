-- ===== src/Net/Frame.antt =====
-- net/websocket_frame: the frames of RFC 6455. A byte is a number below 256, and the masks of the
-- source are written as divisions and remainders; `|` of numbers without a common bit is `+`. The key
-- that `RAND_bytes` makes is an argument, and `none` where it fails.
pub mod Xor
pub mod Decode
pub mod Encode
pub mod Prefix
use cpp_trading_engine.Base.{
  ℕ, zero, suc, ◌+◌, ◌-◌, ◌*◌, ◌/◌, ◌%◌, ◌^◌, Bool, true, false, not, Option, none, some, List, [],
  ◌∷◌, ◌++◌, if◌then◌else◌, ltb, leb, ◌==◌, length, get_elem?, take, drop, Text, Result, ok, err,
  ◌>>=◌, or_throw, out_of_bounds, reserved_bits, masked_frame, reserved_opcode, rng_failed,
}

-- The opcodes that `kValidOpcodes` lets through
pub data WebSocketOpcode : Type 0 where
  continuation text binary close ping pong : WebSocketOpcode

unfoldable pub opcode_value : WebSocketOpcode → ℕ
opcode_value continuation = 0
opcode_value text = 1
opcode_value binary = 2
opcode_value close = 8
opcode_value ping = 9
opcode_value pong = 10

-- `kValidOpcodes`, with the opcode that a valid value is cast to
unfoldable pub opcode_of : ℕ → Option WebSocketOpcode
opcode_of v =
    if v == 0
    then some continuation
    else (if v == 1
        then some text
        else (if v == 2
            then some binary
            else (if v == 8
                then some close
                else (if v == 9 then some ping else (if v == 10 then some pong else none)))))

pub record FrameHeader : Type 0 where
  pub fin : Bool
  pub opcode : WebSocketOpcode
  pub payload_length : ℕ
  pub header_size : ℕ

pub record Frame : Type 0 where
  pub header : FrameHeader
  pub payload : Text
  pub total_size : ℕ

abbrev pub byte_at : Text → ℕ → Result ℕ
byte_at bytes offset = or_throw out_of_bounds (get_elem? bytes offset)

-- `ReadBigEndian16`
abbrev pub read_big_endian16 : Text → ℕ → Result ℕ
read_big_endian16 bytes offset = do
  high ← byte_at bytes offset
  low ← byte_at bytes (offset + 1)
  ok (high * 256 + low)

-- The loop of `ReadBigEndian64`, over the chunks left
abbrev pub read_chunks : ℕ → Text → ℕ → ℕ → Result ℕ
read_chunks zero bytes offset value = ok value
read_chunks (suc left) bytes offset value = (read_big_endian16 bytes offset) >>= λ chunk.
    read_chunks left bytes (offset + 2) ((value * 65536 + chunk) % 2 ^ 64)

abbrev pub read_big_endian64 : Text → ℕ → Result ℕ
read_big_endian64 bytes offset = read_chunks 4 bytes offset 0

abbrev pub header_with : Bool → WebSocketOpcode → ℕ → ℕ → FrameHeader
header_with fin opcode payload_length header_size = record {
  fin = fin;
  opcode = opcode;
  payload_length = payload_length;
  header_size = header_size;
}

-- The length behind the marker
abbrev pub decode_length : Text → Bool → WebSocketOpcode → ℕ → Result (Option FrameHeader)
decode_length bytes fin opcode marker =
    if marker == 126
    then (if ltb (length bytes) 4
        then ok none
        else ((read_big_endian16 bytes 2) >>= λ n. ok (some (header_with fin opcode n 4))))
    else (if marker == 127
        then (if ltb (length bytes) 10
            then ok none
            else ((read_big_endian64 bytes 2) >>= λ n. ok (some (header_with fin opcode n 10))))
        else ok (some (header_with fin opcode marker 2)))

-- The checks of the first two bytes
abbrev pub decode_bytes : Text → ℕ → ℕ → Result (Option FrameHeader)
decode_bytes bytes byte0 byte1 =
    if (byte0 / 16) % 8 == 0
    then (if byte1 / 128 % 2 == 0
        then ((or_throw reserved_opcode (opcode_of (byte0 % 16))) >>= λ opcode.
            decode_length bytes (not (byte0 / 128 % 2 == 0)) opcode (byte1 % 128))
        else err masked_frame)
    else err reserved_bits

-- `DecodeFrameHeader`
unfoldable pub decode_frame_header : Text → Result (Option FrameHeader)
unfolding opcode_of
decode_frame_header bytes =
    if ltb (length bytes) 2
    then ok none
    else ((byte_at bytes 0) >>= λ byte0.
        (byte_at bytes 1) >>= λ byte1. decode_bytes bytes byte0 byte1)

-- `DecodeFrame`, from the header on; the sum is one of 64-bit numbers.
abbrev pub decode_payload : Text → FrameHeader → Option Frame
decode_payload bytes header =
    let total_size = (header.header_size + header.payload_length) % 2 ^ 64 in
    if ltb (length bytes) total_size
    then none
    else some (record {
      header = header;
      payload = take header.payload_length (drop header.header_size bytes);
      total_size = total_size;
    })

abbrev pub decode_with : Text → Option FrameHeader → Option Frame
decode_with bytes none = none
decode_with bytes (some header) = decode_payload bytes header

unfoldable pub decode_frame : Text → Result (Option Frame)
unfolding decode_frame_header
decode_frame bytes = (decode_frame_header bytes) >>= λ header. ok (decode_with bytes header)

-- `AppendBigEndian16`: what it appends
abbrev pub big_endian16 : ℕ → Text
big_endian16 value = value / 256 % 256 ∷ value % 256 ∷ []

-- `AppendBigEndian64`: the shifts are by 48, 32, 16 and 0.
abbrev pub big_endian64 : ℕ → Text
big_endian64 value =
    big_endian16 (value / 2 ^ 48 % 65536)
    ++ (big_endian16 (value / 2 ^ 32 % 65536)
        ++ (big_endian16 (value / 2 ^ 16 % 65536) ++ big_endian16 (value % 65536)))

-- `^` of two numbers of so many bits
unfoldable pub xor : ℕ → ℕ → ℕ → ℕ
xor zero a b = 0
xor (suc bits) a b = (if a % 2 == b % 2 then 0 else 1) + 2 * xor bits (a / 2) (b / 2)

-- The masked payload, from index `i` on; a key has four bytes.
unfoldable pub mask_from : Text → ℕ → Text → Result Text
unfolding xor
mask_from key i [] = ok []
mask_from key i (b ∷ bs) = do
  key_byte ← byte_at key (i % 4)
  rest ← mask_from key (i + 1) bs
  ok (xor 8 b key_byte ∷ rest)

-- The first bytes, up to the key
unfoldable pub frame_head : WebSocketOpcode → ℕ → Text
unfolding opcode_value
frame_head opcode n =
    (128 + opcode_value opcode)
    ∷ (if leb n 125
        then (128 + n) ∷ []
        else (if leb n 65535 then (128 + 126) ∷ big_endian16 n else (128 + 127) ∷ big_endian64 n))

-- `EncodeFrame`
unfoldable pub encode_frame : Option Text → WebSocketOpcode → Text → Result Text
unfolding frame_head mask_from
encode_frame mask_key opcode payload = do
  key ← or_throw rng_failed mask_key
  masked ← mask_from key 0 payload
  ok (frame_head opcode (length payload) ++ (key ++ masked))
