-- ===== src/Net/Control.antt =====
-- net/websocket_control.cpp: the control frames that the client sends.
use cpp_trading_engine.Base.{
  ℕ, ◌+◌, ◌/◌, ◌%◌, Option, none, some, ◌∷◌, if◌then◌else◌, ltb, length, Text, Result, ok, err,
  ◌>>=◌, control_too_long,
}
use cpp_trading_engine.Net.Frame.{
  WebSocketOpcode, continuation, text, binary, close, ping, pong, Frame, encode_frame,
}

-- `kMaxControlPayload`
abbrev pub max_control_payload : ℕ
max_control_payload = 125

-- `EncodeClose`, with the key that `RAND_bytes` makes
unfoldable pub encode_close : Option Text → ℕ → Text → Result Text
unfolding encode_frame
encode_close mask_key status_code reason =
    if ltb max_control_payload (2 + length reason)
    then err control_too_long
    else encode_frame mask_key close (status_code / 256 % 256 ∷ status_code % 256 ∷ reason)

abbrev pub reply : Result Text → Result (Option Text)
reply frame = frame >>= λ bytes. ok (some bytes)

abbrev respond : Option Text → WebSocketOpcode → Text → Result (Option Text)
respond mask_key ping payload = reply (encode_frame mask_key pong payload)
respond mask_key close payload = reply (encode_frame mask_key close payload)
respond mask_key continuation payload = ok none
respond mask_key text payload = ok none
respond mask_key binary payload = ok none
respond mask_key pong payload = ok none

-- `BuildControlResponse`
unfoldable pub build_control_response : Option Text → Frame → Result (Option Text)
unfolding encode_frame
build_control_response mask_key frame = respond mask_key frame.header.opcode frame.payload
