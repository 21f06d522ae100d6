-- ===== src/Connectivity/Heartbeat.antt =====
-- okx/connectivity/heartbeat.cpp: the pings that the application sends, and the answer to them.
use cpp_trading_engine.Base.{Bool, ◌&&◌, true, false, Option, Text, text_eq, Result}
use cpp_trading_engine.Constants.{ping_text, pong_text}
use cpp_trading_engine.Net.Frame.{WebSocketOpcode, text, Frame, encode_frame}

abbrev is_text_opcode : WebSocketOpcode → Bool
is_text_opcode text = true
is_text_opcode _ = false

-- `EncodeOkxPing`, with the key that `RAND_bytes` makes
unfoldable pub encode_okx_ping : Option Text → Result Text
unfolding encode_frame
encode_okx_ping mask_key = encode_frame mask_key text ping_text

-- `IsOkxPong`
unfoldable pub is_okx_pong : Frame → Bool
is_okx_pong frame = is_text_opcode frame.header.opcode && text_eq frame.payload pong_text
