-- ===== src/Net/Tests.antt =====
-- A ring of four bytes, a reassembler of eight and two frames.
use cpp_trading_engine.Net.Handshake.{
  read_handshake_response, perform_web_socket_handshake, find_header,
}
use cpp_trading_engine.Net.Handshake.Headers.{find_header-Found}
use cpp_trading_engine.Base.{
  ℕ, zero, suc, get_elem?, ◌%◌, ◌+◌, ◌-◌, ◌≡◌, ◌≤◌, ◌<◌, ◌^◌, ◌⊎◌, refl, true, [], ◌∷◌, ◌++◌, some,
  length, replicate, Text, codes, ok, err, ring_overflow, arith, List, Option, accept_wrong,
}
use cpp_trading_engine.Net.RingBuffer.{RingBuffer, write_bytes}
use cpp_trading_engine.Net.RingBuffer.Refine.{Holds, Written, write_bytes-append}
use cpp_trading_engine.Net.Reassembler.{Reassembler, make_reassembler, get_message, reset_message}
use cpp_trading_engine.Net.Reassembler.Laws.{
  make_reassembler-IsWithin, append_all, join, append_all-join,
}
use cpp_trading_engine.Net.Frame.{text, header_with, Frame, decode_frame, decode_frame_header}
use cpp_trading_engine.Net.Frame.Decode.{Lies, decode_frame-Lies, decode_frame_wraps}

-- Three bytes that start at the last slot
abbrev ring : RingBuffer
ring = record { data_bytes = 12 ∷ 13 ∷ 0 ∷ 11 ∷ []; read_pos = 3; size = 3 }

abbrev ring_bytes : Text
ring_bytes = 11 ∷ 12 ∷ 13 ∷ []

ring-Holds : Holds 4 ring_bytes ring
ring-Holds = record {
  counted = refl;
  ring = record { storage = refl; starts = omega arith; within = omega arith; held = held };
}
  where
    held :
        (i x : ℕ)
        → get_elem? ring_bytes i ≡ some x
        → get_elem? ring.data_bytes ((3 + i) % 4) ≡ some x
    held zero x e = e
    held (suc zero) x e = e
    held (suc (suc zero)) x e = e
    held (suc (suc (suc i))) x e = cc

abbrev more : Text
more = 14 ∷ []

write_bytes-append_example :
    ((length ring_bytes + length more ≤ 4)
      × Written 4 (ring_bytes ++ more) (write_bytes 4 more ring))
    ⊎ ((4 < length ring_bytes + length more) × (write_bytes 4 more ring ≡ err ring_overflow))
write_bytes-append_example = write_bytes-append 4 ring_bytes more ring ring-Holds

append_all-join_example :
    (q : Reassembler) × (append_all 8
        (codes "abc" ∷ codes "de" ∷ [])
        (reset_message (make_reassembler 8))
      ≡ ok q)
    × (get_message q ≡ join (codes "abc" ∷ codes "de" ∷ []))
    × (q.complete ≡ true)
append_all-join_example =
    append_all-join 8 (codes "abc") (codes "de" ∷ []) (make_reassembler 8)
      (make_reassembler-IsWithin 8) (omega arith)

abbrev key : Text
key = 1 ∷ 2 ∷ 3 ∷ 4 ∷ []

-- A text frame of two bytes, with the first byte of the next frame behind it
abbrev received : Text
received = 129 ∷ 2 ∷ 104 ∷ 105 ∷ 129 ∷ []

abbrev received_frame : Frame
received_frame = record {
  header = header_with true text 2 2;
  payload = 104 ∷ 105 ∷ [];
  total_size = 4;
}

decode_frame-Lies_example : Lies received received_frame
unfolding decode_frame
decode_frame-Lies_example = decode_frame-Lies received received_frame refl (omega arith)

-- A header whose length is the largest number of 64 bits
abbrev huge : Text
huge = 129 ∷ 127 ∷ replicate 8 255

decode_frame_wraps_example :
    (frame : Frame) × (decode_frame huge ≡ ok (some frame)) × (frame.total_size < 10)
unfolding decode_frame_header
decode_frame_wraps_example =
    decode_frame_wraps huge (header_with true text (2 ^ 64 - 1) 10) refl (omega arith) (omega arith)
      (omega arith) (omega arith)

abbrev upgrade_chunks : List Text
upgrade_chunks =
    codes "HTTP/1.1 101 Switching\r\nUpgrade: websocket\r\nSec-WebSocket-"
    ∷ codes "Accept:  abc=\r\n\r\nrest"
    ∷ codes "unread"
    ∷ []

abbrev upgrade_response : Text
upgrade_response =
    codes "HTTP/1.1 101 Switching\r\nUpgrade: websocket\r\nSec-WebSocket-Accept:  abc=\r\n\r\nrest"

upgrade_read : read_handshake_response upgrade_chunks [] ≡ ok upgrade_response
unfolding read_handshake_response
upgrade_read = refl

upgraded : perform_web_socket_handshake (codes "abc=") upgrade_chunks ≡ ok tt
unfolding perform_web_socket_handshake
upgraded = refl

refused : perform_web_socket_handshake (codes "abd=") upgrade_chunks ≡ err accept_wrong
unfolding perform_web_socket_handshake
refused = refl

find_header-Found_example :
    (value : Option Text) × (find_header upgrade_response (codes "sec-websocket-accept") ≡ ok value)
find_header-Found_example =
    find_header-Found upgrade_chunks upgrade_response (codes "sec-websocket-accept") upgrade_read
