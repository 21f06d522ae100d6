-- ===== src/Net/Reassembler.antt =====
-- net/websocket_reassembler.hpp: `WebSocketReassembler<N>`, which joins the payloads of the frames of a
-- message. The capacity `N` is an argument.
pub mod Laws
use cpp_trading_engine.Base.{
  ℕ, ◌+◌, ◌-◌, Bool, true, false, if◌then◌else◌, ltb, length, take, replicate, Text, Result, ok,
  err, message_too_long,
}
use cpp_trading_engine.Net.RingBuffer.{copy_in}

pub record Reassembler : Type 0 where
  pub data_bytes : Text
  pub size : ℕ
  pub complete : Bool

unfoldable pub make_reassembler : ℕ → Reassembler
make_reassembler capacity = record { data_bytes = replicate capacity 0; size = 0; complete = false }

-- `Append`
unfoldable pub append : ℕ → Text → Bool → Reassembler → Result Reassembler
unfolding copy_in
append capacity payload fin r =
    if ltb (capacity - r.size) (length payload)
    then err message_too_long
    else ok (record {
      data_bytes = copy_in r.data_bytes r.size payload;
      size = r.size + length payload;
      complete = fin;
    })

-- `GetMessage`
unfoldable pub get_message : Reassembler → Text
get_message r = take r.size r.data_bytes

-- `Reset`
unfoldable pub reset_message : Reassembler → Reassembler
reset_message r = record r { size = 0; complete = false }
