-- ===== src/Net/RingBuffer.antt =====
-- net/ring_buffer.hpp: `RingBuffer<N>`. The capacity `N` is an argument. A region is handed out as its
-- bytes, and `CommitRead` subtracts as a `std::size_t` does.
pub mod Refine
use cpp_trading_engine.Base.{
  ℕ, zero, suc, ◌+◌, ◌-◌, ◌%◌, ◌^◌, min, List, [], ◌∷◌, if◌then◌else◌, ltb, leb, length, set, take,
  drop, replicate, Text, Result, ok, err, out_of_fuel, ring_overflow,
}

pub record RingBuffer : Type 0 where
  pub data_bytes : Text
  pub read_pos : ℕ
  pub size : ℕ

-- `std::memcpy` into an array
unfoldable pub copy_in : Text → ℕ → Text → Text
copy_in target at [] = target
copy_in target at (b ∷ bs) = copy_in (set target at b) (at + 1) bs

-- a - b, of two 64-bit numbers
abbrev pub sub_u64 : ℕ → ℕ → ℕ
sub_u64 a b = if leb b a then a - b else 2 ^ 64 + a - b

module _ (capacity : ℕ) where
  unfoldable pub make_ring : RingBuffer
  make_ring = record { data_bytes = replicate capacity 0; read_pos = 0; size = 0 }

  unfoldable pub free_space : RingBuffer → ℕ
  free_space r = capacity - r.size

  -- `ContiguousWritableRegion`: where it starts, and its size
  abbrev pub write_pos : RingBuffer → ℕ
  write_pos r = (r.read_pos + r.size) % capacity

  abbrev pub contiguous_free : RingBuffer → ℕ
  contiguous_free r = min (capacity - r.size) (capacity - write_pos r)

  -- One pass of the loop of `Write`
  abbrev pub write_pass : Text → RingBuffer → RingBuffer
  write_pass bytes r =
      let n = min (contiguous_free r) (length bytes) in
      record r { data_bytes = copy_in r.data_bytes (write_pos r) (take n bytes); size = r.size + n }

  -- The loop, over the bytes from `offset` on
  unfoldable pub write_from : ℕ → Text → RingBuffer → Result RingBuffer
  unfolding copy_in
  write_from passes [] r = ok r
  write_from zero (b ∷ bs) r = err out_of_fuel
  write_from (suc passes) (b ∷ bs) r =
      write_from passes (drop (min (contiguous_free r) (length (b ∷ bs))) (b ∷ bs))
        (write_pass (b ∷ bs) r)

  -- `Write`; the comment in the source says that two passes are enough.
  unfoldable pub write_bytes : Text → RingBuffer → Result RingBuffer
  unfolding write_from free_space
  write_bytes bytes r =
      if ltb (free_space r) (length bytes) then err ring_overflow else write_from 2 bytes r

  -- `ContiguousReadableRegion`
  abbrev pub contiguous_available : RingBuffer → ℕ
  contiguous_available r = min r.size (capacity - r.read_pos)

  unfoldable pub readable : RingBuffer → Text
  readable r = take (contiguous_available r) (drop r.read_pos r.data_bytes)

  unfoldable pub commit_read : ℕ → RingBuffer → RingBuffer
  commit_read n r = record r { read_pos = (r.read_pos + n) % capacity; size = sub_u64 r.size n }

unfoldable pub reset : RingBuffer → RingBuffer
reset r = record r { read_pos = 0; size = 0 }
