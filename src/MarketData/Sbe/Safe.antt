-- ===== src/MarketData/Sbe/Safe.antt =====
-- okx/marketdata/sbe_bbo: the reads of the decoder.
use cpp_trading_engine.Base.{
  ℕ, zero, suc, ◌+◌, ◌≡◌, ◌<◌, ◌≤◌, refl, true, false, not, ◌||◌, Option, none, some, ltb, length,
  get_elem?_total, Text, Result, ok, ◌>>=◌, arith, if-both,
}
use cpp_trading_engine.Base.Double.{Double}
use cpp_trading_engine.Base.Int.{ℤ, pos, negsuc}
use cpp_trading_engine.MarketData.Sbe.{
  header_size, bbo_block_length, MessageHeader, load, load_signed, decode_header, exponent_in_range,
  table_index, pow10_at, load_scaled, decode_fields, decode_block, decode_after, decode_bbo_tbt,
}

pub record IsOk {A : Type 0} (r : Result A) : Type 0 where
  pub value : A
  pub returned : r ≡ ok value

IsOk-ok : {A : Type 0} (a : A) → IsOk (ok a)
IsOk-ok a = record { value = a; returned = refl }

IsOk-bind :
    {A B : Type 0} (r : Result A) (next : A → Result B)
    → IsOk r
    → ((a : A) → IsOk (next a))
    → IsOk (r >>= next)
IsOk-bind r next h k = rw h.returned (k h.value)

load-IsOk :
    (size : ℕ) (bytes : Text) (offset : ℕ)
    → offset + size ≤ length bytes
    → IsOk (load size bytes offset)
unfolding load
load-IsOk zero bytes offset h = IsOk-ok 0
load-IsOk (suc size) bytes offset h =
    let (low, e) = get_elem?_total bytes offset (omega arith) in
    rw e (
      IsOk-bind (load size bytes (offset + 1)) _ (load-IsOk size bytes (offset + 1) (omega arith))
        (λ high. IsOk-ok _))

load_signed-IsOk :
    (size : ℕ) (bytes : Text) (offset : ℕ)
    → offset + size ≤ length bytes
    → IsOk (load_signed size bytes offset)
load_signed-IsOk size bytes offset h =
    IsOk-bind (load size bytes offset) _ (load-IsOk size bytes offset h) (λ n. IsOk-ok _)

decode_header-IsOk : (message : Text) → IsOk (decode_header message)
unfolding decode_header
decode_header-IsOk message =
    if-both IsOk (ltb (length message) header_size) (ok none) _ (λ e. IsOk-ok none)
      (λ e. IsOk-bind (load 2 message 0) _ (load-IsOk 2 message 0 (ground arith)) λ a.
        IsOk-bind (load 2 message 2) _ (load-IsOk 2 message 2 (ground arith)) λ b.
          IsOk-bind (load 2 message 4) _ (load-IsOk 2 message 4 (ground arith)) λ c.
            IsOk-bind (load 2 message 6) _ (load-IsOk 2 message 6 (ground arith)) λ v. IsOk-ok _)

table_index-lt : (exponent : ℤ) → exponent_in_range exponent ≡ true → table_index exponent < 37
table_index-lt (pos n) h = ground arith
table_index-lt (negsuc n) h = ground arith

module _ (d : Double) (of_int : ℤ → d.Val) where
  open d use {Val}

  pow10_at-IsOk : (i : ℕ) → i < 37 → IsOk (pow10_at d i)
  unfolding pow10_at
  pow10_at-IsOk i h = if-both IsOk (ltb i 37) _ _ (λ e. IsOk-ok _) (λ e. absurd (ground arith))

  load_scaled-IsOk :
      (message : Text) (offset : ℕ) (exponent : ℤ)
      → offset + 8 ≤ length message
      → exponent_in_range exponent ≡ true
      → IsOk (load_scaled d of_int message offset exponent)
  load_scaled-IsOk message offset exponent h k =
      IsOk-bind (load_signed 8 message offset) _ (load_signed-IsOk 8 message offset h) λ mantissa.
        IsOk-bind (pow10_at d (table_index exponent)) _
          (pow10_at-IsOk (table_index exponent) (table_index-lt exponent k)) λ factor. IsOk-ok _

  decode_fields-IsOk :
      (message : Text) (px sz : ℤ)
      → 82 ≤ length message
      → exponent_in_range px ≡ true
      → exponent_in_range sz ≡ true
      → IsOk (decode_fields d of_int message px sz)
  unfolding decode_fields
  decode_fields-IsOk message px sz h p s =
      let int =
        λ (offset : ℕ). λ (k : offset + 8 ≤ length message). load_signed-IsOk 8 message offset k in
      IsOk-bind _ _ (int 8 (omega arith)) λ a. IsOk-bind _ _ (int 16 (omega arith)) λ b.
        IsOk-bind _ _ (int 24 (omega arith)) λ c. IsOk-bind _ _ (int 32 (omega arith)) λ seq.
          IsOk-bind _ _ (load_scaled-IsOk message 40 px (omega arith) p) λ ask_px.
            IsOk-bind _ _ (load_scaled-IsOk message 48 sz (omega arith) s) λ ask_sz.
              IsOk-bind _ _ (load_scaled-IsOk message 56 px (omega arith) p) λ bid_px.
                IsOk-bind _ _ (load_scaled-IsOk message 64 sz (omega arith) s) λ bid_sz.
                  IsOk-bind _ _ (load_signed-IsOk 4 message 72 (omega arith)) λ asks.
                    IsOk-bind _ _ (load_signed-IsOk 4 message 76 (omega arith)) λ bids. IsOk-ok _

  decode_block-IsOk : (message : Text) → 82 ≤ length message → IsOk (decode_block d of_int message)
  decode_block-IsOk message h = IsOk-bind _ _ (load_signed-IsOk 1 message 80 (omega arith)) λ px.
      IsOk-bind _ _ (load_signed-IsOk 1 message 81 (omega arith)) λ sz.
        if-both IsOk (not (exponent_in_range px) || not (exponent_in_range sz)) (ok none) _
          (λ e. IsOk-ok none)
          (λ e.
            IsOk-bind (decode_fields d of_int message px sz) _
              (decode_fields-IsOk message px sz h (ground arith) (ground arith)) λ bbo. IsOk-ok _)

  decode_after-IsOk :
      (message : Text) (header : Option MessageHeader) → IsOk (decode_after d of_int message header)
  decode_after-IsOk message none = IsOk-ok none
  decode_after-IsOk message (some header) =
      if-both IsOk _ (ok none) _ (λ e. IsOk-ok none)
        (λ e.
          if-both IsOk
            (ltb header.block_length bbo_block_length
              || ltb (length message) (header_size + header.block_length))
            (ok none) _ (λ f. IsOk-ok none)
            (λ f. decode_block-IsOk message (long header.block_length f)))
    where
      long :
          (n : ℕ)
          → ltb n bbo_block_length || ltb (length message) (header_size + n) ≡ false
          → 82 ≤ length message
      long n f = ground arith

  -- Whatever the bytes, `DecodeBboTbt` returns: the checks of the header, of the length and of the
  -- exponents keep every read within the message, and every look-up within the table of powers.
  pub decode_bbo_tbt-IsOk : (message : Text) → IsOk (decode_bbo_tbt d of_int message)
  unfolding decode_bbo_tbt
  decode_bbo_tbt-IsOk message =
      IsOk-bind (decode_header message) _ (decode_header-IsOk message) (decode_after-IsOk message)
