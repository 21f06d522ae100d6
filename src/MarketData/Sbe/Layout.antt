-- ===== src/MarketData/Sbe/Layout.antt =====
-- okx/marketdata/sbe_bbo: the layout of a message, field by field.
use cpp_trading_engine.Base.{
  ℕ, zero, suc, ◌+◌, ◌-◌, ◌*◌, ◌/◌, ◌%◌, ◌^◌, ◌≡◌, ◌<◌, refl, ap, true, [], ◌∷◌, ◌++◌, lt→ltb,
  le→ltb, Text, ok, bind_congr, or_throw, out_of_bounds, get_elem?, subst, arith,
}
use cpp_trading_engine.Base.Int.{ℤ, pos, negsuc}
use cpp_trading_engine.MarketData.Sbe.{load, load_signed, signed, exponent_in_range}
use Prim.Native.Nat.pow
use native.Mathlib.Numerals.{add-one}

-- A number in so many bytes, the lowest first
abbrev pub little_endian : ℕ → ℕ → Text
little_endian zero n = []
little_endian (suc size) n = n % 256 ∷ little_endian size (n / 256)

-- Two's complement
abbrev pub unsigned : ℕ → ℤ → ℕ
unsigned bits (pos n) = n
unsigned bits (negsuc n) = 2 ^ bits - 1 - n

-- The integers of a signed type of so many bits
abbrev pub InRange : ℕ → ℤ → Type 0
InRange bits (pos n) = n < 2 ^ (bits - 1)
InRange bits (negsuc n) = n < 2 ^ (bits - 1)

load-cons :
    (size : ℕ) (b : ℕ) (bytes : Text) (offset : ℕ)
    → load size (b ∷ bytes) (offset + 1) ≡ load size bytes offset
unfolding load
load-cons zero b bytes offset = refl
load-cons (suc size) b bytes offset =
    bind_congr (or_throw out_of_bounds (get_elem? (b ∷ bytes) (offset + 1)))
      (or_throw out_of_bounds (get_elem? bytes offset)) _ _ (rw (add-one offset) refl)
      (λ low.
        bind_congr (load size (b ∷ bytes) (offset + 1 + 1)) (load size bytes (offset + 1)) _ _
          (load-cons size b bytes (offset + 1)) (λ high. refl))

pub load-little_endian :
    (size n : ℕ) (rest : Text) → n < 256 ^ size → load size (little_endian size n ++ rest) 0 ≡ ok n
unfolding load
load-little_endian zero n rest h = ap (λ k. ok k) (omega arith)
load-little_endian (suc size) n rest h =
    rw
      (
        load-cons size (n % 256) (little_endian size (n / 256) ++ rest) 0,
        load-little_endian size (n / 256) rest (omega (arith, pow.suc 256 size)),
      )
      (ap (λ k. ok k) (omega arith))

-- A width with its two powers written out
module _ (bits half : ℕ) (e : 2 ^ (bits - 1) ≡ half) (f : 2 ^ bits ≡ 2 * half) where
  signed-unsigned : (z : ℤ) → InRange bits z → signed bits (unsigned bits z) ≡ z
  signed-unsigned (pos n) h = rw (lt→ltb n (2 ^ (bits - 1)) h) refl
  signed-unsigned (negsuc n) h =
      rw (le→ltb (2 ^ bits - 1 - n) (2 ^ (bits - 1)) (omega (arith, e, f)))
        (ap (λ k. negsuc k) (omega (arith, e, f)))

  unsigned-lt : (z : ℤ) → InRange bits z → unsigned bits z < 2 ^ bits
  unsigned-lt (pos n) h = omega (arith, e, f)
  unsigned-lt (negsuc n) h = omega (arith, e, f)

load_signed-unsigned :
    (size half : ℕ) (z : ℤ) (rest : Text)
    → 2 ^ (8 * size - 1) ≡ half
    → 2 ^ (8 * size) ≡ 2 * half
    → 2 ^ (8 * size) ≡ 256 ^ size
    → InRange (8 * size) z
    → load_signed size (little_endian size (unsigned (8 * size) z) ++ rest) 0 ≡ ok z
load_signed-unsigned size half z rest e f g h =
    rw
      (load-little_endian size (unsigned (8 * size) z) rest
        (subst (λ k. unsigned (8 * size) z < k) g (unsigned-lt (8 * size) half e f z h)))
      (ap (λ k. ok k) (signed-unsigned (8 * size) half e f z h))

-- The integers of a message, as the schema has them
pub record Fields : Type 0 where
  pub inst_id_code : ℤ
  pub ts_us : ℤ
  pub out_time : ℤ
  pub seq_id : ℤ
  pub ask_px_mantissa : ℤ
  pub ask_sz_mantissa : ℤ
  pub bid_px_mantissa : ℤ
  pub bid_sz_mantissa : ℤ
  pub ask_ord_count : ℤ
  pub bid_ord_count : ℤ
  pub px_exponent : ℤ
  pub sz_exponent : ℤ

pub record FieldsInRange (f : Fields) : Type 0 where
  pub inst_id_code_fits : InRange 64 f.inst_id_code
  pub ts_us_fits : InRange 64 f.ts_us
  pub out_time_fits : InRange 64 f.out_time
  pub seq_id_fits : InRange 64 f.seq_id
  pub ask_px_fits : InRange 64 f.ask_px_mantissa
  pub ask_sz_fits : InRange 64 f.ask_sz_mantissa
  pub bid_px_fits : InRange 64 f.bid_px_mantissa
  pub bid_sz_fits : InRange 64 f.bid_sz_mantissa
  pub ask_ord_count_fits : InRange 32 f.ask_ord_count
  pub bid_ord_count_fits : InRange 32 f.bid_ord_count
  pub px_exponent_known : exponent_in_range f.px_exponent ≡ true
  pub sz_exponent_known : exponent_in_range f.sz_exponent ≡ true

abbrev int64 : ℤ → Text
int64 z = little_endian 8 (unsigned 64 z)

abbrev int32 : ℤ → Text
int32 z = little_endian 4 (unsigned 32 z)

abbrev int8 : ℤ → Text
int8 z = little_endian 1 (unsigned 8 z)

-- A message: the header, the block, and the further fields of a later version of the schema
unfoldable pub encode_bbo_tbt : ℕ → ℕ → Fields → Text → Text
encode_bbo_tbt block_length version f rest =
    little_endian 2 block_length
    ++ (little_endian 2 1000
        ++ (little_endian 2 1
            ++ (little_endian 2 version
                ++ (int64 f.inst_id_code
                    ++ (int64 f.ts_us
                        ++ (int64 f.out_time
                            ++ (int64 f.seq_id
                                ++ (int64 f.ask_px_mantissa
                                    ++ (int64 f.ask_sz_mantissa
                                        ++ (int64 f.bid_px_mantissa
                                            ++ (int64 f.bid_sz_mantissa
                                                ++ (int32 f.ask_ord_count
                                                    ++ (int32 f.bid_ord_count
                                                        ++ (int8 f.px_exponent
                                                            ++ (int8 f.sz_exponent
                                                            ++ rest)))))))))))))))

pub read_int64 : (z : ℤ) (rest : Text) → InRange 64 z → load_signed 8 (int64 z ++ rest) 0 ≡ ok z
read_int64 z rest h = load_signed-unsigned 8 (2 ^ 63) z rest refl refl refl h

pub read_int32 : (z : ℤ) (rest : Text) → InRange 32 z → load_signed 4 (int32 z ++ rest) 0 ≡ ok z
read_int32 z rest h = load_signed-unsigned 4 (2 ^ 31) z rest refl refl refl h

pub read_int8 : (z : ℤ) (rest : Text) → InRange 8 z → load_signed 1 (int8 z ++ rest) 0 ≡ ok z
read_int8 z rest h = load_signed-unsigned 1 (2 ^ 7) z rest refl refl refl h
