-- ===== src/Net/Frame/Xor.antt =====
-- net/websocket_frame.cpp: masking twice with the same key.
use cpp_trading_engine.Base.{
  ℕ, zero, suc, ◌+◌, ◌*◌, ◌/◌, ◌%◌, ◌^◌, ◌≡◌, ◌<◌, refl, ap, Bool-cases, [], ◌∷◌, if◌then◌else◌,
  ◌==◌, length, Text, ok, arith, get_elem?, some, subst, Result-cases, ok_inj, inl, inr, All,
  get_elem?_total,
}
use cpp_trading_engine.Net.Frame.{xor, mask_from}
use Prim.Native.Nat.pow

bit_of : (a b r : ℕ) → ((if a % 2 == b % 2 then 0 else 1) + 2 * r) / 2 ≡ r
bit_of a b r = ground arith

same_bit :
    (a b r : ℕ)
    → (if ((if a % 2 == b % 2 then 0 else 1) + 2 * r) % 2 == b % 2 then 0 else 1) ≡ a % 2
same_bit a b r = ground arith

pub xor-xor : (bits a b : ℕ) → a < 2 ^ bits → xor bits (xor bits a b) b ≡ a
unfolding xor
xor-xor zero a b h = omega (arith, h)
xor-xor (suc bits) a b h =
    let r = xor bits (a / 2) (b / 2) in
    let half : a / 2 < 2 ^ bits = omega (arith, pow.suc 2 bits) in
    rw (bit_of a b r, same_bit a b r, xor-xor bits (a / 2) (b / 2) half) (omega arith)

-- Each masked byte is a byte.
xor-lt : (bits a b : ℕ) → xor bits a b < 2 ^ bits
unfolding xor
xor-lt zero a b = omega arith
xor-lt (suc bits) a b =
    let h = xor-lt bits (a / 2) (b / 2) in
    elim (Bool-cases (a % 2 == b % 2)) [
      | inl e ↦ rw e (omega (arith, pow.suc 2 bits))
      | inr e ↦ rw e (omega (arith, pow.suc 2 bits))
    ]

-- The bit of the number `j`, the lowest first
abbrev pub bit : ℕ → ℕ → ℕ
bit zero n = n % 2
bit (suc j) n = bit j (n / 2)

lowest_bit : (a b r : ℕ) → ((if a % 2 == b % 2 then 0 else 1) + 2 * r) % 2 ≡ (a % 2 + b % 2) % 2
lowest_bit a b r = ground arith

xor-bit : (bits a b j : ℕ) → j < bits → bit j (xor bits a b) ≡ (bit j a + bit j b) % 2
unfolding xor
xor-bit zero a b j h = absurd (omega (arith, h))
xor-bit (suc bits) a b zero h = lowest_bit a b (xor bits (a / 2) (b / 2))
xor-bit (suc bits) a b (suc j) h =
    rw (bit_of a b (xor bits (a / 2) (b / 2))) (xor-bit bits (a / 2) (b / 2) j (omega arith))

-- Each byte of the masked payload is the exclusive or of the payload's byte and of the key's byte of the
-- same position modulo four: bit by bit, the sum modulo two.
pub record Masked (key payload masked : Text) (first i : ℕ) : Type 0 where
  pub plain_byte : ℕ
  pub key_byte : ℕ
  pub masked_byte : ℕ
  pub plain_at : get_elem? payload i ≡ some plain_byte
  pub key_at : get_elem? key ((first + i) % 4) ≡ some key_byte
  pub masked_at : get_elem? masked i ≡ some masked_byte
  pub is_byte : masked_byte < 256
  pub bits : (j : ℕ) → j < 8 → bit j masked_byte ≡ (bit j plain_byte + bit j key_byte) % 2

Masked-cons :
    (key payload masked : Text) (b m first i : ℕ)
    → Masked key payload masked (first + 1) i
    → Masked key (b ∷ payload) (m ∷ masked) first (suc i)
Masked-cons key payload masked b m first i h = record {
  plain_byte = h.plain_byte;
  key_byte = h.key_byte;
  masked_byte = h.masked_byte;
  plain_at = h.plain_at;
  key_at = subst (λ n. get_elem? key (n % 4) ≡ some h.key_byte) (moved first i) h.key_at;
  masked_at = h.masked_at;
  is_byte = h.is_byte;
  bits = h.bits;
}
  where
    moved : (a b : ℕ) → a + 1 + b ≡ a + suc b
    moved a b = omega arith

pub mask_from-Masked :
    (key : Text) (first : ℕ) (payload masked : Text)
    → length key ≡ 4
    → mask_from key first payload ≡ ok masked
    → (i : ℕ) → i < length payload
    → Masked key payload masked first i
unfolding mask_from
mask_from-Masked key first [] masked h e i l = absurd (omega arith)
mask_from-Masked key first (b ∷ bs) masked h e i l =
    let (k, g) = get_elem?_total key (first % 4) (omega (arith, h)) in
    elim (Result-cases (mask_from key (first + 1) bs)) [
      | inr (x, f) ↦ absurd (cc (rw (g, f) at e))
      | inl (rest, f) ↦
          subst (λ t. Masked key (b ∷ bs) t first i) (ok_inj _ masked (rw (g, f) at e))
            (at_index k rest g f (λ n less. mask_from-Masked key (first + 1) bs rest h f n less) i
              l)
    ]
  where
    at_index :
        (k : ℕ) (rest : Text)
        → get_elem? key (first % 4) ≡ some k
        → mask_from key (first + 1) bs ≡ ok rest
        → ((n : ℕ) → n < length bs → Masked key bs rest (first + 1) n)
        → (i : ℕ) → i < suc (length bs)
        → Masked key (b ∷ bs) (xor 8 b k ∷ rest) first i
    at_index k rest g f behind zero l = record {
      plain_byte = b;
      key_byte = k;
      masked_byte = xor 8 b k;
      plain_at = refl;
      key_at = subst (λ n. get_elem? key (n % 4) ≡ some k) (start first) g;
      masked_at = refl;
      is_byte = xor-lt 8 b k;
      bits = λ j h. xor-bit 8 b k j h;
    }
      where
        start : (a : ℕ) → a ≡ a + 0
        start a = omega arith
    at_index k rest g f behind (suc i) l =
        Masked-cons key bs rest b (xor 8 b k) first i (behind i (omega arith))

-- A key of four bytes masks any payload of bytes, to one of the same length, and masking the result
-- with it gives the payload back.
pub mask_from-mask_from :
    (key : Text) (i : ℕ) (payload : Text)
    → length key ≡ 4
    → All (λ b. b < 256) payload
    → (masked : Text) × (mask_from key i payload ≡ ok masked)
      × (length masked ≡ length payload)
      × (mask_from key i masked ≡ ok payload)
unfolding mask_from
mask_from-mask_from key i [] h a = ([], refl, refl, refl)
mask_from-mask_from key i (b ∷ bs) h a =
    let (k, e) = get_elem?_total key (i % 4) (omega (arith, h)) in
    let (masked, f, len, g) = mask_from-mask_from key (i + 1) bs h a.1 in
    let back : xor 8 (xor 8 b k) k ≡ b = xor-xor 8 b k a.0 in
    rw (e, f) (xor 8 b k ∷ masked, refl, ap suc len, rw (e, g, back) refl)
