-- ===== src/Orders/Requests/Ids.antt =====
-- okx/orders/order_types.cpp: the ids that `GenerateId` makes, one after another.
use cpp_trading_engine.Base.{
  ℕ, zero, suc, ◌+◌, ◌-◌, ◌*◌, ◌/◌, ◌%◌, ◌^◌, ◌≡◌, ◌<◌, ◌≤◌, ◌≢◌, max, refl, sym, ap, ◌∙◌,
  Bool-cases, List, [], ◌∷◌, ◌==◌, Text, All, All-map, arith, inl, inr,
}
use cpp_trading_engine.Orders.Requests.{digits_before, decimal, generate_id}
use Prim.Native.Nat.pow

-- The number that a text of digits reads as, with what stands before it.
unfoldable pub number : ℕ → Text → ℕ
number before [] = before
number before (c ∷ text) = number (before * 10 + (c - 48)) text

digits_before-number :
    (digits n : ℕ) (text : Text)
    → n < 10 ^ digits
    → number 0 (digits_before digits n text) ≡ number n text
unfolding digits_before number
digits_before-number zero n text h = ap (λ k. number k text) (omega arith)
digits_before-number (suc digits) n text h = elim (Bool-cases (n / 10 == 0)) [
  | inl e ↦ rw e (ap (λ k. number k text) (ground arith))
  | inr e ↦ rw e (
      digits_before-number digits (n / 10) ((48 + n % 10) ∷ text) (omega (arith, pow.suc 10 digits))
      ∙ ap (λ k. number k text) (omega arith))
]

-- The decimal text of a number reads as the number.
pub decimal-number : (n : ℕ) → n < 10 ^ 20 → number 0 (decimal n) ≡ n
unfolding decimal number
decimal-number n h = digits_before-number 20 n [] h

-- The ids of one call after another, at the clock's readings, which may go back, and the last number.
unfoldable pub ids_from : ℕ → List ℕ → List Text
unfolding generate_id
ids_from last_id [] = []
ids_from last_id (now_ms ∷ times) =
    let (next, id) = generate_id now_ms last_id in id ∷ ids_from next times

unfoldable pub last_from : ℕ → List ℕ → ℕ
unfolding generate_id
last_from last_id [] = last_id
last_from last_id (now_ms ∷ times) = last_from (generate_id now_ms last_id).0 times

last_from-le : (last_id : ℕ) (times : List ℕ) → last_id ≤ last_from last_id times
unfolding last_from generate_id
last_from-le last_id [] = omega arith
last_from-le last_id (now_ms ∷ times) = omega (arith, last_from-le (max (last_id + 1) now_ms) times)

-- The text of a number that comes after `last_id` and not after `end`
abbrev IsLater : ℕ → ℕ → Text → Type 0
IsLater last_id end id = (n : ℕ) × (last_id < n) × (n ≤ end) × (id ≡ decimal n)

later : (a b end : ℕ) (id : Text) → a ≤ b → IsLater b end id → IsLater a end id
later a b end id h (n, k, l, e) = (n, omega arith, l, e)

ids_from-IsLater :
    (last_id : ℕ) (times : List ℕ)
    → All (IsLater last_id (last_from last_id times)) (ids_from last_id times)
unfolding ids_from last_from generate_id
ids_from-IsLater last_id [] = tt
ids_from-IsLater last_id (now_ms ∷ times) =
    let next = max (last_id + 1) now_ms in
    let end = last_from next times in
    (
      (next, omega arith, last_from-le next times, refl),
      All-map (IsLater next end) (IsLater last_id end) (ids_from next times)
          (λ id. later last_id next end id (omega arith)) (ids_from-IsLater next times),
    )

abbrev pub AllDistinct : List Text → Type 0
AllDistinct [] = Unit
AllDistinct (x ∷ xs) = All (λ y. x ≢ y) xs × AllDistinct xs

-- No two ids of a run are the same text, whatever the clock does, as long as the numbers stay below
-- 10^20, which those of 63 bits do.
pub ids_from-AllDistinct :
    (last_id : ℕ) (times : List ℕ)
    → last_from last_id times < 10 ^ 20
    → AllDistinct (ids_from last_id times)
unfolding ids_from last_from generate_id
ids_from-AllDistinct last_id [] h = tt
ids_from-AllDistinct last_id (now_ms ∷ times) h =
    let next = max (last_id + 1) now_ms in
    let end = last_from next times in
    let small : next < 10 ^ 20 = omega (arith, last_from-le next times) in
    (
      All-map (IsLater next end) (λ id. decimal next ≢ id) (ids_from next times)
          (λ id (n, k, l, e) same.
            let q : next ≡ n =
              sym (decimal-number next small)
              ∙ ap (number 0) (same ∙ e)
              ∙ decimal-number n (omega arith) in
            absurd (omega arith))
          (ids_from-IsLater next times),
      ids_from-AllDistinct next times h,
    )
