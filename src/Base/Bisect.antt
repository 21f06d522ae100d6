-- ===== src/Base/Bisect.antt =====
-- The binary search that `PriceLevels` and `OrderStore` make for the place of a key.
use cpp_trading_engine.Base.Tests.{ltb, if◌then◌else◌, Bool-cases}
use cpp_trading_engine.Base.Results.{out_of_fuel, Result, ok, err, ◌>>=◌}
use Prim.Native.Nat.{ℕ, zero, suc, ◌+◌, ◌-◌, ◌/◌, ◌≤◌, ◌<◌}
use mathlib.Core.Path.{◌≡◌, ap, subst, ◌∙◌}
use mathlib.Core.Logic.{inl, inr}
use mathlib.Core.Bool.{Bool, true, false}
use native.Mathlib.Omega.{arith}

-- `while (begin < end) { mid = begin + (end - begin) / 2; if (before(mid)) begin = mid + 1;
-- else end = mid; } return begin;` The test may fault.
unfoldable pub lower_bound : (ℕ → Result Bool) → ℕ → ℕ → ℕ → Result ℕ
lower_bound before zero begin end = err out_of_fuel
lower_bound before (suc fuel) begin end =
    let mid = begin + (end - begin) / 2 in
    let loop : Result ℕ = (before mid) >>= λ b. elim b [
      | true ↦ lower_bound before fuel (mid + 1) end
      | false ↦ lower_bound before fuel begin mid
    ] in
    if ltb begin end then loop else ok begin

-- What the search returns when the test does not fault: an index between an element that passes
-- the test and one that fails it.
abbrev pub Boundary : (ℕ → Bool) → ℕ → ℕ → Type 0
Boundary t n r = (r ≤ n) × ((i : ℕ) → r ≡ suc i → t i ≡ true) × (r < n → t r ≡ false)

abbrev middle : ℕ → ℕ → ℕ
middle begin end = begin + (end - begin) / 2

module _ (before : ℕ → Result Bool) (fuel begin end : ℕ) where
  lower_bound_done : ltb begin end ≡ false → lower_bound before (suc fuel) begin end ≡ ok begin
  unfolding lower_bound
  lower_bound_done h = rw h

  lower_bound_right :
      ltb begin end ≡ true
      → before (middle begin end) ≡ ok true
      → lower_bound before (suc fuel) begin end ≡ lower_bound before fuel (middle begin end + 1) end
  unfolding lower_bound
  lower_bound_right h e = rw (h, e)

  lower_bound_left :
      ltb begin end ≡ true
      → before (middle begin end) ≡ ok false
      → lower_bound before (suc fuel) begin end ≡ lower_bound before fuel begin (middle begin end)
  unfolding lower_bound
  lower_bound_left h e = rw (h, e)

succ_injective : (m i : ℕ) → m + 1 ≡ suc i → m ≡ i
succ_injective m i p = omega arith

abbrev pub Found : (ℕ → Bool) → ℕ → Result ℕ → Type 0
Found t n found = (r : ℕ) × (found ≡ ok r) × (Boundary t n r)

module _ (before : ℕ → Result Bool) (t : ℕ → Bool) (n : ℕ)
    (total : (i : ℕ) → i < n → before i ≡ ok (t i)) where
  lower_bound_from :
      (fuel begin end : ℕ)
      → begin ≤ end
      → end ≤ n
      → end - begin < fuel
      → ((i : ℕ) → begin ≡ suc i → t i ≡ true)
      → (end < n → t end ≡ false)
      → Found t n (lower_bound before fuel begin end)
  lower_bound_from zero begin end be en f lo hi = absurd (omega arith)
  lower_bound_from (suc fuel) begin end be en f lo hi = elim (Bool-cases (ltb begin end)) [
    | inr done ↦ (
      begin,
      lower_bound_done before fuel begin end done,
      (omega arith, lo, λ h. ground (arith, hi)),
    )
    | inl more ↦ elim (Bool-cases (t (middle begin end))) [
      | inl e ↦
          rw
            (lower_bound_right before fuel begin end more
              (total (middle begin end) (ground arith) ∙ ap ok e))
            (lower_bound_from fuel (middle begin end + 1) end (ground arith) en (ground arith)
              (λ i p. subst (λ k. t k ≡ true) (succ_injective (middle begin end) i p) e) hi)
      | inr e ↦
          rw
            (lower_bound_left before fuel begin end more
              (total (middle begin end) (ground arith) ∙ ap ok e))
            (lower_bound_from fuel begin (middle begin end) (ground arith) (ground arith)
              (ground arith) lo (λ _. e))
    ]
  ]

  -- With more fuel than there are elements the search over all of them ends.
  pub lower_bound-Found : Found t n (lower_bound before (suc n) 0 n)
  lower_bound-Found =
      lower_bound_from (suc n) 0 n (omega arith) (omega arith) (omega arith)
        (λ i p. absurd (omega arith)) (λ h. absurd (omega arith))
