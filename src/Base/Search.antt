-- ===== src/Base/Search.antt =====
-- The binary search of a sorted list returns the rank of the key.
use Prim.Native.Nat.{ℕ, suc, ◌<◌}
use mathlib.Core.Path.{◌≡◌, refl, ap, ◌∙◌}
use mathlib.Core.Bool.{Bool}
use mathlib.Core.Option.{some}
use mathlib.Core.List.{List}
use native.Mathlib.Omega.{arith}
use cpp_trading_engine.Base.Lists.{length, get_elem?, take, get_elem?-take}
use cpp_trading_engine.Base.Results.{Result, ok}
use cpp_trading_engine.Base.Bisect.{lower_bound, lower_bound-Found}
use cpp_trading_engine.Base.Sorted.{test_at, rank, IsSorted, IsStrictOrder, boundary-rank}

module _ {ℓ κ} {K : Type ℓ} {E : Type κ} (before : K → K → Bool) (key : E → K) where
  pub test_at-take :
      (k : K) (n i : ℕ) (xs : List E) (x : E)
      → i < n
      → get_elem? xs i ≡ some x
      → test_at before key k (take n xs) i ≡ before (key x) k
  unfolding test_at
  test_at-take k n i xs x h e = rw (get_elem?-take n i xs h, e, test_at) refl

  pub lower_bound-rank :
      {same : K → K → Bool} (o : IsStrictOrder before same) (k : K) (xs : List E) (n : ℕ)
      (probe : ℕ → Result Bool)
      → n ≡ length xs
      → IsSorted before key xs
      → ((i : ℕ) → i < n → probe i ≡ ok (test_at before key k xs i))
      → lower_bound probe (suc n) 0 n ≡ ok (rank before key k xs)
  lower_bound-rank o k xs n probe len s total =
      let (r, e, b) = lower_bound-Found probe (test_at before key k xs) n total in
      e
      ∙ ap ok (
          boundary-rank before key o.below k xs r s (omega (arith, b.0)) b.1
            (λ q. b.2 (omega arith)))
