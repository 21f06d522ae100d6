-- ===== src/MarketData/PriceLevels/Spec.antt =====
-- One side of the book as a sorted list, updated by a scan from the front.
use cpp_trading_engine.Base.{
  ℕ, ◌≡◌, refl, ap, Bool, true, false, some, List, [], ◌∷◌, if◌then◌else◌, Bool-cases, get_elem?,
  set, arith, inl, inr,
}
use cpp_trading_engine.Base.Slots.{insert_at, erase_at}
use cpp_trading_engine.Base.Sorted.{rank}
use cpp_trading_engine.MarketData.PriceLevels.{Level, price_of}

module _ {V : Type 0} (before same : V → V → Bool) (zero_size : V) where
  -- Past the levels that are before the price: a level of that price is removed if the size is zero
  -- and takes the new size if not; where there is none a level is inserted, whatever its size.
  unfoldable pub upsert : V → V → List (Level V) → List (Level V)
  upsert price size [] = record { price = price; size = size } ∷ []
  upsert price size (x ∷ xs) =
      let rest = upsert price size xs in
      if before x.price price
      then x ∷ rest
      else (if same x.price price
          then (if same size zero_size then xs else record x { size = size } ∷ xs)
          else record { price = price; size = size } ∷ x ∷ xs)

  abbrev pub place : V → List (Level V) → ℕ
  place price xs = rank before price_of price xs

  pub upsert_absent :
      (price size : V) (xs : List (Level V))
      → ((x : Level V) → get_elem? xs (place price xs) ≡ some x → same x.price price ≡ false)
      → upsert price size xs ≡ insert_at (place price xs) (record { price = price; size = size }) xs
  unfolding upsert rank
  upsert_absent price size [] h = refl
  upsert_absent price size (x ∷ xs) h = elim (Bool-cases (before x.price price)) [
    | inl e ↦ rw e (ap (◌∷◌ x) (upsert_absent price size xs (λ y p. h y (rw e p))))
    | inr e ↦ rw (e, h x (rw e refl)) refl
  ]

  pub upsert_removes :
      (price size : V) (xs : List (Level V)) (x : Level V)
      → get_elem? xs (place price xs) ≡ some x
      → same x.price price ≡ true
      → same size zero_size ≡ true
      → upsert price size xs ≡ erase_at (place price xs) xs
  unfolding upsert rank
  upsert_removes price size [] x h k z = cc
  upsert_removes price size (y ∷ ys) x h k z = elim (Bool-cases (before y.price price)) [
    | inl e ↦ rw e (ap (◌∷◌ y) (upsert_removes price size ys x (rw e at h) k z))
    | inr e ↦ ground arith
  ]

  pub upsert_resizes :
      (price size : V) (xs : List (Level V)) (x : Level V)
      → get_elem? xs (place price xs) ≡ some x
      → same x.price price ≡ true
      → same size zero_size ≡ false
      → upsert price size xs ≡ set xs (place price xs) (record x { size = size })
  unfolding upsert rank
  upsert_resizes price size [] x h k z = cc
  upsert_resizes price size (y ∷ ys) x h k z = elim (Bool-cases (before y.price price)) [
    | inl e ↦ rw e (ap (◌∷◌ y) (upsert_resizes price size ys x (rw e at h) k z))
    | inr e ↦ ground arith
  ]
