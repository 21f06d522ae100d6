-- ===== src/MarketData/PriceLevels/Refine.antt =====
-- A valid side of the book is the sorted list of the levels in use, and `Set` is `upsert` on it.
use cpp_trading_engine.Base.{
  ℕ, suc, ◌-◌, ◌≡◌, refl, sym, ap, ◌∙◌, ◌≤◌, ◌<◌, Bool, some, List, ltb, Bool-cases, length,
  get_elem?, set, take, arith, inl, inr, Result, ok, get_elem?_total, get_elem?-take, length-take,
  length-set, take-all, lt→ltb, le→leb, le→leb_false, subst, ne→==, ltb→lt,
}
use native.Mathlib.Numerals.{add-one}
use cpp_trading_engine.Base.Slots.{
  shift_up, shift_down, move_up-shift_up, move_down-shift_down, write_slot-set, take-insert_at,
  take-insert_at_ge, length-insert_at, take-take, take-set, insert_at, erase_at, take-shift_up,
  take-shift_down, length-shift_up, length-shift_down,
}
use cpp_trading_engine.Base.Search.{lower_bound-rank, test_at-take}
use cpp_trading_engine.Base.Sorted.{IsStrictOrder, IsStrictlySorted-IsSorted, IsStrictlySorted}
use cpp_trading_engine.MarketData.PriceLevels.{
  Level, PriceLevels, capacity, level_at, lower_bound, insert_level, remove_level, set_size, view,
  price_of, IsValid,
}
use cpp_trading_engine.MarketData.PriceLevels.Spec.{place}

module _ {V : Type 0} {before same : V → V → Bool} (zero_size : V)
    (o : IsStrictOrder before same) where
  pub length-view : (p : PriceLevels V) → IsValid before p → length (view p) ≡ p.count
  length-view p v = omega (arith, length-take p.count p.levels, v.storage, v.within)

  pub level_at_total :
      (p : PriceLevels V) (i : ℕ)
      → IsValid before p
      → i < p.count
      → (x : Level V) × (level_at p i ≡ ok x) × (get_elem? p.levels i ≡ some x)
  level_at_total p i v h =
      let (x, e) = get_elem?_total p.levels i (omega (arith, v.storage, v.within)) in
      (x, rw e refl, e)

  -- The search returns the place of the price among the levels in use.
  pub lower_bound-place :
      (p : PriceLevels V) (price : V)
      → IsValid before p
      → lower_bound before same zero_size p price ≡ ok (place before same zero_size price (view p))
  unfolding lower_bound
  lower_bound-place p price v =
      lower_bound-rank before price_of o price (view p) p.count _ (sym (length-view p v))
        (IsStrictlySorted-IsSorted before price_of o (view p) v.sorted)
        (λ i h.
          let (x, e, g) = level_at_total p i v h in
          rw (e, test_at-take before price_of price p.count i p.levels x h g))

  -- What a side of the book is to be after an update: the array keeps its size, and the levels in
  -- use are those given.
  abbrev pub Holds : List (Level V) → PriceLevels V → Type 0
  Holds xs q = (length q.levels ≡ capacity) × (q.count ≤ capacity) × (view q ≡ xs)

  -- The call returns such a side.
  abbrev pub Gives : List (Level V) → Result (PriceLevels V) → Type 0
  Gives xs r = (q : PriceLevels V) × (r ≡ ok q) × Holds xs q

  insert_full :
      (xs : List (Level V)) (i n : ℕ) (x : Level V)
      → length xs ≡ capacity
      → i < capacity
      → n ≡ capacity
      → Gives
          (take capacity (insert_at i x (take n xs)))
          (insert_level (record { levels = xs; count = n }) i x)
  unfolding insert_level
  insert_full xs i n x len h e =
      rw
        (
          e,
          le→leb_false capacity i h,
          move_up-shift_up xs i 31 (omega arith),
          write_slot-set (shift_up xs i 31) i x (omega (arith, length-shift_up xs i 31)),
        )
        (
          _,
          refl,
          (
            length-set (shift_up xs i 31) i x ∙ length-shift_up xs i 31 ∙ len,
            omega arith,
            take-shift_up xs i 31 x (omega arith) (omega arith)
                ∙ ap (insert_at i x) (sym (take-take 31 32 xs (omega arith)))
                ∙ sym (take-insert_at i 31 x (take 32 xs) (omega arith)),
          ),
        )

  insert_past :
      (p : PriceLevels V) (i : ℕ) (x : Level V)
      → IsValid before p
      → i ≤ p.count
      → capacity ≤ i
      → Gives (take capacity (insert_at i x (view p))) (insert_level p i x)
  unfolding insert_level
  insert_past p i x v h c = rw (le→leb capacity i c) (
    p,
    refl,
    (
      v.storage,
      v.within,
      sym (
          take-insert_at_ge i capacity x (view p) c (omega (arith, length-view p v))
          ∙ take-all capacity (view p) (omega (arith, length-view p v))),
    ),
  )

  insert_room :
      (p : PriceLevels V) (i : ℕ) (x : Level V)
      → IsValid before p
      → i ≤ p.count
      → p.count < capacity
      → Gives (take capacity (insert_at i x (view p))) (insert_level p i x)
  unfolding insert_level
  insert_room p i x v h c =
      rw
        (
          le→leb_false capacity i (omega arith),
          ne→== p.count capacity (λ e. omega arith),
          lt→ltb p.count capacity c,
          move_up-shift_up p.levels i p.count (omega (arith, v.storage)),
          write_slot-set (shift_up p.levels i p.count) i x
              (omega (arith, v.storage, length-shift_up p.levels i p.count)),
          add-one,
        )
        (
          _,
          refl,
          (
            length-set (shift_up p.levels i p.count) i x
                ∙ length-shift_up p.levels i p.count
                ∙ v.storage,
            omega arith,
            take-shift_up p.levels i p.count x h (omega (arith, v.storage))
                ∙ sym (
                    take-all capacity (insert_at i x (view p))
                      (omega (arith, length-insert_at i x (view p), length-view p v))),
          ),
        )

  pub insert_level-Gives :
      (p : PriceLevels V) (i : ℕ) (x : Level V)
      → IsValid before p
      → i ≤ p.count
      → Gives (take capacity (insert_at i x (view p))) (insert_level p i x)
  insert_level-Gives p i x v h = elim (Bool-cases (ltb p.count capacity)) [
    | inl room ↦ insert_room p i x v h (ltb→lt p.count capacity room)
    | inr full ↦ elim (Bool-cases (ltb i capacity)) [
      | inl e ↦
          insert_full p.levels i p.count x v.storage (ltb→lt i capacity e)
            (ground (arith, v.within))
      | inr e ↦ insert_past p i x v h (ground arith)
    ]
  ]

  pub remove_level-Gives :
      (p : PriceLevels V) (i : ℕ)
      → IsValid before p
      → i < p.count
      → Gives (erase_at i (view p)) (remove_level p i)
  unfolding remove_level
  remove_level-Gives p i v h =
      let e : p.count ≡ suc (p.count - 1) = omega arith in
      rw (move_down-shift_down p.count p.levels i p.count (omega (arith, v.within, v.storage))) (
        _,
        refl,
        (
          length-shift_down p.count p.levels i p.count ∙ v.storage,
          omega (arith, v.within),
          subst
              (λ n.
                take (p.count - 1) (shift_down p.count p.levels i n) ≡ erase_at i (take n p.levels))
              (sym e)
              (take-shift_down p.levels i (p.count - 1) p.count (omega arith)
                (omega (arith, v.within, v.storage)) (omega arith)),
        ),
      )

  pub set_size-Gives :
      (p : PriceLevels V) (i : ℕ) (size : V) (x : Level V)
      → IsValid before p
      → get_elem? (view p) i ≡ some x
      → i < p.count
      → Gives (set (view p) i (record x { size = size })) (set_size before same zero_size p i size)
  set_size-Gives p i size x v e h =
      let y : Level V = record x { size = size } in
      rw
        (
          sym (get_elem?-take p.count i p.levels h) ∙ e,
          write_slot-set p.levels i y (omega (arith, v.within, v.storage)),
        )
        (_, refl, (length-set p.levels i y ∙ v.storage, v.within, take-set p.count i p.levels y))

  -- A side that holds a strictly sorted list is valid.
  pub Holds-IsValid :
      (xs : List (Level V)) (q : PriceLevels V)
      → IsStrictlySorted before price_of xs
      → Holds xs q
      → IsValid before q
  Holds-IsValid xs q s h = record { storage = h.0; within = h.1; sorted = rw h.2 s }

  abbrev pub Updated : List (Level V) → Result (PriceLevels V) → Type 0
  Updated xs r = (q : PriceLevels V) × (r ≡ ok q) × (view q ≡ xs) × IsValid before q
