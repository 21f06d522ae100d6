-- ===== src/MarketData/PriceLevels/Update.antt =====
-- okx/marketdata/order_book.hpp: `Set` on a valid side of the book, against the update of a sorted list.
use cpp_trading_engine.Base.{
  ℕ, ◌≡◌, refl, sym, ap, ◌∙◌, ◌≤◌, ◌<◌, Bool, true, false, none, some, ltb, Bool-cases,
  Option-cases, get_elem?, set, take, arith, inl, inr, ok, get_elem?_total, get_elem?-take,
  lt-length_of_get, ltb→lt, lt→ltb, subst, some_inj, length-set, take-all,
}
use cpp_trading_engine.Base.Slots.{erase_at, length-erase_at-le}
use cpp_trading_engine.Base.Sorted.{
  IsStrictOrder, insert_at-IsStrictlySorted, erase_at-IsStrictlySorted, set-IsStrictlySorted,
  take-IsStrictlySorted, rank-le-length,
}
use cpp_trading_engine.MarketData.PriceLevels.{
  Level, PriceLevels, capacity, is_found, set_level, view, price_of, IsValid,
}
use cpp_trading_engine.MarketData.PriceLevels.Spec.{
  upsert, place, upsert_absent, upsert_removes, upsert_resizes,
}
use cpp_trading_engine.MarketData.PriceLevels.Refine.{
  Updated, Holds-IsValid, lower_bound-place, length-view, insert_level-Gives, remove_level-Gives,
  set_size-Gives,
}

module _ {V : Type 0} {before same : V → V → Bool} (zero_size : V)
    (o : IsStrictOrder before same) where
  found_none :
      (p : PriceLevels V) (price : V) (i : ℕ)
      → IsValid before p
      → get_elem? (view p) i ≡ none
      → is_found before same zero_size p price i ≡ ok false
  unfolding is_found
  found_none p price i v e = elim (Bool-cases (ltb i p.count)) [
    | inl h ↦
        let (x, g) =
          get_elem?_total (view p) i
            (subst (λ n. i < n) (sym (length-view zero_size o p v)) (ltb→lt i p.count h)) in
        cc
    | inr h ↦ rw h refl
  ]

  in_use :
      (p : PriceLevels V) (i : ℕ) (x : Level V)
      → IsValid before p
      → get_elem? (view p) i ≡ some x
      → i < p.count
  in_use p i x v e =
      subst (λ n. i < n) (length-view zero_size o p v) (lt-length_of_get (view p) i x e)

  found_some :
      (p : PriceLevels V) (price : V) (i : ℕ) (x : Level V)
      → IsValid before p
      → get_elem? (view p) i ≡ some x
      → is_found before same zero_size p price i ≡ ok (same x.price price)
  unfolding is_found
  found_some p price i x v e =
      let h : i < p.count = in_use p i x v e in
      rw (lt→ltb i p.count h, sym (get_elem?-take p.count i p.levels h) ∙ e) refl

  place-le :
      (p : PriceLevels V) (price : V)
      → IsValid before p
      → place before same zero_size price (view p) ≤ p.count
  place-le p price v =
      subst (λ n. place before same zero_size price (view p) ≤ n) (length-view zero_size o p v)
        (rank-le-length before price_of price (view p))

  set_absent :
      (p : PriceLevels V) (price size : V)
      → IsValid before p
      → is_found before same zero_size p price (place before same zero_size price (view p))
        ≡ ok false
      → ((x : Level V)
          → get_elem? (view p) (place before same zero_size price (view p)) ≡ some x
          → same x.price price ≡ false)
      → Updated zero_size o
          (take capacity (upsert before same zero_size price size (view p)))
          (set_level before same zero_size p price size)
  unfolding set_level
  set_absent p price size v f n =
      let x : Level V = record { price = price; size = size } in
      let (q, done, held) =
        insert_level-Gives zero_size o p (place before same zero_size price (view p)) x v
          (place-le p price v) in
      rw
        (
          lower_bound-place zero_size o p price v,
          f,
          upsert_absent before same zero_size price size (view p) n,
        )
        (
          q,
          done,
          held.2,
          Holds-IsValid zero_size o _ q
              (take-IsStrictlySorted before price_of capacity _
                (insert_at-IsStrictlySorted before price_of o x (view p) v.sorted n))
              held,
        )

  set_removes :
      (p : PriceLevels V) (price size : V) (x : Level V)
      → IsValid before p
      → get_elem? (view p) (place before same zero_size price (view p)) ≡ some x
      → same x.price price ≡ true
      → same size zero_size ≡ true
      → Updated zero_size o
          (take capacity (upsert before same zero_size price size (view p)))
          (set_level before same zero_size p price size)
  unfolding set_level
  set_removes p price size x v e k z =
      let i : ℕ = place before same zero_size price (view p) in
      let (q, done, held) = remove_level-Gives zero_size o p i v (in_use p i x v e) in
      rw
        (
          lower_bound-place zero_size o p price v,
          found_some p price i x v e,
          k,
          z,
          upsert_removes before same zero_size price size (view p) x e k z,
          take-all capacity (erase_at i (view p))
              (omega (arith, length-erase_at-le i (view p), length-view zero_size o p v, v.within)),
        )
        (
          q,
          done,
          held.2,
          Holds-IsValid zero_size o (erase_at i (view p)) q
              (erase_at-IsStrictlySorted before price_of i (view p) v.sorted) held,
        )

  set_resizes :
      (p : PriceLevels V) (price size : V) (x : Level V)
      → IsValid before p
      → get_elem? (view p) (place before same zero_size price (view p)) ≡ some x
      → same x.price price ≡ true
      → same size zero_size ≡ false
      → Updated zero_size o
          (take capacity (upsert before same zero_size price size (view p)))
          (set_level before same zero_size p price size)
  unfolding set_level
  set_resizes p price size x v e k z =
      let i : ℕ = place before same zero_size price (view p) in
      let y : Level V = record x { size = size } in
      let (q, done, held) = set_size-Gives zero_size o p i size x v e (in_use p i x v e) in
      rw
        (
          lower_bound-place zero_size o p price v,
          found_some p price i x v e,
          k,
          z,
          upsert_resizes before same zero_size price size (view p) x e k z,
          take-all capacity (set (view p) i y)
              (omega (arith, length-set (view p) i y, length-view zero_size o p v, v.within)),
        )
        (
          q,
          done,
          held.2,
          Holds-IsValid zero_size o (set (view p) i y) q
              (set-IsStrictlySorted before price_of i y x (view p) e refl v.sorted) held,
        )

  -- Where the comparison is a strict total order of the prices, so that none is NaN: whatever the
  -- price and the size, `Set` succeeds on a valid side, stays inside the array, and is the reference
  -- update of the sorted levels in use, of which the best `capacity` are kept.
  pub set_level-upsert :
      (p : PriceLevels V) (price size : V)
      → IsValid before p
      → Updated zero_size o
          (take capacity (upsert before same zero_size price size (view p)))
          (set_level before same zero_size p price size)
  set_level-upsert p price size v =
      let i : ℕ = place before same zero_size price (view p) in
      elim (Option-cases (get_elem? (view p) i)) [
        | inl e ↦ set_absent p price size v (found_none p price i v e) (λ y g. cc)
        | inr (x, e) ↦ elim (Bool-cases (same x.price price)) [
          | inr k ↦
              set_absent p price size v (found_some p price i x v e ∙ ap ok k)
                (λ y g. subst (λ z. same z.price price ≡ false) (some_inj x y (sym e ∙ g)) k)
          | inl k ↦ elim (Bool-cases (same size zero_size)) [
            | inl z ↦ set_removes p price size x v e k z
            | inr z ↦ set_resizes p price size x v e k z
          ]
        ]
      ]
