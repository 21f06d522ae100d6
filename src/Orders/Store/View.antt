-- ===== src/Orders/Store/View.antt =====
-- The list of orders that a store holds, and the steps of its operations on that list.
use cpp_trading_engine.Base.{
  ℕ, suc, ◌+◌, ◌≡◌, refl, sym, ap, ◌∙◌, ◌≤◌, ◌<◌, false, none, some, List, map, ltb, Bool-cases,
  inl, inr, length, get_elem?, take, arith, ok, Text, text_eq, text_lt, get_elem?_total,
  get_elem?-take, lt-length_of_get, ltb→lt, lt→ltb, subst, zero, drop, drop_get, drop-all,
}
use cpp_trading_engine.Base.Slots.{get_elem?-map}
use cpp_trading_engine.Base.Sorted.{rank-le-length, test_at}
use cpp_trading_engine.Base.Search.{lower_bound-rank}
use cpp_trading_engine.Orders.Lifecycle.{Order}
use cpp_trading_engine.Orders.Store.{
  OrderStore, capacity, at, lower_bound, is_found, orders_from, all_orders,
}
use cpp_trading_engine.Orders.Store.Spec.{IsOrdered, place, id_of, text-IsStrictOrder}

pub record Stores (xs : List Order) (s : OrderStore) : Type 0 where
  pub storage : length s.slots ≡ capacity
  pub counted : s.count ≡ length xs
  pub within : length xs ≤ capacity
  pub held : take s.count s.slots ≡ map some xs
  pub ordered : IsOrdered xs

module _ (xs : List Order) (s : OrderStore) (v : Stores xs s) where
  pub at_get : (i : ℕ) (x : Order) → get_elem? xs i ≡ some x → at s i ≡ ok x
  at_get i x e =
      let h : i < s.count = subst (λ n. i < n) (sym v.counted) (lt-length_of_get xs i x e) in
      let g : get_elem? s.slots i ≡ some (some x) =
        sym (get_elem?-take s.count i s.slots h)
        ∙ ap (λ l. get_elem? l i) v.held
        ∙ get_elem?-map some xs i x e in
      rw g refl

  pub at_total : (i : ℕ) → i < s.count → (x : Order) × (at s i ≡ ok x) × (get_elem? xs i ≡ some x)
  at_total i h =
      let (x, e) = get_elem?_total xs i (subst (λ n. i < n) v.counted h) in (x, at_get i x e, e)

  test_get :
      (id : Text) (i : ℕ) (x : Order)
      → get_elem? xs i ≡ some x
      → test_at text_lt id_of id xs i ≡ text_lt x.cl_ord_id id
  unfolding test_at
  test_get id i x e = rw (e, test_at) refl

  -- The search returns the place of the id among the orders.
  pub lower_bound-place : (id : Text) → lower_bound s id ≡ ok (place id xs)
  unfolding lower_bound
  lower_bound-place id =
      lower_bound-rank text_lt id_of text-IsStrictOrder id xs s.count _ v.counted v.ordered
        (λ i h. let (x, e, g) = at_total i h in rw e (ap ok (sym (test_get id i x g))))

  pub is_found-some :
      (id : Text) (i : ℕ) (x : Order)
      → get_elem? xs i ≡ some x
      → is_found s id i ≡ ok (text_eq x.cl_ord_id id)
  unfolding is_found
  is_found-some id i x e =
      rw
        (
          lt→ltb i s.count (subst (λ n. i < n) (sym v.counted) (lt-length_of_get xs i x e)),
          at_get i x e,
        )
        refl

  pub is_found-none : (id : Text) (i : ℕ) → get_elem? xs i ≡ none → is_found s id i ≡ ok false
  unfolding is_found
  is_found-none id i e = elim (Bool-cases (ltb i s.count)) [
    | inl h ↦ let (x, a, g) = at_total i (ltb→lt i s.count h) in cc
    | inr h ↦ rw h refl
  ]

  pub place-le : (id : Text) → place id xs ≤ s.count
  place-le id = subst (λ n. place id xs ≤ n) (sym v.counted) (rank-le-length text_lt id_of id xs)

  orders_from-drop : (i left : ℕ) → i + left ≡ s.count → orders_from s i left ≡ ok (drop i xs)
  unfolding orders_from
  orders_from-drop i zero e = ap ok (sym (drop-all i xs (omega (arith, v.counted))))
  orders_from-drop i (suc left) e =
      let (x, a, g) = at_total i (omega arith) in
      rw (a, orders_from-drop (i + 1) left (omega arith)) (ap ok (sym (drop_get xs i x g)))

  -- `ForEach` visits the orders of the list, in order.
  pub all_orders-list : all_orders s ≡ ok xs
  unfolding all_orders
  all_orders-list = orders_from-drop 0 s.count (omega arith)
