-- ===== src/Orders/Store/Refine.antt =====
-- The operations of the store against those of the sorted list of its orders.
use cpp_trading_engine.Base.{
  ℕ, suc, ◌+◌, ◌-◌, ◌≡◌, refl, sym, ap, ◌∙◌, ◌≤◌, ◌<◌, true, false, Option, none, some, List, [],
  if◌then◌else◌, Bool-cases, Option-cases, inl, inr, length, get_elem?, set, take, arith, Result,
  ok, err, store_full, Text, text_eq, text_lt, lt-length_of_get, subst, length-set, le→leb,
  le→leb_false, some_inj, is_some, length-replicate,
}
use native.Mathlib.Numerals.{add-one}
use cpp_trading_engine.Base.Slots.{
  insert_at, erase_at, shift_up, shift_down, take-shift_up, take-shift_down, length-shift_up,
  length-shift_down, map-insert_at, map-erase_at, map-set, take-set, take-set_ge, length-insert_at,
  length-erase_at,
}
use cpp_trading_engine.Base.Sorted.{insert_at-IsSorted, erase_at-IsSorted, set-IsSorted}
use cpp_trading_engine.Orders.Lifecycle.{Order}
use cpp_trading_engine.Orders.Store.{
  OrderStore, capacity, at, is_found, write, add_order, remove, find_by_cl_ord_id, empty_store,
}
use cpp_trading_engine.Orders.Store.Spec.{
  place, id_of, text-IsStrictOrder, insert_order, find_order, remove_order, find_order_hit,
  remove_order_hit, order_miss, insert_order-insert_at,
}
use cpp_trading_engine.Orders.Store.View.{
  Stores, at_get, lower_bound-place, is_found-some, is_found-none, place-le,
}

-- `Add` on a store with room succeeds, and inserts the order into the sorted list.
pub add_order-insert_order :
    (xs : List Order) (s : OrderStore) (o : Order)
    → Stores xs s
    → length xs < capacity
    → (q : OrderStore) × (add_order s o ≡ ok q) × Stores (insert_order o xs) q
unfolding add_order
add_order-insert_order xs s o v room =
    let i = place o.cl_ord_id xs in
    rw
      (
        le→leb_false capacity s.count (omega (arith, v.counted)),
        lower_bound-place xs s v o.cl_ord_id,
        insert_order-insert_at o xs,
      )
      (
        record { slots = set (shift_up s.slots i s.count) i (some o); count = s.count + 1 },
        refl,
        record {
          storage =
              length-set (shift_up s.slots i s.count) i (some o)
              ∙ length-shift_up s.slots i s.count
              ∙ v.storage;
          counted = omega (arith, v.counted, length-insert_at i o xs);
          within = omega (arith, length-insert_at i o xs);
          held = rw add-one (
              take-shift_up s.slots i s.count (some o) (place-le xs s v o.cl_ord_id)
                (omega (arith, v.counted, v.storage))
              ∙ ap (insert_at i (some o)) v.held
              ∙ sym (map-insert_at some i o xs));
          ordered = insert_at-IsSorted text_lt id_of text-IsStrictOrder o xs v.ordered;
        },
      )

-- A full store refuses every order.
pub add_order_full :
    (s : OrderStore) (o : Order) → capacity ≤ s.count → add_order s o ≡ err store_full
unfolding add_order
add_order_full s o h = rw (le→leb capacity s.count h) refl

-- What `FindByClOrdId` answers: no pointer where no order has the id, else the place of the first.
pub data Points (xs : List Order) (s : OrderStore) (id : Text) (r : Result (Option ℕ))
    : Type 0 where
  nowhere : r ≡ ok none → find_order id xs ≡ none → Points xs s id r
  to :
      (i : ℕ) (x : Order)
      → r ≡ ok (some i)
      → i ≡ place id xs
      → at s i ≡ ok x
      → get_elem? xs i ≡ some x
      → text_eq x.cl_ord_id id ≡ true
      → find_order id xs ≡ some x
      → Points xs s id r

-- `FindByClOrdId` on a store that holds a sorted list succeeds: it points to the slot of the first
-- order in the list with the id, or nowhere if the list has no such order.
pub find_by_cl_ord_id-Points :
    (xs : List Order) (s : OrderStore) (id : Text)
    → Stores xs s
    → Points xs s id (find_by_cl_ord_id s id)
unfolding find_by_cl_ord_id
find_by_cl_ord_id-Points xs s id v =
    let i = place id xs in
    elim (Option-cases (get_elem? xs i)) [
      | inl e ↦
          nowhere (rw (lower_bound-place xs s v id, is_found-none xs s v id i e) refl)
            (order_miss id xs v.ordered (λ y g. cc)).0
      | inr (x, e) ↦ elim (Bool-cases (text_eq x.cl_ord_id id)) [
        | inl k ↦
            to i x (rw (lower_bound-place xs s v id, is_found-some xs s v id i x e, k) refl) refl
              (at_get xs s v i x e) e k (find_order_hit id xs x e k)
        | inr k ↦
            nowhere (rw (lower_bound-place xs s v id, is_found-some xs s v id i x e, k) refl)
              (order_miss id xs v.ordered
                (λ y g. subst (λ z. text_eq z.cl_ord_id id ≡ false) (some_inj x y (sym e ∙ g)) k)).0
      ]
    ]

erase_slots :
    {A : Type 0} (slots : List A) (i m n : ℕ) (v : A)
    → n ≡ suc m
    → i ≤ m
    → n ≤ length slots
    → take m (set (shift_down n slots i n) m v) ≡ erase_at i (take n slots)
erase_slots slots i m n v e h k =
    take-set_ge m m (shift_down n slots i n) v (omega arith)
    ∙ subst (λ c. take m (shift_down n slots i c) ≡ erase_at i (take c slots)) (sym e)
        (take-shift_down slots i m n h (omega arith) (omega arith))

-- What `Remove` does: the first order with the id goes, and the listener is told if there is one.
abbrev pub Removes : List Order → Text → Result (OrderStore × Option Text) → Type 0
Removes xs id r =
    (q : OrderStore) × (r ≡ ok (q, if is_some (find_order id xs) then some id else none))
    × Stores (remove_order id xs) q

remove_hit :
    (xs : List Order) (s : OrderStore) (id : Text) (x : Order)
    → Stores xs s
    → get_elem? xs (place id xs) ≡ some x
    → text_eq x.cl_ord_id id ≡ true
    → Removes xs id (remove s id)
unfolding remove
remove_hit xs s id x v e k =
    let i = place id xs in
    let lt : i < length xs = lt-length_of_get xs i x e in
    rw
      (
        lower_bound-place xs s v id,
        is_found-some xs s v id i x e,
        k,
        find_order_hit id xs x e k,
        remove_order_hit id xs x e k,
      )
      (
        record {
          slots = set (shift_down s.count s.slots i s.count) (s.count - 1) none;
          count = s.count - 1;
        },
        refl,
        record {
          storage =
              length-set (shift_down s.count s.slots i s.count) (s.count - 1) none
              ∙ length-shift_down s.count s.slots i s.count
              ∙ v.storage;
          counted = omega (arith, v.counted, length-erase_at i xs lt);
          within = omega (arith, length-erase_at i xs lt, v.within);
          held =
              erase_slots s.slots i (s.count - 1) s.count none (omega (arith, v.counted))
                (omega (arith, v.counted)) (omega (arith, v.counted, v.storage, v.within))
              ∙ ap (erase_at i) v.held
              ∙ sym (map-erase_at some i xs);
          ordered = erase_at-IsSorted text_lt id_of i xs v.ordered;
        },
      )

remove_miss :
    (xs : List Order) (s : OrderStore) (id : Text)
    → Stores xs s
    → is_found s id (place id xs) ≡ ok false
    → (find_order id xs ≡ none) × (remove_order id xs ≡ xs)
    → Removes xs id (remove s id)
unfolding remove
remove_miss xs s id v f m = rw (lower_bound-place xs s v id, f, m.0, m.1) (s, refl, v)

-- `Remove` on a store that holds a sorted list succeeds: it takes the first order with the id out of
-- the list and tells the listener, or does neither where no order has the id.
pub remove-remove_order :
    (xs : List Order) (s : OrderStore) (id : Text) → Stores xs s → Removes xs id (remove s id)
remove-remove_order xs s id v =
    let i = place id xs in
    elim (Option-cases (get_elem? xs i)) [
      | inl e ↦
          remove_miss xs s id v (is_found-none xs s v id i e)
            (order_miss id xs v.ordered (λ y g. cc))
      | inr (x, e) ↦ elim (Bool-cases (text_eq x.cl_ord_id id)) [
        | inl k ↦ remove_hit xs s id x v e k
        | inr k ↦ remove_miss xs s id v (is_found-some xs s v id i x e ∙ ap ok k) (
            order_miss id xs v.ordered
              (λ y g. subst (λ z. text_eq z.cl_ord_id id ≡ false) (some_inj x y (sym e ∙ g)) k))
      ]
    ]

-- A write through a pointer that keeps the client's id.
pub write-Stores :
    (xs : List Order) (s : OrderStore) (i : ℕ) (x y : Order)
    → Stores xs s
    → get_elem? xs i ≡ some x
    → y.cl_ord_id ≡ x.cl_ord_id
    → Stores (set xs i y) (write s i y)
write-Stores xs s i x y v e k = record {
  storage = length-set s.slots i (some y) ∙ v.storage;
  counted = v.counted ∙ sym (length-set xs i y);
  within = omega (arith, length-set xs i y, v.within);
  held =
      take-set s.count i s.slots (some y)
      ∙ ap (λ l. set l i (some y)) v.held
      ∙ sym (map-set some xs i y);
  ordered = set-IsSorted text_lt id_of i y x xs e k v.ordered;
}

-- The store as the constructor leaves it.
pub empty_store-Stores : Stores [] empty_store
unfolding empty_store
empty_store-Stores = record {
  storage = length-replicate {A = Option Order} capacity none;
  counted = refl;
  within = omega arith;
  held = refl;
  ordered = tt;
}
