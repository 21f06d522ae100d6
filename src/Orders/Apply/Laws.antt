-- ===== src/Orders/Apply/Laws.antt =====
-- `ApplyOrderEvent` on the sorted list of the orders.
use cpp_trading_engine.Base.{
  ℕ, ◌≡◌, refl, sym, ap, ◌∙◌, true, false, Option, none, some, List, [], ◌∷◌, if◌then◌else◌,
  Bool-cases, inl, inr, Text, text_eq, text_lt, text_eq→eq, get_elem?, set, All, arith, Result, ok,
  err, subst, ◌≢◌, some_inj, suc, bad_transition, Option-cases,
}
use cpp_trading_engine.Base.Slots.{erase_at}
use cpp_trading_engine.Base.Sorted.{rank}
use cpp_trading_engine.Orders.Events.{OrderEvent}
use cpp_trading_engine.Orders.Lifecycle.{Order, apply_event, is_terminal}
use cpp_trading_engine.Orders.Lifecycle.Laws.{apply_event-accepts}
use cpp_trading_engine.Orders.Store.{OrderStore, find_by_cl_ord_id, write}
use cpp_trading_engine.Orders.Store.Spec.{
  place, find_order, remove_order, remove_order-set-place, find_order-set-place, ne_of_lt,
}
use cpp_trading_engine.Orders.Store.View.{Stores}
use cpp_trading_engine.Orders.Store.Refine.{
  Points, nowhere, to, find_by_cl_ord_id-Points, remove-remove_order, write-Stores,
}
use cpp_trading_engine.Orders.Apply.{settle, apply_order_event}

-- The order that an event finds takes the event, and leaves the list if it is then at its end. A
-- refused event changes the order's fill fields alone, which is to say that the order stays.
abbrev keep_or_drop : Order × Result (Unit {0}) → List Order → List Order
keep_or_drop (o, err e) rest = o ∷ rest
keep_or_drop (o, ok done) rest = if is_terminal o.state then rest else o ∷ rest

unfoldable pub settled : {V : Type 0} → OrderEvent V → List Order → List Order
settled event [] = []
settled event (x ∷ xs) =
    let rest = settled event xs in
    if text_eq x.cl_ord_id event.cl_ord_id then keep_or_drop (apply_event event x) xs else x ∷ rest

-- What the call returns: nothing for an unknown order, the refusal of the order, or the id of an
-- order that has come to its end.
abbrev answer_of : Order × Result (Unit {0}) → Result (Option Text)
answer_of (o, err e) = err e
answer_of (o, ok done) = ok (if is_terminal o.state then some o.cl_ord_id else none)

abbrev answer_found : {V : Type 0} → OrderEvent V → Option Order → Result (Option Text)
answer_found event none = ok none
answer_found event (some x) = answer_of (apply_event event x)

unfoldable pub answer : {V : Type 0} → OrderEvent V → List Order → Result (Option Text)
answer event xs = answer_found event (find_order event.cl_ord_id xs)

-- An order that has not come to its end.
abbrev pub IsLive : Order → Type 0
IsLive o = is_terminal o.state ≡ false

module _ {V : Type 0} (event : OrderEvent V) where
  settled_unknown : (xs : List Order) → find_order event.cl_ord_id xs ≡ none → settled event xs ≡ xs
  unfolding settled find_order
  settled_unknown [] h = refl
  settled_unknown (x ∷ xs) h = ground (arith, settled_unknown xs)

  apply_event-cl_ord_id : (x : Order) → (apply_event event x).0.cl_ord_id ≡ x.cl_ord_id
  unfolding apply_event
  apply_event-cl_ord_id x = ground arith

  -- The list after the event, by the place of the order.
  abbrev placed : ℕ → List Order → Order × Result (Unit {0}) → List Order
  placed i xs (o, err e) = set xs i o
  placed i xs (o, ok done) = if is_terminal o.state then erase_at i xs else set xs i o

  placed-cons :
      (i : ℕ) (z : Order) (zs : List Order) (r : Order × Result (Unit {0}))
      → z ∷ placed i zs r ≡ placed (suc i) (z ∷ zs) r
  placed-cons i z zs (o, err e) = refl
  placed-cons i z zs (o, ok done) = ground arith

  placed_zero :
      (z : Order) (zs : List Order) (r : Order × Result (Unit {0}))
      → keep_or_drop r zs ≡ placed 0 (z ∷ zs) r
  placed_zero z zs (o, err e) = refl
  placed_zero z zs (o, ok done) = refl

  settled-placed :
      (xs : List Order) (x : Order)
      → get_elem? xs (place event.cl_ord_id xs) ≡ some x
      → text_eq x.cl_ord_id event.cl_ord_id ≡ true
      → settled event xs ≡ placed (place event.cl_ord_id xs) xs (apply_event event x)
  unfolding settled rank
  settled-placed [] x h k = cc
  settled-placed (z ∷ zs) x h k = elim (Bool-cases (text_lt z.cl_ord_id event.cl_ord_id)) [
    | inl b ↦
        rw (b, ne_of_lt event.cl_ord_id z b)
          (ap (◌∷◌ z) (settled-placed zs x (rw b at h) k)
            ∙ placed-cons _ z zs (apply_event event x))
    | inr b ↦
        let e : z ≡ x = some_inj z x (rw b at h) in
        rw (b, subst (λ w. text_eq w.cl_ord_id event.cl_ord_id ≡ true) (sym e) k, e)
          (placed_zero x zs (apply_event event x))
  ]

  settle-placed :
      (xs : List Order) (s : OrderStore) (x : Order) (r : Order × Result (Unit {0}))
      → Stores xs s
      → get_elem? xs (place event.cl_ord_id xs) ≡ some x
      → x.cl_ord_id ≡ event.cl_ord_id
      → r.0.cl_ord_id ≡ x.cl_ord_id
      → let (q, a) = settle s (place event.cl_ord_id xs) r in
        Stores (placed (place event.cl_ord_id xs) xs r) q × (a ≡ answer_of r)
  unfolding settle
  settle-placed xs s x (o, err e) v g k l =
      (write-Stores xs s (place event.cl_ord_id xs) x o v g l, refl)
  settle-placed xs s x (o, ok done) v g k l =
      let i = place event.cl_ord_id xs in
      let w = write-Stores xs s i x o v g l in
      elim (Bool-cases (is_terminal o.state)) [
        | inr b ↦ rw b (w, refl)
        | inl b ↦
            let (q, e, st) = remove-remove_order (set xs i o) (write s i o) o.cl_ord_id w in
            let named : o.cl_ord_id ≡ event.cl_ord_id = l ∙ k in
            let found : find_order o.cl_ord_id (set xs i o) ≡ some o =
              subst (λ n. find_order n (set xs i o) ≡ some o) (sym named)
                (find_order-set-place event.cl_ord_id xs x o g named) in
            let gone : remove_order o.cl_ord_id (set xs i o) ≡ erase_at i xs =
              subst (λ n. remove_order n (set xs i o) ≡ erase_at i xs) (sym named)
                (remove_order-set-place event.cl_ord_id xs x o g named) in
            rw (b, e, found) (subst (λ ys. Stores ys q) gone st, refl)
      ]

  -- An event on a store that holds a sorted list changes the first order with the event's client id
  -- as `apply_event` does, takes it out of the list if it has come to its end, and leaves the others;
  -- it returns the order's refusal, or the id that the removal listener is told. An event of an
  -- unknown order does nothing.
  pub apply_order_event-settled :
      (xs : List Order) (s : OrderStore)
      → Stores xs s
      → let (q, r) = apply_order_event event s in
        Stores (settled event xs) q × (r ≡ answer event xs)
  unfolding apply_order_event answer
  apply_order_event-settled xs s v = go (find_by_cl_ord_id-Points xs s event.cl_ord_id v)
    where
      go :
          Points xs s event.cl_ord_id (find_by_cl_ord_id s event.cl_ord_id)
          → let (q, r) = apply_order_event event s in
            Stores (settled event xs) q × (r ≡ answer event xs)
      go (nowhere e f) = rw (e, f, settled_unknown xs f) (v, refl)
      go (to i x e p a g k f) =
          rw (e, p, rw p at a, f, settled-placed xs x (rw p at g) k)
            (settle-placed xs s x (apply_event event x) v (rw p at g)
              (text_eq→eq x.cl_ord_id event.cl_ord_id k) (apply_event-cl_ord_id x))

  find_order-IsLive :
      (id : Text) (xs : List Order) (x : Order)
      → All IsLive xs
      → find_order id xs ≡ some x
      → IsLive x
  unfolding find_order
  find_order-IsLive id [] x h e = cc
  find_order-IsLive id (y ∷ ys) x h e = elim (Bool-cases (text_eq y.cl_ord_id id)) [
    | inl k ↦ subst IsLive (some_inj y x (rw k at e)) h.0
    | inr k ↦ find_order-IsLive id ys x h.1 (rw k at e)
  ]

  answer_ok : (r : Order × Result (Unit {0})) → r.1 ≡ ok tt → answer_of r ≡ err bad_transition → ⊥
  answer_ok (o, err e) p h = cc
  answer_ok (o, ok done) p h = cc

  answer_accepts : (xs : List Order) → All IsLive xs → answer event xs ≡ err bad_transition → ⊥
  unfolding answer
  answer_accepts xs h e = elim (Option-cases (find_order event.cl_ord_id xs)) [
    | inl f ↦ cc (rw f at e)
    | inr (x, f) ↦
        answer_ok (apply_event event x)
          ((apply_event-accepts event x).1 (find_order-IsLive event.cl_ord_id xs x h f)) (rw f at e)
  ]

  keep_or_drop-All-IsLive :
      (xs : List Order) (r : Order × Result (Unit {0}))
      → r.1 ≡ ok tt
      → All IsLive xs
      → All IsLive (keep_or_drop r xs)
  keep_or_drop-All-IsLive xs (o, err e) p h = cc
  keep_or_drop-All-IsLive xs (o, ok done) p h = elim (Bool-cases (is_terminal o.state)) [
    | inl b ↦ rw b h
    | inr b ↦ rw b (b, h)
  ]

  settled-All-IsLive : (xs : List Order) → All IsLive xs → All IsLive (settled event xs)
  unfolding settled
  settled-All-IsLive [] h = tt
  settled-All-IsLive (x ∷ xs) h = elim (Bool-cases (text_eq x.cl_ord_id event.cl_ord_id)) [
    | inl e ↦
        rw e (
          keep_or_drop-All-IsLive xs (apply_event event x) ((apply_event-accepts event x).1 h.0)
            h.1)
    | inr e ↦ rw e (h.0, settled-All-IsLive xs h.1)
  ]

  -- Where no order of the store has come to its end, none has after the event, and the event is not
  -- refused.
  pub apply_order_event-IsLive :
      (xs : List Order) (s : OrderStore)
      → Stores xs s
      → All IsLive xs
      → let (q, r) = apply_order_event event s in
        (ys : List Order) × Stores ys q × All IsLive ys × (r ≢ err bad_transition)
  apply_order_event-IsLive xs s v h =
      let (st, e) = apply_order_event-settled xs s v in
      (settled event xs, st, settled-All-IsLive xs h, λ bad. answer_accepts xs h (sym e ∙ bad))
