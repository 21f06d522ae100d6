-- ===== src/Orders/Reconcile/Laws.antt =====
-- okx/orders/reconciliation.cpp: `ReconcileOrders`, both of its loops, against the list of the orders
-- that the store holds and the ids in the response.
use cpp_trading_engine.Base.{
  ℕ, zero, suc, ◌≡◌, refl, sym, ap, ◌∙◌, ◌⊎◌, true, Option, none, some, List, [], ◌∷◌, Bool-cases,
  inl, inr, Text, text_eq, text_lt, text_eq_refl, All, All-map, Result, ok, err, arith, subst,
  get_elem?, set, length, ltb, ltb→lt, some_inj, Error, unrecognized_state,
}
use cpp_trading_engine.Base.Sorted.{All-insert_at, All-set}
use cpp_trading_engine.Base.Effects.{Effect}
use cpp_trading_engine.Json.Loops.{for_each_array_element}
use cpp_trading_engine.Json.Rules.{Outcome}
use cpp_trading_engine.Json.Simulate.{Joint, for_each_array_element-Joint}
use cpp_trading_engine.Orders.Reconcile.Grown.{
  Grown, Grown-refl, Grown-more, Grown-insert_set, unreported, to_drop-unreported, find_order-kept,
}
use cpp_trading_engine.Json.Fields.{find_string}
use cpp_trading_engine.Constants.{
  data_key, cl_ord_id_key, state_key, state_live, state_partially_filled,
}
use cpp_trading_engine.Orders.Events.{OrderEvent, OrderEventType, live, partial_fill}
use cpp_trading_engine.Orders.Lifecycle.{Order, make_order, apply_event, is_terminal}
use cpp_trading_engine.Orders.Store.{OrderStore, capacity, add, write, find_by_cl_ord_id}
use cpp_trading_engine.Orders.Store.Spec.{
  find_order, insert_order, insert_order-insert_at, find_order-insert_order, place, id_of,
}
use cpp_trading_engine.Orders.Store.View.{Stores, all_orders-list}
use cpp_trading_engine.Orders.Store.Refine.{
  add_order-insert_order, add_order_full, write-Stores, Points, nowhere, to,
  find_by_cl_ord_id-Points,
}
use cpp_trading_engine.Orders.Apply.Laws.{IsLive}
use cpp_trading_engine.Orders.Reconcile.{
  Progress, classify_pending_state, pending_event, adopt, adopt_event, adopt_all, apply_adopted,
  adopt_fields, finish_reconcile, contains, to_drop, reconcile_orders,
}
use cpp_trading_engine.Orders.Reconcile.Kept.{
  Has, kept, drop_all-remove_all, remove_all-to_drop, removed_ids-to_drop, kept-All, kept-Has,
  kept-known,
}

-- The store holds a sorted list of live orders.
abbrev pub Sound : Progress → Type 0
Sound p = (xs : List Order) × Stores xs p.0 × All IsLive xs

-- It also holds an order for each id seen so far, which are `ids`, and the orders it began with.
abbrev pub Adopted : List Order → Progress → List Text → Type 0
Adopted start p ids =
    (xs : List Order) × Stores xs p.0
    × All IsLive xs
    × All (Has xs) p.1
    × Grown start p.1 xs
    × (p.1 ≡ ids)

-- Where an adoption throws, the store is sound, whatever the ids read beside it.
abbrev Broken : Progress → Error → List Text × Result (Unit {0}) → Type 0
Broken p e m = Sound p

-- The id of an order of the response joins those before it.
abbrev collected : List Text → Option Text → List Text
collected ids none = ids
collected ids (some id) = id ∷ ids

abbrev collect_id : Text → Effect (List Text) (Unit {0})
collect_id order ids = (collected ids (find_string order cl_ord_id_key), ok tt)

-- The ids that the exchange reports, the last first: those of the elements of the response's "data".
unfoldable pub reported_ids : Text → List Text
unfolding find_string for_each_array_element
reported_ids response = (for_each_array_element response data_key collect_id []).0

Has-insert_order :
    (o : Order) (xs : List Order) (id : Text) → Has xs id → Has (insert_order o xs) id
unfolding find_order insert_order
Has-insert_order o [] id h = cc
Has-insert_order o (x ∷ xs) id h = ground (arith, Has-insert_order o xs id)

Has-set :
    (xs : List Order) (i : ℕ) (x y : Order) (id : Text)
    → get_elem? xs i ≡ some x
    → y.cl_ord_id ≡ x.cl_ord_id
    → Has xs id
    → Has (set xs i y) id
unfolding find_order
Has-set [] i x y id g e h = cc
Has-set (z ∷ zs) zero x y id g e h =
    let same : y.cl_ord_id ≡ z.cl_ord_id =
      e ∙ ap (λ (o : Order). o.cl_ord_id) (sym (some_inj z x g)) in
    elim (Bool-cases (text_eq z.cl_ord_id id)) [
      | inl b ↦ rw (same, b) refl
      | inr b ↦ rw (same, b) (rw b at h)
    ]
Has-set (z ∷ zs) (suc i) x y id g e h = elim (Bool-cases (text_eq z.cl_ord_id id)) [
  | inl b ↦ rw b refl
  | inr b ↦ rw b (Has-set zs i x y id g e (rw b at h))
]

Has-of_find : (xs : List Order) (id : Text) (x : Order) → find_order id xs ≡ some x → Has xs id
Has-of_find xs id x e = rw e refl

-- The first event of an adopted order is accepted, and leaves it live under its id.
abbrev Takes : Order → Order × Result (Unit {0}) → Type 0
Takes x r = (r.1 ≡ ok tt) × IsLive r.0 × (r.0.cl_ord_id ≡ x.cl_ord_id)

first_event :
    (event : OrderEvent (Unit {0})) (now : ℕ) (id inst_id side px sz : Text)
    → (event.type ≡ live) ⊎ (event.type ≡ partial_fill)
    → let o = make_order now id inst_id side px sz in Takes o (apply_event event o)
unfolding make_order apply_event is_terminal
first_event event now id inst_id side px sz h = (ground arith, ground arith, ground arith)

put_back-Outcome :
    (start ys : List Order) (q : OrderStore) (i : ℕ) (x : Order) (id : Text) (ids : List Text)
    (r : Order × Result (Unit {0}))
    → Stores ys q
    → All IsLive ys
    → All (Has ys) (id ∷ ids)
    → get_elem? ys i ≡ some x
    → Takes x r
    → Grown start (id ∷ ids) (set ys i r.0)
    → Outcome (λ p. Adopted start p (id ∷ ids)) Sound ((write q i r.0, id ∷ ids), r.1)
put_back-Outcome start ys q i x id ids (o, err e) v a h g t w = cc
put_back-Outcome start ys q i x id ids (o, ok done) v a h g (t0, t1, t2) w = (
  set ys i o,
  write-Stores ys q i x o v g t2,
  All-set text_lt (λ (p : Order). p.cl_ord_id) IsLive i o ys t1 a,
  All-map (Has ys) (Has (set ys i o)) (id ∷ ids) (λ k hk. Has-set ys i x o k g t2 hk) h,
  w,
  refl,
)

module _ (start : List Order) (now : ℕ) (event : OrderEvent (Unit {0})) (s : OrderStore)
    (ids : List Text) (fresh : (event.type ≡ live) ⊎ (event.type ≡ partial_fill)) where
  new_order : Order
  new_order = make_order now event.cl_ord_id event.inst_id event.side event.px event.sz

  new_order-fresh : (new_order.cl_ord_id ≡ event.cl_ord_id) × IsLive new_order
  unfolding new_order make_order is_terminal
  new_order-fresh = (refl, refl)

  -- From the lookup of the order just added on.
  Adopted-Outcome :
      (xs : List Order) (q : OrderStore)
      → Stores (insert_order new_order xs) q
      → All IsLive xs
      → All (Has xs) ids
      → Grown start ids xs
      → find_order event.cl_ord_id xs ≡ none
      → Outcome
          (λ p. Adopted start p (event.cl_ord_id ∷ ids))
          Sound
          (apply_adopted event q (event.cl_ord_id ∷ ids) (find_by_cl_ord_id q event.cl_ord_id))
  unfolding new_order make_order
  Adopted-Outcome xs q v a h w n = go (find_by_cl_ord_id-Points ys q event.cl_ord_id v)
    where
      ys : List Order
      ys = insert_order new_order xs

      found : find_order event.cl_ord_id ys ≡ some new_order
      found =
          subst (λ t. find_order t ys ≡ some new_order) new_order-fresh.0
            (find_order-insert_order new_order xs)

      alive : All IsLive ys
      alive = rw (insert_order-insert_at new_order xs) (
          All-insert_at text_lt (λ (p : Order). p.cl_ord_id) IsLive (place new_order.cl_ord_id xs)
            new_order xs new_order-fresh.1 a)

      seen : All (Has ys) (event.cl_ord_id ∷ ids)
      seen = (
        Has-of_find ys event.cl_ord_id new_order found,
        All-map (Has xs) (Has ys) ids (λ k hk. Has-insert_order new_order xs k hk) h,
      )

      go :
          Points ys q event.cl_ord_id (find_by_cl_ord_id q event.cl_ord_id)
          → Outcome
              (λ p. Adopted start p (event.cl_ord_id ∷ ids))
              Sound
              (apply_adopted event q (event.cl_ord_id ∷ ids) (find_by_cl_ord_id q event.cl_ord_id))
      go (nowhere e f) = cc (sym found ∙ f)
      go (to i x e p t g k f) =
          let same = some_inj new_order x (sym found ∙ f) in
          let takes : Takes x (apply_event event x) =
            subst (λ o. Takes o (apply_event event o)) same
              (first_event event now event.cl_ord_id event.inst_id event.side event.px event.sz
                fresh) in
          rw (e, t, apply_adopted)
            (put_back-Outcome start ys q i x event.cl_ord_id ids (apply_event event x) v alive seen
              g takes
              (Grown-insert_set start ids xs new_order x (apply_event event x).0 i n g
                (ap id_of (sym same)) takes.2 w))

  -- An order that the store does not know is added and takes its first event; a full store throws.
  adopt_event-Outcome :
      (xs : List Order)
      → Stores xs s
      → All IsLive xs
      → All (Has xs) ids
      → Grown start ids xs
      → find_order event.cl_ord_id xs ≡ none
      → Outcome
          (λ p. Adopted start p (event.cl_ord_id ∷ ids))
          Sound
          (adopt_event now event (s, event.cl_ord_id ∷ ids))
  unfolding adopt_event add new_order
  adopt_event-Outcome xs v a h w n = elim (Bool-cases (ltb (length xs) capacity)) [
    | inl room ↦
        let (q, e, u) =
          add_order-insert_order xs s new_order v (ltb→lt (length xs) capacity room) in
        rw e (Adopted-Outcome xs q u a h w n)
    | inr full ↦ rw (add_order_full s new_order (ground (arith, v.counted))) (xs, v, a)
  ]

classify_cases :
    (state : Text)
    → ((t : OrderEventType) × (classify_pending_state state ≡ ok t)
        × ((t ≡ live) ⊎ (t ≡ partial_fill)))
      ⊎ ((e : Error) × (classify_pending_state state ≡ err e))
unfolding classify_pending_state
classify_cases state = elim (Bool-cases (text_eq state state_live)) [
  | inl e ↦ inl (live, rw e refl, inl refl)
  | inr e ↦ elim (Bool-cases (text_eq state state_partially_filled)) [
    | inl k ↦ inl (partial_fill, rw (e, k) refl, inr refl)
    | inr k ↦ inr (unrecognized_state, rw (e, k) refl)
  ]
]

module _ (start : List Order) (now : ℕ) (order : Text) where
  abbrev Meets : Progress × Result (Unit {0}) → List Text → Type 0
  Meets m ids = Joint (Adopted start) Broken m (ids, ok tt)

  met :
      (m : Progress × Result (Unit {0})) (ids : List Text)
      → Outcome (λ p. Adopted start p ids) Sound m
      → Meets m ids
  met (p, ok done) ids h = h
  met (p, err e) ids h = h

  adopt_fields-Meets :
      (id state : Option Text) (s : OrderStore) (ids : List Text)
      → Adopted start (s, ids) ids
      → Meets (adopt_fields now order id state (s, ids)) (collected ids id)
  unfolding pending_event
  adopt_fields-Meets none state s ids (xs, v, a, h, w, same) = (xs, v, a)
  adopt_fields-Meets (some id) none s ids (xs, v, a, h, w, same) = (xs, v, a)
  adopt_fields-Meets (some id) (some state) s ids (xs, v, a, h, w, same) =
      go (find_by_cl_ord_id-Points xs s id v)
    where
      go :
          Points xs s id (find_by_cl_ord_id s id)
          → Meets (adopt_fields now order (some id) (some state) (s, ids)) (id ∷ ids)
      go (to i x e p t g k f) =
          rw e (xs, v, a, (Has-of_find xs id x f, h), Grown-more start ids xs id w, refl)
      go (nowhere e f) = elim (classify_cases state) [
        | inr (er, c) ↦ rw (e, c) (xs, v, a)
        | inl (t, c, fresh) ↦
            rw (e, c)
              (met _ (id ∷ ids)
                (adopt_event-Outcome start now (pending_event order id t) s ids fresh xs v a h w f))
      ]

  adopt-Meets :
      (p : Progress) (ids : List Text)
      → Adopted start p ids
      → Joint (Adopted start) Broken (adopt now order p) (collect_id order ids)
  unfolding adopt
  adopt-Meets (s, seen) ids (xs, v, a, h, w, same) =
      subst (λ t. Joint (Adopted start) Broken (adopt now order (s, seen)) (collect_id order t))
        same
        (adopt_fields-Meets (find_string order cl_ord_id_key) (find_string order state_key) s seen
          (xs, v, a, h, w, refl))

adopt_all-Meets :
    (now : ℕ) (response : Text) (xs : List Order) (s : OrderStore)
    → Stores xs s
    → All IsLive xs
    → Joint
        (Adopted xs)
        Broken
        (adopt_all now response s)
        (for_each_array_element response data_key collect_id [])
unfolding adopt_all
adopt_all-Meets now response xs s v a =
    for_each_array_element-Joint (Adopted xs) Broken (λ p ids h. (h.0, h.1, h.2)) (λ p e m f h. h)
      (adopt now) collect_id (λ order p ids h. adopt-Meets xs now order p ids h) response data_key
      (s, []) [] (xs, v, a, tt, Grown-refl xs, refl)

-- What the call makes of a store that holds the orders `start`: it holds live orders in order, each
-- with an id that the exchange reported and for each reported id one; those of `start` that were
-- reported are as they were; and the listener is told the ids of the others, in their order.
abbrev pub Reconciled : List Text → List Order → OrderStore × Result (List Text) → Type 0
Reconciled ids start (q, r) =
    (ys : List Order) × Stores ys q
    × All IsLive ys
    × All (λ x. contains ids x.cl_ord_id ≡ true) ys
    × All (Has ys) ids
    × ((k : Text) → contains ids k ≡ true → Has start k → find_order k ys ≡ find_order k start)
    × (r ≡ ok (unreported ids start))

contains_self : (ids : List Text) → All (λ id. contains ids id ≡ true) ids
unfolding contains
contains_self [] = tt
contains_self (x ∷ xs) = (
  rw (text_eq_refl x) refl,
  All-map (λ id. contains xs id ≡ true) (λ id. contains (x ∷ xs) id ≡ true) xs
      (λ id e. ground arith) (contains_self xs),
)

kept-All-Has :
    (ids : List Text) (xs : List Order) (ks : List Text)
    → All (λ id. contains ids id ≡ true) ks
    → All (Has xs) ks
    → All (Has (kept ids xs)) ks
kept-All-Has ids xs [] c h = tt
kept-All-Has ids xs (k ∷ ks) c h = (kept-Has ids xs k c.0 h.0, kept-All-Has ids xs ks c.1 h.1)

finish-Reconciled :
    (start : List Order) (p : Progress) (ids : List Text)
    → Adopted start p ids
    → Reconciled ids start (finish_reconcile (p, ok tt))
finish-Reconciled start (s, seen) ids (xs, v, a, h, w, same) =
    subst (λ t. Reconciled t start (finish_reconcile ((s, seen), ok tt))) same finished
  where
    finished : Reconciled seen start (finish_reconcile ((s, seen), ok tt))
    finished =
        let (u, e) = drop_all-remove_all (to_drop seen xs) xs s v in
        let mine = contains_self seen in
        rw (all_orders-list xs s v) (
          kept seen xs,
          rw (sym (remove_all-to_drop seen xs)) u,
          kept-All seen IsLive xs a,
          kept-known seen xs,
          kept-All-Has seen xs seen mine h,
          λ k c n. find_order-kept seen xs k c ∙ w.same k n,
          e
              ∙ ap ok
                  (removed_ids-to_drop seen xs ∙ w.drops seen mine ∙ to_drop-unreported seen start),
        )

-- Where the first loop throws, so does the call, and the store is left with live orders in order.
abbrev pub Thrown : Result (Unit {0}) → OrderStore × Result (List Text) → Type 0
Thrown first (q, r) =
    (e : Error) × (first ≡ err e) × (r ≡ err e) × ((xs : List Order) × Stores xs q × All IsLive xs)

finish_cases :
    (start : List Order) (m : Progress × Result (Unit {0})) (n : List Text × Result (Unit {0}))
    → Joint (Adopted start) Broken m n
    → ((m.1 ≡ ok tt) × Reconciled n.0 start (finish_reconcile m)) ⊎ Thrown m.1 (finish_reconcile m)
finish_cases start (p, ok done) (ids, ok read) h = inl (refl, finish-Reconciled start p ids h)
finish_cases start (p, ok done) (ids, err e) h = absurd h
finish_cases start (p, err e) n h = inr (e, refl, refl, h)

-- From a store of the live orders `xs`: either the first loop returns, and then the call does too,
-- the store holds live orders only, each with an id that the response reports, and for each reported
-- id one; the orders of `xs` that are reported are unchanged, and the listener is told the ids of
-- exactly the others, in their order. Or the first loop throws, the call throws the same, and the
-- store still holds live orders in order.
pub reconcile_orders-Reconciled :
    (now : ℕ) (response : Text) (xs : List Order) (s : OrderStore)
    → Stores xs s
    → All IsLive xs
    → let first = (adopt_all now response s).1 in
      ((first ≡ ok tt) × Reconciled (reported_ids response) xs (reconcile_orders now response s))
      ⊎ Thrown first (reconcile_orders now response s)
unfolding reconcile_orders reported_ids
reconcile_orders-Reconciled now response xs s v a =
    finish_cases xs (adopt_all now response s)
      (for_each_array_element response data_key collect_id [])
      (adopt_all-Meets now response xs s v a)
