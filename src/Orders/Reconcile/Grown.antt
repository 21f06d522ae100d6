-- ===== src/Orders/Reconcile/Grown.antt =====
-- okx/orders/reconciliation.cpp: the list of orders in the first loop of `ReconcileOrders`, beside the
-- list that it began with.
use cpp_trading_engine.Base.{
  ℕ, zero, suc, ◌≡◌, refl, sym, ap, ◌∙◌, true, false, none, some, List, [], ◌∷◌, if◌then◌else◌,
  Bool-cases, inl, inr, Text, text_eq, text_eq→eq, All, arith, get_elem?, set, some_inj,
}
use cpp_trading_engine.Orders.Lifecycle.{Order}
use cpp_trading_engine.Orders.Store.Spec.{find_order, insert_order, id_of}
use cpp_trading_engine.Orders.Reconcile.{contains, to_drop}
use cpp_trading_engine.Orders.Reconcile.Kept.{Has, kept}

-- The ids of the orders that are not among the ids given, in the orders' order.
abbrev pub unreported : List Text → List Order → List Text
unreported ids [] = []
unreported ids (x ∷ xs) =
    if contains ids x.cl_ord_id then unreported ids xs else x.cl_ord_id ∷ unreported ids xs

-- What has become of the orders `start`, with the ids reported so far.
pub record Grown (start : List Order) (ids : List Text) (xs : List Order) : Type 0 where
  pub same : (k : Text) → Has start k → find_order k xs ≡ find_order k start
  pub drops :
      (js : List Text) → All (λ id. contains js id ≡ true) ids → to_drop js xs ≡ to_drop js start

pub Grown-refl : (xs : List Order) → Grown xs [] xs
Grown-refl xs = record { same = λ k h. refl; drops = λ js h. refl }

pub Grown-more :
    (start : List Order) (ids : List Text) (xs : List Order) (id : Text)
    → Grown start ids xs
    → Grown start (id ∷ ids) xs
Grown-more start ids xs id g = record { same = g.same; drops = λ js h. g.drops js h.1 }

find_order-insert_other :
    (o : Order) (xs : List Order) (k : Text)
    → text_eq o.cl_ord_id k ≡ false
    → find_order k (insert_order o xs) ≡ find_order k xs
unfolding find_order insert_order
find_order-insert_other o [] k h = rw h refl
find_order-insert_other o (x ∷ xs) k h = ground (arith, find_order-insert_other o xs k h)

find_order-set_other :
    (xs : List Order) (i : ℕ) (x y : Order) (k : Text)
    → get_elem? xs i ≡ some x
    → y.cl_ord_id ≡ x.cl_ord_id
    → text_eq x.cl_ord_id k ≡ false
    → find_order k (set xs i y) ≡ find_order k xs
unfolding find_order
find_order-set_other [] i x y k g e h = refl
find_order-set_other (z ∷ zs) zero x y k g e h =
    let b : text_eq z.cl_ord_id k ≡ false = rw (some_inj z x g) h in
    let c : text_eq y.cl_ord_id k ≡ false = rw e h in rw (b, c) refl
find_order-set_other (z ∷ zs) (suc i) x y k g e h = rw (find_order-set_other zs i x y k g e h) refl

to_drop-insert_order :
    (js : List Text) (o : Order) (xs : List Order)
    → contains js o.cl_ord_id ≡ true
    → to_drop js (insert_order o xs) ≡ to_drop js xs
unfolding to_drop insert_order
to_drop-insert_order js o [] h = rw h refl
to_drop-insert_order js o (x ∷ xs) h = ground (arith, to_drop-insert_order js o xs h)

to_drop-set :
    (js : List Text) (xs : List Order) (i : ℕ) (x y : Order)
    → get_elem? xs i ≡ some x
    → y.cl_ord_id ≡ x.cl_ord_id
    → to_drop js (set xs i y) ≡ to_drop js xs
unfolding to_drop
to_drop-set js [] i x y g e = refl
to_drop-set js (z ∷ zs) zero x y g e =
    let b : y.cl_ord_id ≡ z.cl_ord_id = e ∙ ap id_of (sym (some_inj z x g)) in rw b refl
to_drop-set js (z ∷ zs) (suc i) x y g e = rw (to_drop-set js zs i x y g e) refl

-- An order that was not there is added, and then changed under its id.
pub Grown-insert_set :
    (start : List Order) (ids : List Text) (xs : List Order) (o p q : Order) (i : ℕ)
    → find_order o.cl_ord_id xs ≡ none
    → get_elem? (insert_order o xs) i ≡ some p
    → p.cl_ord_id ≡ o.cl_ord_id
    → q.cl_ord_id ≡ p.cl_ord_id
    → Grown start ids xs
    → Grown start (o.cl_ord_id ∷ ids) (set (insert_order o xs) i q)
Grown-insert_set start ids xs o p q i n e s t g = record { same = same; drops = drops }
  where
    differs : (k : Text) → Has start k → text_eq o.cl_ord_id k ≡ false
    differs k h = elim (Bool-cases (text_eq o.cl_ord_id k)) [
      | inr b ↦ b
      | inl b ↦
          let f : find_order k xs ≡ none = rw (sym (text_eq→eq o.cl_ord_id k b)) n in
          absurd (cc (h, sym (g.same k h) ∙ f))
    ]

    same :
        (k : Text) → Has start k → find_order k (set (insert_order o xs) i q) ≡ find_order k start
    same k h =
        find_order-set_other (insert_order o xs) i p q k e t (rw s (differs k h))
        ∙ find_order-insert_other o xs k (differs k h)
        ∙ g.same k h

    drops :
        (js : List Text)
        → All (λ id. contains js id ≡ true) (o.cl_ord_id ∷ ids)
        → to_drop js (set (insert_order o xs) i q) ≡ to_drop js start
    drops js (h, hs) =
        to_drop-set js (insert_order o xs) i p q e t
        ∙ to_drop-insert_order js o xs h
        ∙ g.drops js hs

pub to_drop-unreported : (ids : List Text) (xs : List Order) → to_drop ids xs ≡ unreported ids xs
unfolding to_drop
to_drop-unreported ids [] = refl
to_drop-unreported ids (x ∷ xs) = rw (to_drop-unreported ids xs) refl

pub find_order-kept :
    (ids : List Text) (xs : List Order) (k : Text)
    → contains ids k ≡ true
    → find_order k (kept ids xs) ≡ find_order k xs
unfolding kept find_order
find_order-kept ids [] k c = refl
find_order-kept ids (x ∷ xs) k c = elim (Bool-cases (contains ids x.cl_ord_id)) [
  | inl e ↦ rw (e, find_order, find_order-kept ids xs k c) refl
  | inr e ↦ elim (Bool-cases (text_eq x.cl_ord_id k)) [
    | inl b ↦
        let f : contains ids x.cl_ord_id ≡ true = rw (text_eq→eq x.cl_ord_id k b) c in
        absurd (cc (e, f))
    | inr b ↦ rw (e, b) (find_order-kept ids xs k c)
  ]
]
