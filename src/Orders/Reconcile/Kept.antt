-- ===== src/Orders/Reconcile/Kept.antt =====
-- Which orders the second loop of `ReconcileOrders` leaves: on the list of orders, and on the store.
use cpp_trading_engine.Base.{
  ◌≡◌, refl, sym, ap, ◌∙◌, Bool, true, false, none, some, List, [], ◌∷◌, if◌then◌else◌, Bool-cases,
  inl, inr, Text, text_eq, text_eq→eq, text_eq_refl, All, Result, ok, err, is_some, subst,
}
use cpp_trading_engine.Base.Effects.{resume}
use cpp_trading_engine.Orders.Lifecycle.{Order}
use cpp_trading_engine.Orders.Store.{OrderStore}
use cpp_trading_engine.Orders.Store.Spec.{find_order, remove_order}
use cpp_trading_engine.Orders.Store.View.{Stores}
use cpp_trading_engine.Orders.Store.Refine.{remove-remove_order}
use cpp_trading_engine.Orders.Reconcile.{contains, to_drop, drop_all, told}

-- The orders whose ids the exchange knows.
unfoldable pub kept : List Text → List Order → List Order
kept ids [] = []
kept ids (x ∷ xs) = let rest = kept ids xs in if contains ids x.cl_ord_id then x ∷ rest else rest

unfoldable pub remove_all : List Text → List Order → List Order
remove_all [] xs = xs
remove_all (d ∷ ds) xs = remove_all ds (remove_order d xs)

-- There is an order with the id.
abbrev pub Has : List Order → Text → Type 0
Has xs id = is_some (find_order id xs) ≡ true

-- The ids for which the removals one after the other find an order.
unfoldable pub removed_ids : List Text → List Order → List Text
removed_ids [] xs = []
removed_ids (d ∷ ds) xs =
    let rest = removed_ids ds (remove_order d xs) in
    if is_some (find_order d xs) then d ∷ rest else rest

remove_order_head : (x : Order) (xs : List Order) → remove_order x.cl_ord_id (x ∷ xs) ≡ xs
unfolding remove_order
remove_order_head x xs = rw (text_eq_refl x.cl_ord_id) refl

find_order_head : (x : Order) (xs : List Order) → find_order x.cl_ord_id (x ∷ xs) ≡ some x
unfolding find_order
find_order_head x xs = rw (text_eq_refl x.cl_ord_id) refl

-- The removals in the store are those on the list, and the listener is told of those that hit.
pub drop_all-remove_all :
    (ds : List Text) (xs : List Order) (s : OrderStore)
    → Stores xs s
    → let (q, r) = drop_all ds s in Stores (remove_all ds xs) q × (r ≡ ok (removed_ids ds xs))
unfolding drop_all remove_all removed_ids
drop_all-remove_all [] xs s v = (v, refl)
drop_all-remove_all (d ∷ ds) xs s v =
    let (t, e, w) = remove-remove_order xs s d v in
    let (u, r) = drop_all-remove_all ds (remove_order d xs) t w in
    rw (e, drop_all) (resumed (drop_all ds t) (is_some (find_order d xs)) u r)
  where
    resumed :
        (m : OrderStore × Result (List Text)) (b : Bool)
        → Stores (remove_all ds (remove_order d xs)) m.0
        → m.1 ≡ ok (removed_ids ds (remove_order d xs))
        → let (q, r) =
            resume (λ notices u. (u, ok (told (if b then some d else none) notices))) m in
          Stores (remove_all ds (remove_order d xs)) q
          × (r
              ≡ ok (
                  if b
                  then d ∷ removed_ids ds (remove_order d xs)
                  else removed_ids ds (remove_order d xs)))
    resumed (q, err e) b u r = cc
    resumed (q, ok ns) true u r = (u, cc)
    resumed (q, ok ns) false u r = (u, r)

module _ (ids : List Text) where
  -- The ids to drop are not among the exchange's.
  to_drop-missing : (xs : List Order) → All (λ d. contains ids d ≡ false) (to_drop ids xs)
  unfolding to_drop
  to_drop-missing [] = tt
  to_drop-missing (x ∷ xs) = elim (Bool-cases (contains ids x.cl_ord_id)) [
    | inl e ↦ rw e (to_drop-missing xs)
    | inr e ↦ rw e (e, to_drop-missing xs)
  ]

  ne_of_contains :
      (x : Order) (d : Text)
      → contains ids x.cl_ord_id ≡ true
      → contains ids d ≡ false
      → text_eq x.cl_ord_id d ≡ false
  ne_of_contains x d h k = elim (Bool-cases (text_eq x.cl_ord_id d)) [
    | inr e ↦ e
    | inl e ↦ let same = text_eq→eq x.cl_ord_id d e in cc
  ]

  remove_all-cons :
      (ds : List Text) (x : Order) (xs : List Order)
      → contains ids x.cl_ord_id ≡ true
      → All (λ d. contains ids d ≡ false) ds
      → remove_all ds (x ∷ xs) ≡ x ∷ remove_all ds xs
  unfolding remove_all remove_order
  remove_all-cons [] x xs h a = refl
  remove_all-cons (d ∷ ds) x xs h a =
      rw (ne_of_contains x d h a.0) (remove_all-cons ds x (remove_order d xs) h a.1)

  pub remove_all-to_drop : (xs : List Order) → remove_all (to_drop ids xs) xs ≡ kept ids xs
  unfolding to_drop kept remove_all remove_order
  remove_all-to_drop [] = refl
  remove_all-to_drop (x ∷ xs) = elim (Bool-cases (contains ids x.cl_ord_id)) [
    | inl e ↦ rw e (
        remove_all-cons (to_drop ids xs) x xs e (to_drop-missing xs)
        ∙ ap (◌∷◌ x) (remove_all-to_drop xs))
    | inr e ↦
        rw e (ap (remove_all (to_drop ids xs)) (remove_order_head x xs) ∙ remove_all-to_drop xs)
  ]

  pub kept-known : (xs : List Order) → All (λ x. contains ids x.cl_ord_id ≡ true) (kept ids xs)
  unfolding kept
  kept-known [] = tt
  kept-known (x ∷ xs) = elim (Bool-cases (contains ids x.cl_ord_id)) [
    | inl e ↦ rw e (e, kept-known xs)
    | inr e ↦ rw e (kept-known xs)
  ]

  pub kept-All {κ} : (P : Order → Type κ) (xs : List Order) → All P xs → All P (kept ids xs)
  unfolding kept
  kept-All P [] h = tt
  kept-All P (x ∷ xs) h = elim (Bool-cases (contains ids x.cl_ord_id)) [
    | inl e ↦ rw e (h.0, kept-All P xs h.1)
    | inr e ↦ rw e (kept-All P xs h.1)
  ]

  pub kept-Has :
      (xs : List Order) (id : Text) → contains ids id ≡ true → Has xs id → Has (kept ids xs) id
  unfolding kept find_order
  kept-Has [] id c h = h
  kept-Has (x ∷ xs) id c h = elim (Bool-cases (text_eq x.cl_ord_id id)) [
    | inl e ↦
        rw (subst (λ t. contains ids t ≡ true) (sym (text_eq→eq x.cl_ord_id id e)) c, find_order, e)
          refl
    | inr e ↦ elim (Bool-cases (contains ids x.cl_ord_id)) [
      | inl k ↦ rw (k, find_order, e) (kept-Has xs id c (rw e at h))
      | inr k ↦ rw k (kept-Has xs id c (rw e at h))
    ]
  ]

  removed_ids-cons :
      (ds : List Text) (x : Order) (xs : List Order)
      → contains ids x.cl_ord_id ≡ true
      → All (λ d. contains ids d ≡ false) ds
      → removed_ids ds (x ∷ xs) ≡ removed_ids ds xs
  unfolding removed_ids remove_order find_order
  removed_ids-cons [] x xs h a = refl
  removed_ids-cons (d ∷ ds) x xs h a =
      rw (ne_of_contains x d h a.0, removed_ids-cons ds x (remove_order d xs) h a.1) refl

  -- Every id to drop is found when its turn comes.
  pub removed_ids-to_drop : (xs : List Order) → removed_ids (to_drop ids xs) xs ≡ to_drop ids xs
  unfolding to_drop removed_ids
  removed_ids-to_drop [] = refl
  removed_ids-to_drop (x ∷ xs) = elim (Bool-cases (contains ids x.cl_ord_id)) [
    | inl e ↦
        rw e
          (removed_ids-cons (to_drop ids xs) x xs e (to_drop-missing xs) ∙ removed_ids-to_drop xs)
    | inr e ↦
        rw (e, find_order_head x xs, remove_order_head x xs)
          (ap (◌∷◌ x.cl_ord_id) (removed_ids-to_drop xs))
  ]
