-- ===== src/Orders/Store/Spec.antt =====
-- The store as a list of orders sorted by the client's id, and its operations by scans from the front.
use cpp_trading_engine.Base.{
  ℕ, ◌≡◌, refl, ap, true, false, Option, none, some, List, [], ◌∷◌, if◌then◌else◌, Bool-cases, inl,
  inr, Text, text_eq, text_lt, text_lt_asym, text_lt_of_not_lt, text_lt_total, text_eq_refl,
  text_eq→eq, get_elem?, set, All, arith,
}
use cpp_trading_engine.Base.Slots.{insert_at, erase_at}
use cpp_trading_engine.Base.Sorted.{IsStrictOrder, IsSorted, rank}
use cpp_trading_engine.Orders.Lifecycle.{Order}

pub text-IsStrictOrder : IsStrictOrder text_lt text_eq
text-IsStrictOrder = record {
  asym = text_lt_asym;
  below = text_lt_of_not_lt;
  total = text_lt_total;
  same_refl = text_eq_refl;
  same→eq = text_eq→eq;
}

abbrev pub id_of : Order → Text
id_of order = order.cl_ord_id

-- Before the first order whose id is not smaller.
unfoldable pub insert_order : Order → List Order → List Order
insert_order o [] = o ∷ []
insert_order o (x ∷ xs) =
    let rest = insert_order o xs in if text_lt x.cl_ord_id o.cl_ord_id then x ∷ rest else o ∷ x ∷ xs

-- The first order with the id.
unfoldable pub find_order : Text → List Order → Option Order
find_order id [] = none
find_order id (x ∷ xs) =
    let rest = find_order id xs in if text_eq x.cl_ord_id id then some x else rest

unfoldable pub remove_order : Text → List Order → List Order
remove_order id [] = []
remove_order id (x ∷ xs) =
    let rest = remove_order id xs in if text_eq x.cl_ord_id id then xs else x ∷ rest

abbrev pub IsOrdered : List Order → Type 0
IsOrdered xs = IsSorted text_lt id_of xs

abbrev pub place : Text → List Order → ℕ
place id xs = rank text_lt id_of id xs

module _ (id : Text) where
  pub ne_of_lt : (x : Order) → text_lt x.cl_ord_id id ≡ true → text_eq x.cl_ord_id id ≡ false
  ne_of_lt x h = elim (Bool-cases (text_eq x.cl_ord_id id)) [
    | inr e ↦ e
    | inl e ↦ let same = text_eq→eq x.cl_ord_id id e in cc (text_lt_asym x.cl_ord_id id h)
  ]

  ne_of_gt : (x : Order) → text_lt id x.cl_ord_id ≡ true → text_eq x.cl_ord_id id ≡ false
  ne_of_gt x h = elim (Bool-cases (text_eq x.cl_ord_id id)) [
    | inr e ↦ e
    | inl e ↦ let same = text_eq→eq x.cl_ord_id id e in cc (text_lt_asym id x.cl_ord_id h)
  ]

  pub find_order_hit :
      (xs : List Order) (x : Order)
      → get_elem? xs (place id xs) ≡ some x
      → text_eq x.cl_ord_id id ≡ true
      → find_order id xs ≡ some x
  unfolding find_order rank
  find_order_hit [] x h e = cc
  find_order_hit (y ∷ ys) x h e = elim (Bool-cases (text_lt y.cl_ord_id id)) [
    | inl b ↦ rw (ne_of_lt y b) (find_order_hit ys x (rw b at h) e)
    | inr b ↦ ground arith
  ]

  pub remove_order_hit :
      (xs : List Order) (x : Order)
      → get_elem? xs (place id xs) ≡ some x
      → text_eq x.cl_ord_id id ≡ true
      → remove_order id xs ≡ erase_at (place id xs) xs
  unfolding remove_order rank
  remove_order_hit [] x h e = cc
  remove_order_hit (y ∷ ys) x h e = elim (Bool-cases (text_lt y.cl_ord_id id)) [
    | inl b ↦ rw (b, ne_of_lt y b) (ap (◌∷◌ y) (remove_order_hit ys x (rw b at h) e))
    | inr b ↦ ground arith
  ]

  pub remove_order-set-place :
      (xs : List Order) (x y : Order)
      → get_elem? xs (place id xs) ≡ some x
      → y.cl_ord_id ≡ id
      → remove_order id (set xs (place id xs) y) ≡ erase_at (place id xs) xs
  unfolding remove_order rank
  remove_order-set-place [] x y h k = cc
  remove_order-set-place (z ∷ zs) x y h k = elim (Bool-cases (text_lt z.cl_ord_id id)) [
    | inl b ↦ rw (b, ne_of_lt z b) (ap (◌∷◌ z) (remove_order-set-place zs x y (rw b at h) k))
    | inr b ↦ rw (b, k, text_eq_refl id) refl
  ]

  pub find_order-set-place :
      (xs : List Order) (x y : Order)
      → get_elem? xs (place id xs) ≡ some x
      → y.cl_ord_id ≡ id
      → find_order id (set xs (place id xs) y) ≡ some y
  unfolding find_order rank
  find_order-set-place [] x y h k = cc
  find_order-set-place (z ∷ zs) x y h k = elim (Bool-cases (text_lt z.cl_ord_id id)) [
    | inl b ↦ rw (b, ne_of_lt z b) (find_order-set-place zs x y (rw b at h) k)
    | inr b ↦ rw (b, k, text_eq_refl id) refl
  ]

  -- An order of a sorted list behind one that is after `id` is after it too.
  after_head :
      (x y : Order)
      → text_lt id x.cl_ord_id ≡ true
      → text_lt y.cl_ord_id x.cl_ord_id ≡ false
      → text_lt id y.cl_ord_id ≡ true
  after_head x y h k = elim (Bool-cases (text_lt id y.cl_ord_id)) [
    | inl e ↦ e
    | inr e ↦ cc (text_lt_of_not_lt y.cl_ord_id id x.cl_ord_id e h)
  ]

  after_of_not_before :
      (x : Order)
      → text_lt x.cl_ord_id id ≡ false
      → text_eq x.cl_ord_id id ≡ false
      → text_lt id x.cl_ord_id ≡ true
  after_of_not_before x h n = elim (Bool-cases (text_lt id x.cl_ord_id)) [
    | inl e ↦ e
    | inr e ↦ cc (text_lt_total x.cl_ord_id id h e)
  ]

  absent_behind :
      (x : Order) (xs : List Order)
      → text_lt id x.cl_ord_id ≡ true
      → All (λ y. text_lt y.cl_ord_id x.cl_ord_id ≡ false) xs
      → (find_order id xs ≡ none) × (remove_order id xs ≡ xs)
  unfolding find_order remove_order
  absent_behind x [] h a = (refl, refl)
  absent_behind x (y ∷ ys) h a =
      let n = ne_of_gt y (after_head x y h a.0) in
      let (f, r) = absent_behind x ys h a.1 in (rw n f, rw n (ap (◌∷◌ y) r))

  pub order_miss :
      (xs : List Order)
      → IsOrdered xs
      → ((x : Order) → get_elem? xs (place id xs) ≡ some x → text_eq x.cl_ord_id id ≡ false)
      → (find_order id xs ≡ none) × (remove_order id xs ≡ xs)
  unfolding find_order remove_order rank
  order_miss [] s n = (refl, refl)
  order_miss (y ∷ ys) s n = elim (Bool-cases (text_lt y.cl_ord_id id)) [
    | inl b ↦
        let (f, r) = order_miss ys s.1 (λ x p. n x (rw b p)) in
        (rw (ne_of_lt y b) f, rw (ne_of_lt y b) (ap (◌∷◌ y) r))
    | inr b ↦
        let e : text_eq y.cl_ord_id id ≡ false = n y (rw b refl) in
        let (f, r) = absent_behind y ys (after_of_not_before y b e) s.0 in
        (rw e f, rw e (ap (◌∷◌ y) r))
  ]

pub insert_order-insert_at :
    (o : Order) (xs : List Order) → insert_order o xs ≡ insert_at (place o.cl_ord_id xs) o xs
unfolding insert_order rank
insert_order-insert_at o [] = refl
insert_order-insert_at o (x ∷ xs) = elim (Bool-cases (text_lt x.cl_ord_id o.cl_ord_id)) [
  | inl b ↦ rw b (ap (◌∷◌ x) (insert_order-insert_at o xs))
  | inr b ↦ rw b refl
]

-- An order just inserted is the one that its id finds.
pub find_order-insert_order :
    (o : Order) (xs : List Order) → find_order o.cl_ord_id (insert_order o xs) ≡ some o
unfolding find_order insert_order
find_order-insert_order o [] = rw (text_eq_refl o.cl_ord_id) refl
find_order-insert_order o (x ∷ xs) = elim (Bool-cases (text_lt x.cl_ord_id o.cl_ord_id)) [
  | inl b ↦ rw (b, ne_of_lt o.cl_ord_id x b) (find_order-insert_order o xs)
  | inr b ↦ rw (b, text_eq_refl o.cl_ord_id) refl
]
