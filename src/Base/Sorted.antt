-- ===== src/Base/Sorted.antt =====
-- Lists sorted by a key, under a strict order given by a Boolean test: where the binary search of
-- such a list stops, and how insertion and removal there relate to a scan from the front.
use cpp_trading_engine.Base.Tests.{if◌then◌else◌, Bool-cases, some_inj}
use cpp_trading_engine.Base.Lists.{length, get_elem?, set, take, All, All-map}
use cpp_trading_engine.Base.Slots.{insert_at, erase_at}
use Prim.Native.Nat.{ℕ, zero, suc, ◌≤◌, ◌<◌}
use mathlib.Core.Path.{◌≡◌, refl, sym, ap, subst, ◌∙◌}
use mathlib.Core.Logic.{inl, inr}
use mathlib.Core.Bool.{Bool, true, false}
use mathlib.Core.Option.{none, some}
use mathlib.Core.List.{List, [], ◌∷◌}
use native.Mathlib.Omega.{arith}

-- What the code relies on of a comparison object and the equality beside it.
pub record IsStrictOrder {ℓ} {K : Type ℓ} (before same : K → K → Bool) : Type ℓ where
  pub asym : (a b : K) → before a b ≡ true → before b a ≡ false
  pub below : (a b c : K) → before b a ≡ false → before b c ≡ true → before a c ≡ true
  pub total : (a b : K) → before a b ≡ false → before b a ≡ false → same a b ≡ true
  pub same_refl : (a : K) → same a a ≡ true
  pub same→eq : (a b : K) → same a b ≡ true → a ≡ b

module _ {ℓ κ} {K : Type ℓ} {E : Type κ} (before : K → K → Bool) (key : E → K) where
  -- The number of elements at the front that are before `k`.
  unfoldable pub rank : K → List E → ℕ
  rank k [] = 0
  rank k (x ∷ xs) = let rest = rank k xs in if before (key x) k then suc rest else 0

  -- No element is before one that stands to its left.
  abbrev pub IsSorted : List E → Type 0
  IsSorted [] = Unit
  IsSorted (x ∷ xs) = All (λ y. before (key y) (key x) ≡ false) xs × IsSorted xs

  -- Each element is before those to its right.
  abbrev pub IsStrictlySorted : List E → Type 0
  IsStrictlySorted [] = Unit
  IsStrictlySorted (x ∷ xs) = All (λ y. before (key x) (key y) ≡ true) xs × IsStrictlySorted xs

  -- The element at an index, tested against a key; past the end the answer is `false`.
  unfoldable pub test_at : K → List E → ℕ → Bool
  test_at k xs i = elim (get_elem? xs i) [ none ↦ false | some x ↦ before (key x) k ]

  pub rank-le-length : (k : K) (xs : List E) → rank k xs ≤ length xs
  unfolding rank
  rank-le-length k [] = omega arith
  rank-le-length k (x ∷ xs) = ground (arith, rank-le-length k xs)

  -- Where an element further right is before `k`, so is the first.
  All-not-before :
      (o : (a b c : K) → before b a ≡ false → before b c ≡ true → before a c ≡ true) (x : E) (k : K)
      (xs : List E) (i : ℕ)
      → All (λ y. before (key y) (key x) ≡ false) xs
      → test_at k xs i ≡ true
      → before (key x) k ≡ true
  unfolding test_at
  All-not-before o x k [] i a h = cc
  All-not-before o x k (y ∷ ys) zero a h = o (key x) (key y) k a.0 h
  All-not-before o x k (y ∷ ys) (suc i) a h = All-not-before o x k ys i a.1 h

  head_before :
      (o : (a b c : K) → before b a ≡ false → before b c ≡ true → before a c ≡ true) (x : E) (k : K)
      (xs : List E) (i : ℕ)
      → IsSorted (x ∷ xs)
      → test_at k (x ∷ xs) i ≡ true
      → before (key x) k ≡ true
  unfolding test_at
  head_before o x k xs zero s h = h
  head_before o x k xs (suc i) s h = All-not-before o x k xs i s.0 h

  -- A boundary of the test, as the binary search finds it, is the rank.
  pub boundary-rank :
      (o : (a b c : K) → before b a ≡ false → before b c ≡ true → before a c ≡ true) (k : K)
      (xs : List E) (r : ℕ)
      → IsSorted xs
      → r ≤ length xs
      → ((i : ℕ) → r ≡ suc i → test_at k xs i ≡ true)
      → (r < length xs → test_at k xs r ≡ false)
      → r ≡ rank k xs
  unfolding rank test_at
  boundary-rank o k [] zero s h lo hi = refl
  boundary-rank o k [] (suc r) s h lo hi = absurd (omega arith)
  boundary-rank o k (x ∷ xs) zero s h lo hi = ground (arith, hi (omega arith))
  boundary-rank o k (x ∷ xs) (suc r) s h lo hi = ground (
    arith,
    head_before o x k xs r s (lo r refl),
    boundary-rank o k xs r s.1 (omega arith) (λ i p. lo (suc i) (ap suc p)) (λ q. hi (omega arith)),
  )

  pub All-erase_at {μ} : (P : E → Type μ) (i : ℕ) (xs : List E) → All P xs → All P (erase_at i xs)
  All-erase_at P i [] h = tt
  All-erase_at P zero (x ∷ xs) h = h.1
  All-erase_at P (suc i) (x ∷ xs) h = (h.0, All-erase_at P i xs h.1)

  pub All-insert_at {μ} :
      (P : E → Type μ) (i : ℕ) (v : E) (xs : List E) → P v → All P xs → All P (insert_at i v xs)
  All-insert_at P zero v xs p h = (p, h)
  All-insert_at P (suc i) v [] p h = (p, tt)
  All-insert_at P (suc i) v (x ∷ xs) p h = (h.0, All-insert_at P i v xs p h.1)

  pub erase_at-IsSorted : (i : ℕ) (xs : List E) → IsSorted xs → IsSorted (erase_at i xs)
  erase_at-IsSorted i [] s = tt
  erase_at-IsSorted zero (x ∷ xs) s = s.1
  erase_at-IsSorted (suc i) (x ∷ xs) s =
      (All-erase_at (λ y. before (key y) (key x) ≡ false) i xs s.0, erase_at-IsSorted i xs s.1)

  pub erase_at-IsStrictlySorted :
      (i : ℕ) (xs : List E) → IsStrictlySorted xs → IsStrictlySorted (erase_at i xs)
  erase_at-IsStrictlySorted i [] s = tt
  erase_at-IsStrictlySorted zero (x ∷ xs) s = s.1
  erase_at-IsStrictlySorted (suc i) (x ∷ xs) s = (
    All-erase_at (λ y. before (key x) (key y) ≡ true) i xs s.0,
    erase_at-IsStrictlySorted i xs s.1,
  )

  All-take {μ} : (P : E → Type μ) (n : ℕ) (xs : List E) → All P xs → All P (take n xs)
  All-take P zero xs h = tt
  All-take P (suc n) [] h = tt
  All-take P (suc n) (x ∷ xs) h = (h.0, All-take P n xs h.1)

  pub take-IsStrictlySorted :
      (n : ℕ) (xs : List E) → IsStrictlySorted xs → IsStrictlySorted (take n xs)
  take-IsStrictlySorted zero xs s = tt
  take-IsStrictlySorted (suc n) [] s = tt
  take-IsStrictlySorted (suc n) (x ∷ xs) s =
      (All-take (λ y. before (key x) (key y) ≡ true) n xs s.0, take-IsStrictlySorted n xs s.1)

  pub All-set {μ} :
      (P : E → Type μ) (i : ℕ) (v : E) (xs : List E) → P v → All P xs → All P (set xs i v)
  All-set P i v [] p h = tt
  All-set P zero v (x ∷ xs) p h = (p, h.1)
  All-set P (suc i) v (x ∷ xs) p h = (h.0, All-set P i v xs p h.1)

  All_at {μ} :
      (P : E → Type μ) (i : ℕ) (xs : List E) (y : E) → get_elem? xs i ≡ some y → All P xs → P y
  All_at P i [] y e h = cc
  All_at P zero (x ∷ xs) y e h = subst P (some_inj x y e) h.0
  All_at P (suc i) (x ∷ xs) y e h = All_at P i xs y e h.1

  -- A new element with the old one's key keeps a list strictly sorted.
  pub set-IsStrictlySorted :
      (i : ℕ) (v y : E) (xs : List E)
      → get_elem? xs i ≡ some y
      → key v ≡ key y
      → IsStrictlySorted xs
      → IsStrictlySorted (set xs i v)
  set-IsStrictlySorted i v y [] e k s = tt
  set-IsStrictlySorted zero v y (x ∷ xs) e k s = (rw (k ∙ ap key (sym (some_inj x y e))) s.0, s.1)
  set-IsStrictlySorted (suc i) v y (x ∷ xs) e k s = (
    All-set (λ z. before (key x) (key z) ≡ true) i v xs
        (rw k (All_at (λ z. before (key x) (key z) ≡ true) i xs y e s.0)) s.0,
    set-IsStrictlySorted i v y xs e k s.1,
  )

  pub set-IsSorted :
      (i : ℕ) (v y : E) (xs : List E)
      → get_elem? xs i ≡ some y
      → key v ≡ key y
      → IsSorted xs
      → IsSorted (set xs i v)
  set-IsSorted i v y [] e k s = tt
  set-IsSorted zero v y (x ∷ xs) e k s = (rw (k ∙ ap key (sym (some_inj x y e))) s.0, s.1)
  set-IsSorted (suc i) v y (x ∷ xs) e k s = (
    All-set (λ z. before (key z) (key x) ≡ false) i v xs
        (rw k (All_at (λ z. before (key z) (key x) ≡ false) i xs y e s.0)) s.0,
    set-IsSorted i v y xs e k s.1,
  )

  module _ {same : K → K → Bool} (o : IsStrictOrder before same) where
    not_before_trans : (a b c : K) → before b a ≡ false → before c b ≡ false → before c a ≡ false
    not_before_trans a b c h k = elim (Bool-cases (before c a)) [
      | inl e ↦ cc (o.below b c a k e)
      | inr e ↦ e
    ]

    before_trans : (a b c : K) → before a b ≡ true → before b c ≡ true → before a c ≡ true
    before_trans a b c h k = o.below a b c (o.asym a b h) k

    before_of_not_same : (a b : K) → before a b ≡ false → same a b ≡ false → before b a ≡ true
    before_of_not_same a b h n = elim (Bool-cases (before b a)) [
      | inl e ↦ e
      | inr e ↦ cc (o.total a b h e)
    ]

    All-not-before_of_head :
        (v x : E) (xs : List E)
        → before (key x) (key v) ≡ false
        → All (λ y. before (key y) (key x) ≡ false) xs
        → All (λ y. before (key y) (key v) ≡ false) xs
    All-not-before_of_head v x [] h a = tt
    All-not-before_of_head v x (y ∷ ys) h a =
        (not_before_trans (key v) (key x) (key y) h a.0, All-not-before_of_head v x ys h a.1)

    -- Insertion at the rank keeps a list sorted, also where the key is there already.
    pub insert_at-IsSorted :
        (v : E) (xs : List E) → IsSorted xs → IsSorted (insert_at (rank (key v) xs) v xs)
    unfolding rank
    insert_at-IsSorted v [] s = (tt, tt)
    insert_at-IsSorted v (x ∷ xs) s = elim (Bool-cases (before (key x) (key v))) [
      | inl e ↦ rw e (
        All-insert_at (λ y. before (key y) (key x) ≡ false) (rank (key v) xs) v xs
            (o.asym (key x) (key v) e) s.0,
        insert_at-IsSorted v xs s.1,
      )
      | inr e ↦ rw e ((e, All-not-before_of_head v x xs e s.0), s)
    ]

    All-before_of_head :
        (k : K) (x : E) (xs : List E)
        → before k (key x) ≡ true
        → All (λ y. before (key x) (key y) ≡ true) xs
        → All (λ y. before k (key y) ≡ true) xs
    All-before_of_head k x xs h =
        All-map (λ y. before (key x) (key y) ≡ true) (λ y. before k (key y) ≡ true) xs
          (λ y e. before_trans k (key x) (key y) h e)

    -- Insertion of a key that is not there keeps a list strictly sorted.
    pub insert_at-IsStrictlySorted :
        (v : E) (xs : List E)
        → IsStrictlySorted xs
        → ((x : E) → get_elem? xs (rank (key v) xs) ≡ some x → same (key x) (key v) ≡ false)
        → IsStrictlySorted (insert_at (rank (key v) xs) v xs)
    unfolding rank
    insert_at-IsStrictlySorted v [] s f = (tt, tt)
    insert_at-IsStrictlySorted v (x ∷ xs) s f = elim (Bool-cases (before (key x) (key v))) [
      | inl e ↦ rw e (
        All-insert_at (λ y. before (key x) (key y) ≡ true) (rank (key v) xs) v xs e s.0,
        insert_at-IsStrictlySorted v xs s.1 (λ y p. f y (rw e p)),
      )
      | inr e ↦
          let first : before (key v) (key x) ≡ true =
            before_of_not_same (key x) (key v) e (f x (rw e refl)) in
          rw e ((first, All-before_of_head (key v) x xs first s.0), s)
    ]

    pub IsStrictlySorted-IsSorted : (xs : List E) → IsStrictlySorted xs → IsSorted xs
    IsStrictlySorted-IsSorted [] s = tt
    IsStrictlySorted-IsSorted (x ∷ xs) s = (
      All-map (λ y. before (key x) (key y) ≡ true) (λ y. before (key y) (key x) ≡ false) xs
          (λ y e. o.asym (key x) (key y) e) s.0,
      IsStrictlySorted-IsSorted xs s.1,
    )
