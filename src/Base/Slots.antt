-- ===== src/Base/Slots.antt =====
-- Fixed arrays used from the front, as `PriceLevels` and `OrderStore` use theirs: the loops that shift
-- the elements up before an insertion and down after a removal.
use cpp_trading_engine.Base.Results.{Result, ok, err, out_of_bounds, or_throw, ◌>>=◌}
use cpp_trading_engine.Base.Tests.{ltb, lt→ltb, if◌then◌else◌, Option-cases, Bool-cases}
use cpp_trading_engine.Base.Lists.{length, get_elem?, set, take, drop, get_elem?_total, length-set}
use Prim.Native.Nat.{ℕ, zero, suc, ◌+◌, ◌-◌, ◌≤◌, ◌<◌}
use mathlib.Core.Path.{◌≡◌, refl, sym, ap, ap₂, ◌∙◌}
use mathlib.Core.Logic.{inl, inr}
use mathlib.Core.Option.{none, some}
use mathlib.Core.List.{List, [], ◌∷◌, ◌++◌, map, append_assoc}
use native.Mathlib.Omega.{arith}

module _ {ℓ} {A : Type ℓ} where
  -- `slots[i] = v`; outside the array it is an error.
  abbrev pub write_slot : List A → ℕ → A → Result (List A)
  write_slot slots i v = if ltb i (length slots) then ok (set slots i v) else err out_of_bounds

  -- `slots[to] = slots[from]`
  unfoldable pub move_slot : List A → ℕ → ℕ → Result (List A)
  move_slot slots to from =
      (or_throw out_of_bounds (get_elem? slots from)) >>= λ v. write_slot slots to v

  -- `for (j = last; j > i; j--) slots[j] = slots[j - 1];`
  unfoldable pub move_up : List A → ℕ → ℕ → Result (List A)
  unfolding move_slot
  move_up slots i zero = ok slots
  move_up slots i (suc j) =
      if ltb i (suc j)
      then ((move_slot slots (suc j) j) >>= λ moved. move_up moved i j)
      else ok slots

  -- `for (; j + 1 < count; j++) slots[j] = slots[j + 1];` The first number is the rounds left.
  unfoldable pub move_down : ℕ → List A → ℕ → ℕ → Result (List A)
  unfolding move_slot
  move_down zero slots j count = ok slots
  move_down (suc rounds) slots j count =
      if ltb (j + 1) count
      then ((move_slot slots j (j + 1)) >>= λ moved. move_down rounds moved (j + 1) count)
      else ok slots

  -- The same loops on a list that is long enough
  unfoldable pub copy_slot : List A → ℕ → ℕ → List A
  copy_slot slots to from = elim (get_elem? slots from) [ none ↦ slots | some v ↦ set slots to v ]

  unfoldable pub shift_up : List A → ℕ → ℕ → List A
  shift_up slots i zero = slots
  shift_up slots i (suc j) =
      let rest = shift_up (copy_slot slots (suc j) j) i j in if ltb i (suc j) then rest else slots

  unfoldable pub shift_down : ℕ → List A → ℕ → ℕ → List A
  shift_down zero slots j count = slots
  shift_down (suc rounds) slots j count =
      let rest = shift_down rounds (copy_slot slots j (j + 1)) (j + 1) count in
      if ltb (j + 1) count then rest else slots

  -- What the loops do to the list of the elements in use.
  abbrev pub insert_at : ℕ → A → List A → List A
  insert_at zero v xs = v ∷ xs
  insert_at (suc i) v [] = v ∷ []
  insert_at (suc i) v (x ∷ xs) = x ∷ insert_at i v xs

  abbrev pub erase_at : ℕ → List A → List A
  erase_at i [] = []
  erase_at zero (x ∷ xs) = xs
  erase_at (suc i) (x ∷ xs) = x ∷ erase_at i xs

  length-copy_slot : (xs : List A) (i j : ℕ) → length (copy_slot xs i j) ≡ length xs
  unfolding copy_slot
  length-copy_slot xs i j = elim (Option-cases (get_elem? xs j)) [
    | inl e ↦ rw (e, copy_slot) refl
    | inr (v, e) ↦ rw (e, copy_slot) (length-set xs i v)
  ]

  pub length-shift_up : (xs : List A) (i j : ℕ) → length (shift_up xs i j) ≡ length xs
  unfolding shift_up
  length-shift_up xs i zero = refl
  length-shift_up xs i (suc j) =
      ground (arith, length-shift_up (copy_slot xs (suc j) j) i j, length-copy_slot xs (suc j) j)

  pub length-shift_down : (n : ℕ) (xs : List A) (i c : ℕ) → length (shift_down n xs i c) ≡ length xs
  unfolding shift_down
  length-shift_down zero xs i c = refl
  length-shift_down (suc n) xs i c =
      ground (
        arith,
        length-shift_down n (copy_slot xs i (i + 1)) (i + 1) c,
        length-copy_slot xs i (i + 1),
      )

  pub write_slot-set :
      (xs : List A) (i : ℕ) (v : A) → i < length xs → write_slot xs i v ≡ ok (set xs i v)
  write_slot-set xs i v h = rw (lt→ltb i (length xs) h) refl

  move_slot-copy_slot :
      (xs : List A) (i j : ℕ)
      → i < length xs
      → j < length xs
      → move_slot xs i j ≡ ok (copy_slot xs i j)
  unfolding move_slot copy_slot
  move_slot-copy_slot xs i j h k =
      let (v, e) = get_elem?_total xs j k in rw (e, copy_slot, lt→ltb i (length xs) h) refl

  -- Within the array the loops run through.
  pub move_up-shift_up :
      (xs : List A) (i j : ℕ) → j < length xs → move_up xs i j ≡ ok (shift_up xs i j)
  unfolding move_up shift_up
  move_up-shift_up xs i zero h = refl
  move_up-shift_up xs i (suc j) h = elim (Bool-cases (ltb i (suc j))) [
    | inr e ↦ rw e refl
    | inl e ↦
        rw (e, move_slot-copy_slot xs (suc j) j h (omega arith))
          (move_up-shift_up (copy_slot xs (suc j) j) i j
            (omega (arith, length-copy_slot xs (suc j) j)))
  ]

  pub move_down-shift_down :
      (n : ℕ) (xs : List A) (i c : ℕ)
      → c ≤ length xs
      → move_down n xs i c ≡ ok (shift_down n xs i c)
  unfolding move_down shift_down
  move_down-shift_down zero xs i c h = refl
  move_down-shift_down (suc n) xs i c h = elim (Bool-cases (ltb (i + 1) c)) [
    | inr e ↦ rw e refl
    | inl e ↦
        let k : i + 1 < length xs = ground arith in
        rw (e, move_slot-copy_slot xs i (i + 1) (omega arith) k)
          (move_down-shift_down n (copy_slot xs i (i + 1)) (i + 1) c
            (omega (arith, length-copy_slot xs i (i + 1))))
  ]

  copy_slot-cons :
      (x : A) (xs : List A) (i j : ℕ) → copy_slot (x ∷ xs) (suc i) (suc j) ≡ x ∷ copy_slot xs i j
  unfolding copy_slot
  copy_slot-cons x xs i j = elim (Option-cases (get_elem? xs j)) [
    | inl e ↦ rw (e, copy_slot) refl
    | inr (v, e) ↦ rw (e, copy_slot) refl
  ]

  shift_up-cons :
      (x : A) (xs : List A) (i j : ℕ) → shift_up (x ∷ xs) (suc i) (suc j) ≡ x ∷ shift_up xs i j
  unfolding shift_up
  shift_up-cons x xs i zero = ground arith
  shift_up-cons x xs i (suc j) =
      ground (arith, copy_slot-cons x xs (suc j) j, shift_up-cons x (copy_slot xs (suc j) j) i j)

  shift_down-cons :
      (n : ℕ) (x : A) (xs : List A) (i c : ℕ)
      → shift_down n (x ∷ xs) (suc i) (suc c) ≡ x ∷ shift_down n xs i c
  unfolding shift_down
  shift_down-cons zero x xs i c = refl
  shift_down-cons (suc n) x xs i c =
      ground (
        arith,
        copy_slot-cons x xs i (i + 1),
        shift_down-cons n x (copy_slot xs i (i + 1)) (i + 1) c,
      )

  pub take-set_ge : (n i : ℕ) (xs : List A) (v : A) → n ≤ i → take n (set xs i v) ≡ take n xs
  take-set_ge zero i xs v h = refl
  take-set_ge (suc n) i [] v h = refl
  take-set_ge (suc n) zero (x ∷ xs) v h = absurd (omega arith)
  take-set_ge (suc n) (suc i) (x ∷ xs) v h = ap (◌∷◌ x) (take-set_ge n i xs v (omega arith))

  drop-set_self :
      (i : ℕ) (xs : List A) (v : A) → i < length xs → drop i (set xs i v) ≡ v ∷ drop (suc i) xs
  drop-set_self i [] v h = absurd (omega arith)
  drop-set_self zero (x ∷ xs) v h = refl
  drop-set_self (suc i) (x ∷ xs) v h = drop-set_self i xs v (omega arith)

  take-suc :
      (n : ℕ) (xs : List A) (v : A)
      → get_elem? xs n ≡ some v
      → take (suc n) xs ≡ take n xs ++ v ∷ []
  take-suc n [] v e = cc
  take-suc zero (x ∷ xs) v e = cc
  take-suc (suc n) (x ∷ xs) v e = ap (◌∷◌ x) (take-suc n xs v e)

  copy_slot-some :
      (xs : List A) (i j : ℕ) (v : A) → get_elem? xs j ≡ some v → copy_slot xs i j ≡ set xs i v
  unfolding copy_slot
  copy_slot-some xs i j v e = rw (e, copy_slot)

  -- All elements move up by one: the first slot keeps a copy of its element.
  shift_up_zero :
      (x : A) (xs : List A) (n : ℕ)
      → n ≤ length xs
      → shift_up (x ∷ xs) 0 n ≡ x ∷ (take n (x ∷ xs) ++ drop n xs)
  unfolding shift_up
  shift_up_zero x xs zero h = refl
  shift_up_zero x xs (suc n) h =
      let (v, e) = get_elem?_total (x ∷ xs) n (omega arith) in
      rw (copy_slot-some (x ∷ xs) (suc n) n v e, lt→ltb 0 (suc n) (omega arith))
        (shift_up_zero x (set xs n v) n (omega (arith, length-set xs n v))
          ∙ ap (◌∷◌ x) (
              ap₂ ◌++◌ (take-set_ge n (suc n) (x ∷ xs) v (omega arith)) (drop-set_self n xs v h)
              ∙ sym (append_assoc (take n (x ∷ xs)) (v ∷ []) (drop (suc n) xs))
              ∙ ap (λ ys. ys ++ drop (suc n) xs) (sym (take-suc n (x ∷ xs) v e))))

  take-append : (n : ℕ) (xs ys : List A) → n ≤ length xs → take n (take n xs ++ ys) ≡ take n xs
  take-append zero xs ys h = refl
  take-append (suc n) [] ys h = absurd (omega arith)
  take-append (suc n) (x ∷ xs) ys h = ap (◌∷◌ x) (take-append n xs ys (omega arith))

  -- Shifting up from `i` and writing there inserts into the elements in use.
  pub take-shift_up :
      (xs : List A) (i n : ℕ) (v : A)
      → i ≤ n
      → n < length xs
      → take (suc n) (set (shift_up xs i n) i v) ≡ insert_at i v (take n xs)
  take-shift_up [] i n v h k = absurd (omega arith)
  take-shift_up (x ∷ xs) zero n v h k =
      rw (shift_up_zero x xs n (omega arith))
        (ap (◌∷◌ v) (take-append n (x ∷ xs) (drop n xs) (omega arith)))
  take-shift_up (x ∷ xs) (suc i) zero v h k = absurd (omega arith)
  take-shift_up (x ∷ xs) (suc i) (suc n) v h k =
      rw (shift_up-cons x xs i n) (ap (◌∷◌ x) (take-shift_up xs i n v (omega arith) (omega arith)))

  -- Shifting down onto `i` erases it from the elements in use.
  shift_down_zero :
      (x : A) (xs : List A) (n rounds : ℕ)
      → n ≤ length xs
      → n < rounds
      → take n (shift_down rounds (x ∷ xs) 0 (suc n)) ≡ take n xs
  unfolding shift_down
  shift_down_zero x xs n zero h f = absurd (omega arith)
  shift_down_zero x xs zero (suc r) h f = refl
  shift_down_zero x [] (suc n) (suc r) h f = absurd (omega arith)
  shift_down_zero x (y ∷ ys) (suc n) (suc r) h f =
      rw (copy_slot-some (x ∷ y ∷ ys) 0 1 y refl, lt→ltb 1 (suc (suc n)) (omega arith))
        (rw (shift_down-cons r y (y ∷ ys) 0 (suc n))
          (ap (◌∷◌ y) (shift_down_zero y ys n r (omega arith) (omega arith))))

  pub take-shift_down :
      (xs : List A) (i n rounds : ℕ)
      → i ≤ n
      → n < length xs
      → n - i < rounds
      → take n (shift_down rounds xs i (suc n)) ≡ erase_at i (take (suc n) xs)
  take-shift_down [] i n r h k f = absurd (omega arith)
  take-shift_down (x ∷ xs) zero n r h k f = shift_down_zero x xs n r (omega arith) (omega arith)
  take-shift_down (x ∷ xs) (suc i) zero r h k f = absurd (omega arith)
  take-shift_down (x ∷ xs) (suc i) (suc n) r h k f =
      rw (shift_down-cons r x xs i (suc n))
        (ap (◌∷◌ x) (take-shift_down xs i n r (omega arith) (omega arith) (omega arith)))

  pub take-insert_at :
      (i n : ℕ) (v : A) (xs : List A)
      → i ≤ n
      → take (suc n) (insert_at i v xs) ≡ insert_at i v (take n xs)
  take-insert_at zero n v xs h = refl
  take-insert_at (suc i) zero v xs h = absurd (omega arith)
  take-insert_at (suc i) (suc n) v [] h = refl
  take-insert_at (suc i) (suc n) v (x ∷ xs) h = ap (◌∷◌ x) (take-insert_at i n v xs (omega arith))

  -- Insertion past the first `n` elements leaves them alone.
  pub take-insert_at_ge :
      (i n : ℕ) (v : A) (xs : List A)
      → n ≤ i
      → n ≤ length xs
      → take n (insert_at i v xs) ≡ take n xs
  take-insert_at_ge i zero v xs h k = refl
  take-insert_at_ge zero (suc n) v xs h k = absurd (omega arith)
  take-insert_at_ge (suc i) (suc n) v [] h k = absurd (omega arith)
  take-insert_at_ge (suc i) (suc n) v (x ∷ xs) h k =
      ap (◌∷◌ x) (take-insert_at_ge i n v xs (omega arith) (omega arith))

  pub length-insert_at : (i : ℕ) (v : A) (xs : List A) → length (insert_at i v xs) ≡ suc (length xs)
  length-insert_at zero v xs = refl
  length-insert_at (suc i) v [] = refl
  length-insert_at (suc i) v (x ∷ xs) = ap suc (length-insert_at i v xs)

  pub take-take : (m n : ℕ) (xs : List A) → m ≤ n → take m (take n xs) ≡ take m xs
  take-take zero n xs h = refl
  take-take (suc m) zero xs h = absurd (omega arith)
  take-take (suc m) (suc n) [] h = refl
  take-take (suc m) (suc n) (x ∷ xs) h = ap (◌∷◌ x) (take-take m n xs (omega arith))

  pub take-set : (n i : ℕ) (xs : List A) (v : A) → take n (set xs i v) ≡ set (take n xs) i v
  take-set zero i xs v = refl
  take-set (suc n) i [] v = refl
  take-set (suc n) zero (x ∷ xs) v = refl
  take-set (suc n) (suc i) (x ∷ xs) v = ap (◌∷◌ x) (take-set n i xs v)

  pub length-erase_at :
      (i : ℕ) (xs : List A) → i < length xs → suc (length (erase_at i xs)) ≡ length xs
  length-erase_at i [] h = absurd (omega arith)
  length-erase_at zero (x ∷ xs) h = refl
  length-erase_at (suc i) (x ∷ xs) h = ap suc (length-erase_at i xs (omega arith))

  pub length-erase_at-le : (i : ℕ) (xs : List A) → length (erase_at i xs) ≤ length xs
  length-erase_at-le i [] = omega arith
  length-erase_at-le zero (x ∷ xs) = omega arith
  length-erase_at-le (suc i) (x ∷ xs) = omega (arith, length-erase_at-le i xs)

module _ {ℓ κ} {A : Type ℓ} {B : Type κ} (f : A → B) where
  pub map-insert_at :
      (i : ℕ) (v : A) (xs : List A) → map f (insert_at i v xs) ≡ insert_at i (f v) (map f xs)
  map-insert_at zero v xs = refl
  map-insert_at (suc i) v [] = refl
  map-insert_at (suc i) v (x ∷ xs) = ap (◌∷◌ (f x)) (map-insert_at i v xs)

  pub map-erase_at : (i : ℕ) (xs : List A) → map f (erase_at i xs) ≡ erase_at i (map f xs)
  map-erase_at i [] = refl
  map-erase_at zero (x ∷ xs) = refl
  map-erase_at (suc i) (x ∷ xs) = ap (◌∷◌ (f x)) (map-erase_at i xs)

  pub map-set : (xs : List A) (i : ℕ) (v : A) → map f (set xs i v) ≡ set (map f xs) i (f v)
  map-set [] i v = refl
  map-set (x ∷ xs) zero v = refl
  map-set (x ∷ xs) (suc i) v = ap (◌∷◌ (f x)) (map-set xs i v)

  pub length-map : (xs : List A) → length (map f xs) ≡ length xs
  length-map [] = refl
  length-map (x ∷ xs) = ap suc (length-map xs)

  pub get_elem?-map :
      (xs : List A) (i : ℕ) (x : A) → get_elem? xs i ≡ some x → get_elem? (map f xs) i ≡ some (f x)
  get_elem?-map [] i x e = cc
  get_elem?-map (y ∷ ys) zero x e = cc
  get_elem?-map (y ∷ ys) (suc i) x e = get_elem?-map ys i x e
