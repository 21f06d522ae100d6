-- ===== src/Base/Wrap.antt =====
-- An array used as a ring: a list lies in it from a start on, wrapped round at the end.
use cpp_trading_engine.Base.Tests.{Bool-cases, ltb, ltb→lt, some_inj}
use cpp_trading_engine.Base.Lists.{
  length, get_elem?, set, length-set, length-append, lt-length_of_get,
}
use Prim.Native.Nat.{ℕ, zero, suc, ◌+◌, ◌-◌, ◌%◌, ◌≤◌, ◌<◌}
use mathlib.Core.Path.{◌≡◌, refl, sym, ap, ◌∙◌, subst}
use mathlib.Core.Logic.{◌≢◌, ◌⊎◌, inl, inr}
use mathlib.Core.Option.{some}
use mathlib.Core.List.{List, [], ◌∷◌, ◌++◌}
use native.Mathlib.Omega.{arith}
use native.Mathlib.Nat.{mod-lt, mod-add-mod, mod-eq_of_lt, mod-eq-sub-mod}

-- An index taken once round the ring.
pub wrapped-cases :
    (cap x : ℕ) → x < cap + cap → ((x < cap) × (x % cap ≡ x)) ⊎ ((cap ≤ x) × (x % cap ≡ x - cap))
wrapped-cases cap x h = elim (Bool-cases (ltb x cap)) [
  | inl e ↦ let k = ltb→lt x cap e in inl (k, mod-eq_of_lt k)
  | inr e ↦
      let k : cap ≤ x = ground arith in
      inr
        (k, mod-eq-sub-mod {n = x} {m = cap} k ∙ mod-eq_of_lt {n = x - cap} {m = cap} (omega arith))
]

-- Different offsets within the ring are different slots.
pub wrapped_ne :
    (cap start i n : ℕ) → start < cap → i < n → n < cap → (start + i) % cap ≢ (start + n) % cap
wrapped_ne cap start i n s h k e = elim (wrapped-cases cap (start + i) (omega arith)) [
  | inl (a, p) ↦ elim (wrapped-cases cap (start + n) (omega arith)) [
    | inl (b, q) ↦ omega (arith, e, p, q)
    | inr (b, q) ↦ omega (arith, e, p, q)
  ]
  | inr (a, p) ↦ elim (wrapped-cases cap (start + n) (omega arith)) [
    | inl (b, q) ↦ omega (arith, e, p, q)
    | inr (b, q) ↦ omega (arith, e, p, q)
  ]
]

pub wrapped_next : (cap start i : ℕ) → ((start + 1) % cap + i) % cap ≡ (start + suc i) % cap
wrapped_next cap start i = rw mod-add-mod (ap (λ x. x % cap) (omega arith))

module _ {A : Type 0} where
  pub get_elem?-set_same :
      (ts : List A) (i : ℕ) (v : A) → i < length ts → get_elem? (set ts i v) i ≡ some v
  get_elem?-set_same [] i v h = absurd (omega arith)
  get_elem?-set_same (t ∷ ts) zero v h = refl
  get_elem?-set_same (t ∷ ts) (suc i) v h = get_elem?-set_same ts i v (omega arith)

  pub get_elem?-set_other :
      (ts : List A) (i j : ℕ) (v : A) → j ≢ i → get_elem? (set ts i v) j ≡ get_elem? ts j
  get_elem?-set_other [] i j v h = refl
  get_elem?-set_other (t ∷ ts) zero zero v h = absurd (h refl)
  get_elem?-set_other (t ∷ ts) zero (suc j) v h = refl
  get_elem?-set_other (t ∷ ts) (suc i) zero v h = refl
  get_elem?-set_other (t ∷ ts) (suc i) (suc j) v h =
      get_elem?-set_other ts i j v (λ e. h (ap suc e))

  -- What a list with one more element holds.
  pub get_elem?-snoc :
      (xs : List A) (v : A) (i : ℕ) (x : A)
      → get_elem? (xs ++ (v ∷ [])) i ≡ some x
      → (get_elem? xs i ≡ some x) ⊎ ((i ≡ length xs) × (v ≡ x))
  get_elem?-snoc [] v zero x e = inr (refl, some_inj v x e)
  get_elem?-snoc [] v (suc i) x e = cc
  get_elem?-snoc (y ∷ ys) v zero x e = inl e
  get_elem?-snoc (y ∷ ys) v (suc i) x e = elim (get_elem?-snoc ys v i x e) [
    | inl h ↦ inl h
    | inr (h, k) ↦ inr (ap suc h, k)
  ]

  pub record Wraps (cap start : ℕ) (xs ts : List A) : Type 0 where
    pub storage : length ts ≡ cap
    pub starts : start < cap
    pub within : length xs ≤ cap
    pub held : (i : ℕ) (x : A) → get_elem? xs i ≡ some x → get_elem? ts ((start + i) % cap) ≡ some x

  module _ {cap start : ℕ} where
    -- The slot behind the list is free, and takes one more element.
    pub push-Wraps :
        (xs ts : List A) (v : A)
        → Wraps cap start xs ts
        → length xs < cap
        → Wraps cap start (xs ++ (v ∷ [])) (set ts ((start + length xs) % cap) v)
    push-Wraps xs ts v w room = record {
      storage = length-set ts ((start + length xs) % cap) v ∙ w.storage;
      starts = w.starts;
      within = omega (arith, length-append xs (v ∷ []));
      held = λ i x e. elim (get_elem?-snoc xs v i x e) [
        | inl h ↦
            get_elem?-set_other ts ((start + length xs) % cap) ((start + i) % cap) v
              (wrapped_ne cap start i (length xs) w.starts (lt-length_of_get xs i x h) room)
            ∙ w.held i x h
        | inr (h, k) ↦
            rw (h, k)
              (get_elem?-set_same ts ((start + length xs) % cap) x (
                subst (λ n. (start + length xs) % cap < n) (sym w.storage)
                  (mod-lt (start + length xs) (omega (arith, w.starts)))))
      ];
    }

    -- The first element leaves.
    pub pop-Wraps :
        (x : A) (xs ts : List A) → Wraps cap start (x ∷ xs) ts → Wraps cap ((start + 1) % cap) xs ts
    pop-Wraps x xs ts w = record {
      storage = w.storage;
      starts = mod-lt (start + 1) (omega (arith, w.starts));
      within = omega (arith, w.within);
      held = λ i y e. rw (wrapped_next cap start i) (w.held (suc i) y e);
    }
