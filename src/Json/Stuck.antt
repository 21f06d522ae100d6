-- ===== src/Json/Stuck.antt =====
-- The loops over the elements of an array: they come to their end, or they never do, and which of the
-- two is a matter of the text. A round that finds a closing brace where an element should start does
-- not advance.
use cpp_trading_engine.Base.{
  ℕ, zero, suc, ◌+◌, ◌≡◌, ◌≤◌, ◌<◌, ◌⊎◌, refl, ◌∙◌, ap, true, false, Bool-cases, Option-cases, some,
  inl, inr, length, get_elem?, Text, Error, Result, ok, err, drop_get, out_of_fuel, ◌==◌, arith,
}
use cpp_trading_engine.Base.Effects.{Effect, resume}
use cpp_trading_engine.Json.Scan.{
  is_at, substr, skip_whitespace, skip_whitespace_from, skip_value, skip_plain_from,
  is_json_whitespace, is_delimiter, ends_at,
}
use cpp_trading_engine.Json.Fields.{skip_element}
use cpp_trading_engine.Json.Loops.{for_each_element_from, for_each_element}
use cpp_trading_engine.Json.Bounds.{Ends, skip_whitespace-le, get_elem?-lt}
use cpp_trading_engine.Json.Rounds.{round-lt}

-- From this position on, a round comes to a closing brace where an element should start.
pub data Stuck (array : Text) : ℕ → Type 0 where
  here : {at : ℕ} → is_at array (skip_whitespace array at) b'}' ≡ true → Stuck array at
  later :
      {at : ℕ}
      → ends_at array (skip_whitespace array at) b']' ≡ false
      → Stuck array (skip_element array (skip_whitespace array at))
      → Stuck array at

ends_at_get :
    (text : Text) (i c : ℕ)
    → ends_at text i c ≡ false
    → (x : ℕ) × (get_elem? text i ≡ some x) × ((x == c) ≡ false)
ends_at_get text i c h = elim (Option-cases (get_elem? text i)) [
  | inl e ↦ absurd (cc (rw (e, ends_at) at h))
  | inr (x, e) ↦ (x, e, rw (e, ends_at) at h)
]

module _ {S : Type 0} (action : Text → Effect S (Unit {0})) where
  round_or_stuck :
      (array : Text) (at : ℕ)
      → ends_at array (skip_whitespace array at) b']' ≡ false
      → (is_at array (skip_whitespace array at) b'}' ≡ true)
        ⊎ (at < skip_element array (skip_whitespace array at))
  round_or_stuck array at h =
      let start = skip_whitespace array at in
      let (x, e, n) = ends_at_get array start b']' h in
      elim (Bool-cases (is_at array start b'}')) [
        | inl b ↦ inl b
        | inr b ↦ inr (
            omega
              (arith, skip_whitespace-le array at, round-lt array start x e n (rw (e, is_at) at b)))
      ]

  for_each_element_from-Ends :
      ((x : Text) (s : S) → Ends (action x s))
      → (fuel : ℕ) (array : Text) (at : ℕ) (s : S) → 1 ≤ fuel
      → length array < at + fuel
      → Ends (for_each_element_from fuel action array at s) ⊎ Stuck array at
  unfolding for_each_element_from
  for_each_element_from-Ends returns zero array at s h k = absurd (omega arith)
  for_each_element_from-Ends returns (suc fuel) array at s h k =
      let start = skip_whitespace array at in
      let a = skip_whitespace-le array at in
      elim (Bool-cases (ends_at array start b']')) [
        | inl e ↦ rw e (inl (λ p. cc))
        | inr e ↦ elim (round_or_stuck array at e) [
          | inl b ↦ inr (here b)
          | inr b ↦
              let (x, g, n) = ends_at_get array start b']' e in
              let l = get_elem?-lt array start x g in
              let element = substr array start (skip_value array start) in
              rw e (
                or_later fuel at
                  (λ t.
                    for_each_element_from-Ends returns fuel array (skip_element array start) t
                      (omega arith) (omega arith))
                  (action element s) (returns element s) e)
        ]
      ]
    where
      or_later :
          (fuel at : ℕ) {array : Text}
          → ((t : S)
              → Ends (
                  for_each_element_from fuel action array
                    (skip_element array (skip_whitespace array at))
                    t)
                ⊎ Stuck array (skip_element array (skip_whitespace array at)))
          → (m : S × Result (Unit {0})) → Ends m
          → ends_at array (skip_whitespace array at) b']' ≡ false
          → Ends (
              resume
                (λ _.
                  for_each_element_from fuel action array
                    (skip_element array (skip_whitespace array at)))
                m)
            ⊎ Stuck array at
      or_later fuel at rest (t, err x) r e = inl r
      or_later fuel at rest (t, ok done) r e = elim (rest t) [
        | inl h ↦ inl h
        | inr k ↦ inr (later e k)
      ]

  -- The loop over the elements of any text comes to its end, provided that the action does, unless a
  -- round comes to a closing brace where an element should start.
  pub for_each_element-Ends :
      ((x : Text) (s : S) → Ends (action x s))
      → (array : Text) (s : S) → Ends (for_each_element action array s) ⊎ Stuck array 1
  unfolding for_each_element
  for_each_element-Ends returns array s =
      for_each_element_from-Ends returns (suc (length array)) array 1 s (omega arith) (omega arith)

is_at_get : (text : Text) (i c : ℕ) → is_at text i c ≡ true → get_elem? text i ≡ some c
is_at_get text i c h = elim (Option-cases (get_elem? text i)) [
  | inl e ↦ absurd (cc (rw (e, is_at) at h))
  | inr (x, e) ↦
      let k : (x == c) ≡ true = rw (e, is_at) at h in let q : x ≡ c = ground arith in e ∙ ap some q
]

brace_whitespace :
    (array : Text) (p : ℕ) → get_elem? array p ≡ some b'}' → skip_whitespace array p ≡ p
unfolding skip_whitespace skip_whitespace_from is_json_whitespace
brace_whitespace array p h = rw (drop_get array p b'}' h) refl

brace_value : (array : Text) (p : ℕ) → get_elem? array p ≡ some b'}' → skip_value array p ≡ p
unfolding skip_value skip_plain_from is_delimiter
brace_value array p h = rw (brace_whitespace array p h, drop_get array p b'}' h) refl

brace_element : (array : Text) (p : ℕ) → get_elem? array p ≡ some b'}' → skip_element array p ≡ p
brace_element array p h = rw (brace_value array p h, brace_whitespace array p h, is_at, h) refl

module _ {S : Type 0} (action : Text → Effect S (Unit {0})) where
  -- The rounds are used up, or the action has thrown.
  abbrev pub Unended : S × Result (Unit {0}) → Type 0
  Unended m =
      (m.1 ≡ err out_of_fuel)
      ⊎ ((x : Text) × (t : S) × (e : Error) × ((action x t).1 ≡ err e) × (m.1 ≡ err e))

  resume-Unended :
      (f : S → S × Result (Unit {0})) (x : Text) (t : S) (m : S × Result (Unit {0}))
      → action x t ≡ m
      → ((s : S) → Unended (f s))
      → Unended (resume (λ _. f) m)
  resume-Unended f x t (s, ok done) h k = k s
  resume-Unended f x t (s, err e) h k =
      inr (x, t, e, ap (λ (m : S × Result (Unit {0})). m.1) h, refl)

  -- A loop over the elements that comes to a closing brace where an element should start does not
  -- come to its end: however many rounds it is given, it uses them all up, unless the action throws
  -- on an element that it is called with.
  pub Stuck-out_of_fuel :
      (fuel : ℕ) (array : Text) (at : ℕ) (s : S)
      → Stuck array at
      → Unended (for_each_element_from fuel action array at s)
  unfolding for_each_element_from
  Stuck-out_of_fuel zero array at s h = inl refl
  Stuck-out_of_fuel (suc fuel) array at s (here b) =
      let start = skip_whitespace array at in
      let x = substr array start (skip_value array start) in
      let g = is_at_get array start b'}' b in
      let w = brace_whitespace array start g in
      let again : Stuck array start = here (rw (w, is_at, g) refl) in
      rw (ends_at, g, brace_element array start g)
        (resume-Unended (λ t. for_each_element_from fuel action array start t) x s (action x s) refl
          (λ t. Stuck-out_of_fuel fuel array start t again))
  Stuck-out_of_fuel (suc fuel) array at s (later e k) =
      let start = skip_whitespace array at in
      let x = substr array start (skip_value array start) in
      rw e (
        resume-Unended (λ t. for_each_element_from fuel action array (skip_element array start) t) x
          s (action x s) refl (λ t. Stuck-out_of_fuel fuel array (skip_element array start) t k))
