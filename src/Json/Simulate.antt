-- ===== src/Json/Simulate.antt =====
-- A proof rule for two actions that the loops over an array run side by side on the same text.
use cpp_trading_engine.Base.{
  ℕ, zero, suc, Bool-cases, Option-cases, inl, inr, Text, Error, Result, ok, err, length, drop,
  out_of_fuel,
}
use cpp_trading_engine.Base.Effects.{Effect, resume}
use cpp_trading_engine.Json.Scan.{
  ends_at, substr, skip_whitespace, skip_value, is_at, find_value_start,
}
use cpp_trading_engine.Json.Fields.{skip_element}
use cpp_trading_engine.Json.Loops.{for_each_element_from, for_each_element, for_each_array_element}

-- Where the first of two calls returns, so does the second, and `R` holds; where the first throws,
-- `E` holds of its object, its exception and whatever the second has done.
abbrev pub Joint :
    {S T A B : Type 0}
    → (S → T → Type 0)
    → (S → Error → T × Result B → Type 0)
    → S × Result A
    → T × Result B
    → Type 0
Joint R E (s, ok a) (t, ok b) = R s t
Joint R E (s, ok a) (t, err e) = ⊥
Joint R E (s, err e) m = E s e m

module _ {S T : Type 0} (R : S → T → Type 0) (E : S → Error → T × Result (Unit {0}) → Type 0)
    (cut : (s : S) (t : T) → R s t → E s out_of_fuel (t, err out_of_fuel))
    (goes_on : (s : S) (e : Error) (m : T × Result (Unit {0})) (f : Unit {0} → Effect T (Unit {0}))
      → E s e m
      → E s e (resume f m))
    (action : Text → Effect S (Unit {0})) (other : Text → Effect T (Unit {0}))
    (step : (x : Text) (s : S) (t : T) → R s t → Joint R E (action x s) (other x t)) where
  resume-Joint :
      (f : Unit {0} → Effect S (Unit {0})) (g : Unit {0} → Effect T (Unit {0}))
      (m : S × Result (Unit {0})) (n : T × Result (Unit {0}))
      → Joint R E m n
      → ((s : S) (t : T) → R s t → Joint R E (f tt s) (g tt t))
      → Joint R E (resume f m) (resume g n)
  resume-Joint f g (s, ok a) (t, ok b) h k = k s t h
  resume-Joint f g (s, ok a) (t, err e) h k = absurd h
  resume-Joint f g (s, err e) n h k = goes_on s e n g h

  for_each_element_from-Joint :
      (fuel : ℕ) (array : Text) (at : ℕ) (s : S) (t : T)
      → R s t
      → Joint R E
          (for_each_element_from fuel action array at s)
          (for_each_element_from fuel other array at t)
  unfolding for_each_element_from
  for_each_element_from-Joint zero array at s t h = cut s t h
  for_each_element_from-Joint (suc fuel) array at s t h =
      let start = skip_whitespace array at in
      let x = substr array start (skip_value array start) in
      let next = skip_element array start in
      elim (Bool-cases (ends_at array start b']')) [
        | inl e ↦ rw e h
        | inr e ↦ rw e (
            resume-Joint (λ _. for_each_element_from fuel action array next)
              (λ _. for_each_element_from fuel other array next) (action x s) (other x t)
              (step x s t h) (λ u v k. for_each_element_from-Joint fuel array next u v k))
      ]

  pub for_each_element-Joint :
      (array : Text) (s : S) (t : T)
      → R s t
      → Joint R E (for_each_element action array s) (for_each_element other array t)
  unfolding for_each_element
  for_each_element-Joint array s t h =
      for_each_element_from-Joint (suc (length array)) array 1 s t h

  pub for_each_array_element-Joint :
      (json key : Text) (s : S) (t : T)
      → R s t
      → Joint R E
          (for_each_array_element json key action s)
          (for_each_array_element json key other t)
  unfolding for_each_array_element
  for_each_array_element-Joint json key s t h = elim (Option-cases (find_value_start json key)) [
    | inl e ↦ rw (e, for_each_array_element) h
    | inr (i, e) ↦ elim (Bool-cases (is_at json i b'[')) [
      | inl b ↦ rw (e, for_each_array_element, b) (for_each_element-Joint (drop i json) s t h)
      | inr b ↦ rw (e, for_each_array_element, b) h
    ]
  ]
