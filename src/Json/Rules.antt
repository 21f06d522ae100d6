-- ===== src/Json/Rules.antt =====
-- Proof rules for the loops over arrays: what the action keeps, the loop keeps.
use cpp_trading_engine.Base.{
  ℕ, zero, suc, Bool-cases, Option-cases, inl, inr, Text, Result, ok, err, length, drop,
}
use cpp_trading_engine.Base.Effects.{Effect, resume}
use cpp_trading_engine.Base.Keeps.{Keeps}
use cpp_trading_engine.Json.Scan.{
  ends_at, substr, skip_whitespace, skip_value, is_at, find_value_start,
}
use cpp_trading_engine.Json.Fields.{skip_element}
use cpp_trading_engine.Json.Loops.{for_each_element_from, for_each_element, for_each_array_element}

-- `P` of the object where the code has returned, `Q` where it has thrown.
abbrev pub Outcome : {S A : Type 0} → (S → Type 0) → (S → Type 0) → S × Result A → Type 0
Outcome P Q (s, ok a) = P s
Outcome P Q (s, err e) = Q s

pub resume-Outcome :
    {S A B : Type 0} (P Q R : S → Type 0) (f : A → Effect S B) (m : S × Result A)
    → Outcome P Q m
    → ((s : S) (a : A) → P s → Outcome R Q (f a s))
    → Outcome R Q (resume f m)
resume-Outcome P Q R f (s, ok a) h k = k s a h
resume-Outcome P Q R f (s, err e) h k = h

module _ {S : Type 0} (P Q : S → Type 0) (weaken : (s : S) → P s → Q s)
    (action : Text → Effect S (Unit {0}))
    (keeps : (x : Text) (s : S) → P s → Outcome P Q (action x s)) where
  for_each_element_from-Outcome :
      (fuel : ℕ) (array : Text) (at : ℕ) (s : S)
      → P s
      → Outcome P Q (for_each_element_from fuel action array at s)
  unfolding for_each_element_from
  for_each_element_from-Outcome zero array at s h = weaken s h
  for_each_element_from-Outcome (suc fuel) array at s h =
      let start = skip_whitespace array at in
      elim (Bool-cases (ends_at array start b']')) [
        | inl e ↦ rw e h
        | inr e ↦ rw e (
            resume-Outcome P Q P
              (λ _. for_each_element_from fuel action array (skip_element array start))
              (action (substr array start (skip_value array start)) s)
              (keeps (substr array start (skip_value array start)) s h)
              (λ t _. for_each_element_from-Outcome fuel array (skip_element array start) t))
      ]

  pub for_each_array_element-Outcome :
      (json key : Text) (s : S) → P s → Outcome P Q (for_each_array_element json key action s)
  unfolding for_each_array_element for_each_element
  for_each_array_element-Outcome json key s h = elim (Option-cases (find_value_start json key)) [
    | inl e ↦ rw (e, for_each_array_element) h
    | inr (i, e) ↦ elim (Bool-cases (is_at json i b'[')) [
      | inl b ↦
          rw (e, for_each_array_element, b)
            (for_each_element_from-Outcome (suc (length (drop i json))) (drop i json) 1 s h)
      | inr b ↦ rw (e, for_each_array_element, b) h
    ]
  ]

-- What the action keeps, returning or throwing, the loop keeps.
pub for_each_array_element-Keeps :
    {S : Type 0} {P : S → Type 0} (action : Text → Effect S (Unit {0})) (json key : Text)
    → ((x : Text) → Keeps P (action x))
    → Keeps P (for_each_array_element json key action)
for_each_array_element-Keeps {S} {P} action json key h = record {
  keeps = λ s p. after _ (
      for_each_array_element-Outcome P P (λ t q. q) action
        (λ x t q. before (action x t) ((h x).keeps t q)) json key s p);
}
  where
    before : (r : S × Result (Unit {0})) → P r.0 → Outcome P P r
    before (t, ok a) q = q
    before (t, err e) q = q

    after : (r : S × Result (Unit {0})) → Outcome P P r → P r.0
    after (t, ok a) q = q
    after (t, err e) q = q
