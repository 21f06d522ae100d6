-- ===== src/Json/Bounds.antt =====
-- The fuel of `ForEachField` is enough: each round passes at least the quote of a key.
use cpp_trading_engine.Base.{
  ℕ, zero, suc, ◌+◌, ◌-◌, ◌≡◌, ◌≢◌, ◌≤◌, ◌<◌, true, Bool-cases, Option-cases, some, inl, inr, [],
  ◌∷◌, if◌then◌else◌, length, drop, get_elem?, Text, Result, ok, err, out_of_fuel, ◌==◌, arith,
  some_inj,
}
use cpp_trading_engine.Base.Effects.{Effect, resume}
use cpp_trading_engine.Json.Scan.{
  is_at, substr, skip_whitespace, skip_whitespace_from, skip_value, skip_value_at, skip_string_from,
  skip_nested_from, skip_plain_from, find_char, find_char_from, is_json_whitespace, is_delimiter,
}
use cpp_trading_engine.Json.Fields.{skip_element}
use cpp_trading_engine.Json.Loops.{for_each_field_from, for_each_field}

pub skip_whitespace_from-le : (text : Text) (at : ℕ) → at ≤ skip_whitespace_from text at
unfolding skip_whitespace_from
skip_whitespace_from-le [] at = omega arith
skip_whitespace_from-le (c ∷ cs) at =
    let h = skip_whitespace_from-le cs (at + 1) in
    elim (Bool-cases (is_json_whitespace c)) [
      | inl e ↦ rw e (omega arith)
      | inr e ↦ rw e (omega arith)
    ]

pub skip_whitespace-le : (text : Text) (at : ℕ) → at ≤ skip_whitespace text at
unfolding skip_whitespace
skip_whitespace-le text at = skip_whitespace_from-le (drop at text) at

pub skip_string_from-le : (text : Text) (at : ℕ) → at ≤ skip_string_from text at
unfolding skip_string_from
skip_string_from-le [] at = omega arith
skip_string_from-le (c ∷ []) at = ground arith
skip_string_from-le (c ∷ d ∷ cs) at =
    let h = skip_string_from-le cs (at + 2) in
    let k = skip_string_from-le (d ∷ cs) (at + 1) in ground arith

pub skip_nested_from-le :
    (open_char close depth skip : ℕ) (text : Text) (at : ℕ)
    → at ≤ skip_nested_from open_char close depth skip text at
unfolding skip_nested_from
skip_nested_from-le o c depth skip [] at = omega arith
skip_nested_from-le o c depth (suc skip) (x ∷ xs) at =
    let h = skip_nested_from-le o c depth skip xs (at + 1) in omega arith
skip_nested_from-le o c depth zero (x ∷ xs) at = elim (Bool-cases (depth == 0)) [
  | inl e ↦ rw e (omega arith)
  | inr e ↦ rw e (
      omega (
        arith,
        skip_nested_from-le o c
            (if x == b'"'
              then depth
              else (if x == o then depth + 1 else (if x == c then depth - 1 else depth)))
            (if x == b'"' then skip_string_from xs (at + 1) - (at + 1) else 0) xs (at + 1),
      ))
]

pub skip_plain_from-le : (text : Text) (at : ℕ) → at ≤ skip_plain_from text at
unfolding skip_plain_from
skip_plain_from-le [] at = omega arith
skip_plain_from-le (c ∷ cs) at =
    let h = skip_plain_from-le cs (at + 1) in
    elim (Bool-cases (is_delimiter c)) [ inl e ↦ rw e (omega arith) | inr e ↦ rw e (omega arith) ]

pub skip_value_at-le : (text : Text) (at : ℕ) → at ≤ skip_value_at text at
skip_value_at-le [] at = omega arith
skip_value_at-le (c ∷ cs) at =
    let h = skip_string_from-le cs (at + 1) in
    let k = skip_nested_from-le b'{' b'}' 1 0 cs (at + 1) in
    let l = skip_nested_from-le b'[' b']' 1 0 cs (at + 1) in
    let m = skip_plain_from-le (c ∷ cs) at in
    elim (Bool-cases (c == b'"')) [
      | inl e ↦ rw e (omega arith)
      | inr e ↦ elim (Bool-cases (c == b'{')) [
        | inl f ↦ rw (e, f) (omega arith)
        | inr f ↦ elim (Bool-cases (c == b'[')) [
          | inl g ↦ rw (e, f, g) (omega arith)
          | inr g ↦ rw (e, f, g) m
        ]
      ]
    ]

pub skip_value-le : (text : Text) (at : ℕ) → at ≤ skip_value text at
unfolding skip_value
skip_value-le text at =
    let start = skip_whitespace text at in
    omega (arith, skip_whitespace-le text at, skip_value_at-le (drop start text) start)

pub skip_element-le : (text : Text) (at : ℕ) → at ≤ skip_element text at
skip_element-le text at =
    let v = skip_value text at in
    let after = skip_whitespace text v in
    let h = skip_value-le text at in
    let k = skip_whitespace-le text v in
    elim (Bool-cases (is_at text after b',')) [
      | inl e ↦ rw e (omega arith)
      | inr e ↦ rw e (omega arith)
    ]

pub get_elem?-lt : (text : Text) (i : ℕ) (c : ℕ) → get_elem? text i ≡ some c → i < length text
get_elem?-lt [] i c h = cc
get_elem?-lt (x ∷ xs) zero c h = omega arith
get_elem?-lt (x ∷ xs) (suc i) c h = let k = get_elem?-lt xs i c h in omega arith

pub is_at-lt : (text : Text) (i c : ℕ) → is_at text i c ≡ true → i < length text
is_at-lt text i c h = elim (Option-cases (get_elem? text i)) [
  | inl e ↦ absurd (cc (rw (e, is_at) at h))
  | inr (x, e) ↦ get_elem?-lt text i x e
]

find_char_from-le :
    (c : ℕ) (text : Text) (at found : ℕ) → find_char_from c text at ≡ some found → at ≤ found
unfolding find_char_from
find_char_from-le c [] at found h = cc
find_char_from-le c (d ∷ ds) at found h = elim (Bool-cases (d == c)) [
  | inl e ↦ let k = some_inj at found (rw e at h) in omega arith
  | inr e ↦ let k = find_char_from-le c ds (at + 1) found (rw e at h) in omega arith
]

-- The loop did not run out of fuel.
abbrev pub Ends : {S A : Type 0} → S × Result A → Type 0
Ends m = m.1 ≢ err out_of_fuel

pub resume-Ends :
    {S A B : Type 0} (f : A → Effect S B) (m : S × Result A)
    → Ends m
    → ((s : S) (a : A) → Ends (f a s))
    → Ends (resume f m)
resume-Ends f (s, ok a) h k = k s a
resume-Ends f (s, err e) h k = λ p. h (cc)

module _ {S : Type 0} (action : Text → Text → Effect S (Unit {0}))
    (returns : (key value : Text) (s : S) → Ends (action key value s)) where
  for_each_field_from-Ends :
      (fuel : ℕ) (json : Text) (at : ℕ) (s : S)
      → 1 ≤ fuel
      → length json < at + fuel
      → Ends (for_each_field_from fuel action json at s)
  unfolding for_each_field_from
  for_each_field_from-Ends zero json at s h k = absurd (omega arith)
  for_each_field_from-Ends (suc fuel) json at s h k =
      let quote = skip_whitespace json at in
      let a = skip_whitespace-le json at in
      elim (Bool-cases (is_at json quote b'"')) [
        | inr e ↦ rw e (λ p. cc)
        | inl e ↦
            let b = is_at-lt json quote b'"' e in
            elim (Option-cases (find_char json b'"' (quote + 1))) [
              | inl f ↦ rw (e, f) (λ p. cc)
              | inr (key_end, f) ↦
                  let colon = skip_whitespace json (key_end + 1) in
                  let start = skip_whitespace json (colon + 1) in
                  let key = substr json (quote + 1) key_end in
                  let value = substr json start (skip_value json start) in
                  let c = find_char_from-le b'"' (drop (quote + 1) json) (quote + 1) key_end f in
                  let i = skip_whitespace-le json (key_end + 1) in
                  let j = skip_whitespace-le json (colon + 1) in
                  let l = skip_element-le json start in
                  elim (Bool-cases (is_at json colon b':')) [
                    | inr g ↦ rw (e, f, g) (λ p. cc)
                    | inl g ↦
                        rw (e, f, g)
                          (resume-Ends
                            (λ _. for_each_field_from fuel action json (skip_element json start))
                            (action key value s) (returns key value s)
                            (λ t _.
                              for_each_field_from-Ends fuel json (skip_element json start) t
                                (omega arith) (omega arith)))
                  ]
            ]
      ]

  -- The loop over the fields of any text comes to its end, whatever the action does, provided that
  -- the action itself does.
  pub for_each_field-Ends : (json : Text) (s : S) → Ends (for_each_field action json s)
  unfolding for_each_field
  for_each_field-Ends json s = elim (Bool-cases (is_at json 0 b'{')) [
    | inl e ↦
        rw e (for_each_field_from-Ends (suc (length json)) json 1 s (omega arith) (omega arith))
    | inr e ↦ rw e (λ p. cc)
  ]
