-- ===== src/Json/Rounds.antt =====
-- One round of a loop over the elements of an array, and where it advances.
use cpp_trading_engine.Base.{
  ℕ, ◌+◌, ◌≡◌, ◌≤◌, ◌<◌, refl, true, false, Bool-cases, some, inl, inr, ◌∷◌, drop, get_elem?, Text,
  drop_get, ◌==◌, arith,
}
use cpp_trading_engine.Json.Scan.{
  is_at, skip_whitespace, skip_whitespace_from, skip_value, skip_value_at, skip_plain_from,
  is_json_whitespace, is_delimiter,
}
use cpp_trading_engine.Json.Fields.{skip_element}
use cpp_trading_engine.Json.Bounds.{
  skip_whitespace-le, skip_whitespace_from-le, skip_string_from-le, skip_nested_from-le,
  skip_plain_from-le, skip_value_at-le, skip_value-le,
}

-- A byte that ends no plain value is passed over.
skip_value_at-lt :
    (c : ℕ) (cs : Text) (at : ℕ) → is_delimiter c ≡ false → at < skip_value_at (c ∷ cs) at
unfolding skip_plain_from
skip_value_at-lt c cs at h =
    let a = skip_string_from-le cs (at + 1) in
    let k = skip_nested_from-le b'{' b'}' 1 0 cs (at + 1) in
    let l = skip_nested_from-le b'[' b']' 1 0 cs (at + 1) in
    let m = skip_plain_from-le cs (at + 1) in
    elim (Bool-cases (c == b'"')) [
      | inl e ↦ rw e (omega arith)
      | inr e ↦ elim (Bool-cases (c == b'{')) [
        | inl f ↦ rw (e, f) (omega arith)
        | inr f ↦ elim (Bool-cases (c == b'[')) [
          | inl g ↦ rw (e, f, g) (omega arith)
          | inr g ↦ rw (e, f, g, h) (omega arith)
        ]
      ]
    ]

whitespace-lt :
    (c : ℕ) (cs : Text) (at : ℕ)
    → is_json_whitespace c ≡ true
    → at < skip_whitespace_from (c ∷ cs) at
unfolding skip_whitespace_from
whitespace-lt c cs at h = let a = skip_whitespace_from-le cs (at + 1) in rw h (omega arith)

whitespace-eq :
    (c : ℕ) (cs : Text) (at : ℕ)
    → is_json_whitespace c ≡ false
    → skip_whitespace_from (c ∷ cs) at ≡ at
unfolding skip_whitespace_from
whitespace-eq c cs at h = rw h refl

module _ (array : Text) (at c : ℕ) (e : get_elem? array at ≡ some c) where
  -- A round at a byte that is no delimiter.
  plain_round : is_delimiter c ≡ false → at < skip_element array at
  unfolding skip_value skip_whitespace is_delimiter
  plain_round h =
      let cs = drop (at + 1) array in
      let d = drop_get array at c e in
      let w : is_json_whitespace c ≡ false = ground arith in
      let same : skip_whitespace array at ≡ at = rw d (whitespace-eq c cs at w) in
      let v = skip_value array at in
      let lower : at < v = rw (same, d) (skip_value_at-lt c cs at h) in
      let k = skip_whitespace-le array v in
      elim (Bool-cases (is_at array (skip_whitespace array v) b',')) [
        | inl b ↦ rw b (omega arith)
        | inr b ↦ rw b (omega arith)
      ]

  whitespace_value-lt : is_json_whitespace c ≡ true → at < skip_value array at
  unfolding skip_value skip_whitespace
  whitespace_value-lt h =
      let cs = drop (at + 1) array in
      let start = skip_whitespace array at in
      let a : at < start = rw (drop_get array at c e) (whitespace-lt c cs at h) in
      omega (arith, a, skip_value_at-le (drop start array) start)

  -- A round at a space: the value is looked for behind it.
  whitespace_round : is_json_whitespace c ≡ true → at < skip_element array at
  whitespace_round h =
      let v = skip_value array at in
      let lower = whitespace_value-lt h in
      let k = skip_whitespace-le array v in
      elim (Bool-cases (is_at array (skip_whitespace array v) b',')) [
        | inl b ↦ rw b (omega arith)
        | inr b ↦ rw b (omega arith)
      ]

  -- A round at a comma: an empty value, and the comma.
  comma_round : c ≡ b',' → at < skip_element array at
  comma_round h =
      let v = skip_value array at in
      let after = skip_whitespace array v in
      let k = skip_value-le array at in
      let l = skip_whitespace-le array v in
      elim (Bool-cases (is_at array after b',')) [
        | inl b ↦ rw b (omega arith)
        | inr b ↦ rw b (after_comma b (omega arith))
      ]
    where
      after_comma :
          is_at array (skip_whitespace array (skip_value array at)) b',' ≡ false
          → at ≤ skip_whitespace array (skip_value array at)
          → at < skip_whitespace array (skip_value array at)
      after_comma b l = elim (Bool-cases (skip_whitespace array (skip_value array at) == at)) [
        | inr n ↦ ground arith
        | inl n ↦
            let q : skip_whitespace array (skip_value array at) ≡ at = ground arith in
            absurd (cc (rw (q, is_at, e, h) at b))
      ]

  -- Every round advances but one at a closing bracket or brace.
  pub round-lt : (c == b']') ≡ false → (c == b'}') ≡ false → at < skip_element array at
  unfolding is_delimiter
  round-lt h k = elim (Bool-cases (is_json_whitespace c)) [
    | inl w ↦ whitespace_round w
    | inr w ↦ elim (Bool-cases (c == b',')) [
      | inl m ↦ comma_round (ground arith)
      | inr m ↦ plain_round (ground arith)
    ]
  ]
