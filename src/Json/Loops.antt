-- ===== src/Json/Loops.antt =====
-- util/json.cpp: the loops `ForEachElement`, `ForEachArrayElement` and `ForEachField`. The action may
-- change an object and throw, which ends the loop. A `while (true)` takes fuel: `out_of_fuel` is a
-- loop that has not ended.
use cpp_trading_engine.Base.{
  ℕ, zero, suc, ◌+◌, none, some, if◌then◌else◌, length, drop, Text, Result, ok, err, out_of_fuel,
}
use cpp_trading_engine.Base.Effects.{Effect, resume}
use cpp_trading_engine.Json.Scan.{
  is_at, ends_at, substr, skip_whitespace, skip_value, find_value_start, find_char, find_char_from,
}
use cpp_trading_engine.Json.Fields.{skip_element}

module _ {S : Type 0} where
  -- Called with `pos` behind the opening bracket.
  unfoldable pub for_each_element_from :
      ℕ → (Text → Effect S (Unit {0})) → Text → ℕ → Effect S (Unit {0})
  for_each_element_from zero action array pos state = (state, err out_of_fuel)
  for_each_element_from (suc fuel) action array pos state =
      let start = skip_whitespace array pos in
      let element = substr array start (skip_value array start) in
      let rest =
        resume (λ _. for_each_element_from fuel action array (skip_element array start))
          (action element state) in
      if ends_at array start b']' then (state, ok tt) else rest

  -- A round for every byte and one to spare.
  unfoldable pub for_each_element : (Text → Effect S (Unit {0})) → Text → Effect S (Unit {0})
  unfolding for_each_element_from skip_whitespace skip_value
  for_each_element action array = for_each_element_from (suc (length array)) action array 1

  unfoldable pub for_each_array_element :
      Text → Text → (Text → Effect S (Unit {0})) → Effect S (Unit {0})
  unfolding for_each_element find_value_start
  for_each_array_element json key action state = elim (find_value_start json key) [
    | none ↦ (state, ok tt)
    | some value_start ↦
        if is_at json value_start b'['
        then for_each_element action (drop value_start json) state
        else (state, ok tt)
  ]

  unfoldable pub for_each_field_from :
      ℕ → (Text → Text → Effect S (Unit {0})) → Text → ℕ → Effect S (Unit {0})
  for_each_field_from zero action json pos state = (state, err out_of_fuel)
  for_each_field_from (suc fuel) action json pos state =
      let key_quote = skip_whitespace json pos in
      let with_key : S × Result (Unit {0}) = elim (find_char json b'"' (key_quote + 1)) [
        | none ↦ (state, ok tt)
        | some key_end ↦
            let colon = skip_whitespace json (key_end + 1) in
            let value_start = skip_whitespace json (colon + 1) in
            let key = substr json (key_quote + 1) key_end in
            let value = substr json value_start (skip_value json value_start) in
            let rest =
              resume (λ _. for_each_field_from fuel action json (skip_element json value_start))
                (action key value state) in
            if is_at json colon b':' then rest else (state, ok tt)
      ] in
      if is_at json key_quote b'"' then with_key else (state, ok tt)

  unfoldable pub for_each_field : (Text → Text → Effect S (Unit {0})) → Text → Effect S (Unit {0})
  unfolding for_each_field_from skip_whitespace skip_value find_char_from
  for_each_field action json state =
      if is_at json 0 b'{'
      then for_each_field_from (suc (length json)) action json 1 state
      else (state, ok tt)
