-- ===== src/Json/Fields.antt =====
-- util/json.cpp: `FindString`, `FindNumber`, `FindElementAt`, `FindArrayElement`, `FindElement`,
-- `ParseLL`; okx/common/response_utils.cpp: `FindData`.
use cpp_trading_engine.Base.{
  ℕ, zero, suc, ◌+◌, ◌-◌, ◌*◌, ◌^◌, Bool, true, false, ◌&&◌, ◌||◌, Option, none, some, [], ◌∷◌, ltb,
  leb, ◌==◌, if◌then◌else◌, drop, Text, Result, ok, err, parse_failed,
}
use cpp_trading_engine.Base.Int.{ℤ}
use cpp_trading_engine.Constants.{data_key}
use cpp_trading_engine.Json.Scan.{
  is_at, ends_at, substr, skip_whitespace, skip_value, find_value_start, find_char, find_char_from,
}

abbrev pub bind_option : {A B : Type 0} → Option A → (A → Option B) → Option B
bind_option none f = none
bind_option (some a) f = f a

unfoldable pub find_string : Text → Text → Option Text
unfolding find_value_start find_char_from
find_string json key = bind_option (find_value_start json key) λ value_start.
    let content =
      bind_option (find_char json b'"' (value_start + 1))
        λ content_end. some (substr json (value_start + 1) content_end) in
    if is_at json value_start b'"' then content else none

abbrev is_digit : ℕ → Bool
is_digit c = leb b'0' c && leb c b'9'

abbrev is_number_char : ℕ → Bool
is_number_char c = is_digit c || c == b'-' || c == b'+' || c == b'.' || c == b'e' || c == b'E'

unfoldable pub skip_number_from : Text → ℕ → ℕ
skip_number_from [] pos = pos
skip_number_from (c ∷ cs) pos =
    let rest = skip_number_from cs (pos + 1) in if is_number_char c then rest else pos

unfoldable pub find_number : Text → Text → Option Text
unfolding find_value_start skip_number_from
find_number json key = bind_option (find_value_start json key) λ value_start.
    let end = skip_number_from (drop value_start json) value_start in
    if end == value_start then none else some (substr json value_start end)

-- Past one element and the comma behind it.
abbrev pub skip_element : Text → ℕ → ℕ
skip_element array pos =
    let after = skip_whitespace array (skip_value array pos) in
    if is_at array after b',' then after + 1 else after

unfoldable pub skip_elements : ℕ → Text → ℕ → Option ℕ
unfolding skip_whitespace skip_value
skip_elements zero array pos = some pos
skip_elements (suc index) array pos =
    let start = skip_whitespace array pos in
    let rest = skip_elements index array (skip_element array start) in
    if ends_at array start b']' then none else rest

unfoldable pub find_element_at : Text → ℕ → Option Text
unfolding skip_elements skip_whitespace skip_value
find_element_at array index = bind_option (skip_elements index array 1) λ pos.
    let start = skip_whitespace array pos in
    if ends_at array start b']' then none else some (substr array start (skip_value array start))

unfoldable pub find_array_element : Text → Text → ℕ → Option Text
unfolding find_value_start find_element_at
find_array_element json key index = bind_option (find_value_start json key) λ value_start.
    if is_at json value_start b'[' then find_element_at (drop value_start json) index else none

unfoldable pub find_element : Text → ℕ → Option Text
unfolding find_element_at
find_element json_array index =
    if is_at json_array 0 b'[' then find_element_at json_array index else none

-- The leading digits of a text, as a number, and how many there are.
unfoldable pub read_digits : Text → ℕ → ℕ → ℕ × ℕ
read_digits [] value digits = (value, digits)
read_digits (c ∷ cs) value digits =
    let rest = read_digits cs (value * 10 + (c - b'0')) (digits + 1) in
    if is_digit c then rest else (value, digits)

-- `std::from_chars` into a `long long`: a minus sign and digits, of which there must be some; what
-- follows them is ignored, and a value out of range is an error.
abbrev signed_in_range : Bool → ℕ × ℕ → Result ℤ
signed_in_range negative (value, digits) =
    if digits == 0
    then err parse_failed
    else (if negative
        then (if value == 0
            then ok (ℤ.pos 0)
            else (if leb value (2 ^ 63) then ok (ℤ.negsuc (value - 1)) else err parse_failed))
        else (if ltb value (2 ^ 63) then ok (ℤ.pos value) else err parse_failed))

unfoldable pub parse_ll : Text → Result ℤ
unfolding read_digits
parse_ll text =
    if is_at text 0 b'-'
    then signed_in_range true (read_digits (drop 1 text) 0 0)
    else signed_in_range false (read_digits text 0 0)

-- The first element of the field "data".
unfoldable pub find_data : Text → Option Text
unfolding find_array_element
find_data message = find_array_element message data_key 0
