-- ===== src/Json/Scan.antt =====
-- util/json.cpp: `IsJsonWhitespace`, `SkipWhitespace`, `SkipValue`, `FindValueStart`.
use cpp_trading_engine.Base.{
  ℕ, zero, suc, ◌+◌, ◌-◌, Bool, true, false, ◌&&◌, ◌||◌, Option, none, some, [], ◌∷◌, ◌++◌, ◌==◌,
  if◌then◌else◌, length, get_elem?, take, drop, Text,
}

-- `pos < text.size() && text[pos] == c`
abbrev pub is_at : Text → ℕ → ℕ → Bool
is_at text pos c = elim (get_elem? text pos) [ none ↦ false | some d ↦ d == c ]

-- `pos >= text.size() || text[pos] == c`
abbrev pub ends_at : Text → ℕ → ℕ → Bool
ends_at text pos c = elim (get_elem? text pos) [ none ↦ true | some d ↦ d == c ]

-- `text.substr(from, to - from)`
abbrev pub substr : Text → ℕ → ℕ → Text
substr text from to = take (to - from) (drop from text)

abbrev tab_char : ℕ
tab_char = 9

abbrev newline_char : ℕ
newline_char = 10

abbrev return_char : ℕ
return_char = 13

abbrev backslash : ℕ
backslash = 92

unfoldable pub is_json_whitespace : ℕ → Bool
is_json_whitespace c = c == b' ' || c == tab_char || c == newline_char || c == return_char

unfoldable pub skip_whitespace_from : Text → ℕ → ℕ
skip_whitespace_from [] pos = pos
skip_whitespace_from (c ∷ cs) pos =
    let rest = skip_whitespace_from cs (pos + 1) in if is_json_whitespace c then rest else pos

unfoldable pub skip_whitespace : Text → ℕ → ℕ
unfolding skip_whitespace_from is_json_whitespace
skip_whitespace text pos = skip_whitespace_from (drop pos text) pos

-- From behind the opening quote to behind the closing one. A backslash skips the next byte too, so
-- a text that ends in one leaves the position two past its end.
unfoldable pub skip_string_from : Text → ℕ → ℕ
skip_string_from [] pos = pos + 1
skip_string_from (c ∷ []) pos =
    if c == b'"' then pos + 1 else (if c == backslash then pos + 3 else pos + 2)
skip_string_from (c ∷ d ∷ cs) pos =
    let escaped = skip_string_from cs (pos + 2) in
    let plain = skip_string_from (d ∷ cs) (pos + 1) in
    if c == b'"' then pos + 1 else (if c == backslash then escaped else plain)

-- The loop over an object or array: `open` and `close` are counted, strings are passed over.
unfoldable pub skip_nested_from : ℕ → ℕ → ℕ → ℕ → Text → ℕ → ℕ
skip_nested_from open_char close depth skip [] pos = pos + skip
skip_nested_from open_char close depth (suc skip) (c ∷ cs) pos =
    skip_nested_from open_char close depth skip cs (pos + 1)
skip_nested_from open_char close depth zero (c ∷ cs) pos =
    let jump = if c == b'"' then skip_string_from cs (pos + 1) - (pos + 1) else 0 in
    let deeper =
      if c == b'"'
      then depth
      else (if c == open_char then depth + 1 else (if c == close then depth - 1 else depth)) in
    let rest = skip_nested_from open_char close deeper jump cs (pos + 1) in
    if depth == 0 then pos else rest

unfoldable pub is_delimiter : ℕ → Bool
is_delimiter c = c == b',' || c == b'}' || c == b']' || is_json_whitespace c

unfoldable pub skip_plain_from : Text → ℕ → ℕ
skip_plain_from [] pos = pos
skip_plain_from (c ∷ cs) pos =
    let rest = skip_plain_from cs (pos + 1) in if is_delimiter c then pos else rest

abbrev pub skip_value_at : Text → ℕ → ℕ
skip_value_at [] pos = pos
skip_value_at (c ∷ cs) pos =
    if c == b'"'
    then skip_string_from cs (pos + 1)
    else (if c == b'{'
        then skip_nested_from b'{' b'}' 1 0 cs (pos + 1)
        else (if c == b'['
            then skip_nested_from b'[' b']' 1 0 cs (pos + 1)
            else skip_plain_from (c ∷ cs) pos))

unfoldable pub skip_value : Text → ℕ → ℕ
unfolding skip_whitespace skip_string_from skip_nested_from skip_plain_from is_delimiter
skip_value json pos = let start = skip_whitespace json pos in skip_value_at (drop start json) start

unfoldable pub starts_with : Text → Text → Bool
starts_with [] text = true
starts_with (p ∷ ps) [] = false
starts_with (p ∷ ps) (c ∷ cs) = p == c && starts_with ps cs

-- The loop of `FindValueStart` over the places where the quoted key is found; a place not followed
-- by a colon is some string value, and the search goes on behind it.
unfoldable pub find_value_start_from : Text → Text → ℕ → Text → ℕ → Option ℕ
find_value_start_from json pattern_text skip [] pos = none
find_value_start_from json pattern_text (suc skip) (c ∷ cs) pos =
    find_value_start_from json pattern_text skip cs (pos + 1)
find_value_start_from json pattern_text zero (c ∷ cs) pos =
    let found = starts_with pattern_text (c ∷ cs) in
    let after_key = skip_whitespace json (pos + length pattern_text) in
    let rest =
      find_value_start_from json pattern_text (if found then length pattern_text - 1 else 0) cs
        (pos + 1) in
    if found && is_at json after_key b':' then some (skip_whitespace json (after_key + 1)) else rest

abbrev pub quoted : Text → Text
quoted key = b'"' ∷ (key ++ (b'"' ∷ []))

unfoldable pub find_value_start : Text → Text → Option ℕ
unfolding find_value_start_from starts_with skip_whitespace
find_value_start json key = find_value_start_from json (quoted key) 0 json 0

-- `json.find(c, from)`
unfoldable pub find_char_from : ℕ → Text → ℕ → Option ℕ
find_char_from c [] pos = none
find_char_from c (d ∷ ds) pos =
    let rest = find_char_from c ds (pos + 1) in if d == c then some pos else rest

abbrev pub find_char : Text → ℕ → ℕ → Option ℕ
find_char text c from = find_char_from c (drop from text) from
