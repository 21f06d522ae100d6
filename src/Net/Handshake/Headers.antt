-- ===== src/Net/Handshake/Headers.antt =====
-- net/websocket_handshake.cpp: the passes of the search for a header.
use cpp_trading_engine.Base.{
  ℕ, zero, suc, ◌+◌, ◌≡◌, ◌≢◌, ◌<◌, ◌⊎◌, refl, true, false, Bool-cases, Option, none, some, List,
  [], ◌∷◌, ◌++◌, length, take, drop, length-drop, Text, Result, subst, ok, ok_inj, arith, inl, inr,
}
use cpp_trading_engine.Json.Scan.{starts_with}
use cpp_trading_engine.Net.Handshake.{
  cr_lf, header_terminator, contains_text, find_text, read_handshake_response, header_value,
  or_later, of_line, find_header_from, find_header,
}

abbrev HasEnd : Text → Type 0
HasEnd text = contains_text header_terminator text ≡ true

-- The headers end with the line that comes next, or later.
abbrev ComesToEnd : Text → Type 0
ComesToEnd text = (starts_with cr_lf text ≡ true) ⊎ HasEnd text

starts_with_end :
    (text : Text)
    → starts_with header_terminator text ≡ true
    → starts_with cr_lf (drop 2 text) ≡ true
unfolding starts_with
starts_with_end [] h = cc
starts_with_end (a ∷ []) h = ground arith
starts_with_end (a ∷ b ∷ []) h = ground arith
starts_with_end (a ∷ b ∷ c ∷ []) h = ground arith
starts_with_end (a ∷ b ∷ c ∷ e ∷ text) h = ground arith

end_starts_with :
    (text : Text) → starts_with header_terminator text ≡ true → starts_with cr_lf text ≡ true
unfolding starts_with
end_starts_with [] h = cc
end_starts_with (a ∷ []) h = ground arith
end_starts_with (a ∷ b ∷ []) h = ground arith
end_starts_with (a ∷ b ∷ c ∷ []) h = ground arith
end_starts_with (a ∷ b ∷ c ∷ e ∷ text) h = ground arith

-- Behind an end of line the end is still to come.
behind_line : (text : Text) → starts_with cr_lf text ≡ true → HasEnd text → ComesToEnd (drop 2 text)
unfolding starts_with contains_text
behind_line [] s h = cc
behind_line (a ∷ []) s h = ground arith
behind_line (a ∷ b ∷ text) s h = elim (Bool-cases (starts_with header_terminator (a ∷ b ∷ text))) [
  | inl e ↦ inl (starts_with_end (a ∷ b ∷ text) e)
  | inr e ↦ inr (ground arith)
]

-- There is an end of line, and the end of the headers is behind it.
record NextLine (text : Text) : Type 0 where
  ends_at : ℕ
  found : find_text cr_lf text ≡ some ends_at
  behind : ComesToEnd (drop (ends_at + 2) text)

find_text-here :
    (c : ℕ) (text : Text)
    → starts_with cr_lf (c ∷ text) ≡ true
    → find_text cr_lf (c ∷ text) ≡ some 0
unfolding find_text
find_text-here c text e = rw e refl

one_byte_on :
    (c : ℕ) (text : Text)
    → starts_with cr_lf (c ∷ text) ≡ false
    → NextLine text
    → NextLine (c ∷ text)
unfolding find_text
one_byte_on c text e line = record {
  ends_at = suc line.ends_at;
  found = rw (e, line.found) refl;
  behind = subst (λ n. ComesToEnd (drop n (c ∷ text))) (sum line.ends_at) line.behind;
}
  where
    sum : (k : ℕ) → suc (k + 2) ≡ suc k + 2
    sum k = omega arith

next_line : (text : Text) → HasEnd text → NextLine text
unfolding contains_text
next_line [] h = cc
next_line (c ∷ text) h = elim (Bool-cases (starts_with cr_lf (c ∷ text))) [
  | inl e ↦ record {
    ends_at = 0;
    found = find_text-here c text e;
    behind = behind_line (c ∷ text) e h;
  }
  | inr e ↦
      let not_here : starts_with header_terminator (c ∷ text) ≢ true =
        λ f. absurd (cc (e, end_starts_with (c ∷ text) f)) in
      one_byte_on c text e (next_line text (ground arith))
]

abbrev Found : Result (Option Text) → Type 0
Found r = (value : Option Text) × (r ≡ ok value)

of_line-Found :
    (name line : Text) (later : Result (Option Text))
    → Found later
    → Found (of_line name line later)
of_line-Found name [] later h = (none, refl)
of_line-Found name (c ∷ line) later h = or_later-Found (header_value name (c ∷ line))
  where
    or_later-Found : (v : Option Text) → Found (or_later v later)
    or_later-Found none = h
    or_later-Found (some v) = (some v, refl)

find_header_from-Found :
    (passes : ℕ) (response name rest : Text)
    → length rest < passes
    → ComesToEnd rest
    → Found (find_header_from passes response name rest)
unfolding find_header_from
find_header_from-Found zero response name rest l h = absurd (omega (arith, l))
find_header_from-Found (suc passes) response name [] l h = (none, refl)
find_header_from-Found (suc passes) response name (c ∷ rest) l (inl e) =
    rw (find_text-here c rest e) (none, refl)
find_header_from-Found (suc passes) response name (c ∷ rest) l (inr h) =
    let line = next_line (c ∷ rest) h in
    rw line.found (
      of_line-Found name (take line.ends_at (c ∷ rest)) _ (
        find_header_from-Found passes response name (drop (line.ends_at + 2) (c ∷ rest))
          (omega (arith, l, length-drop (line.ends_at + 2) (c ∷ rest))) line.behind))

read_handshake_response-HasEnd :
    (chunks : List Text) (response whole : Text)
    → read_handshake_response chunks response ≡ ok whole
    → HasEnd whole
unfolding read_handshake_response
read_handshake_response-HasEnd [] response whole h =
    elim (Bool-cases (contains_text header_terminator response)) [
      | inl e ↦ subst HasEnd (ok_inj response whole (rw e at h)) e
      | inr e ↦ absurd (cc (rw e at h))
    ]
read_handshake_response-HasEnd (chunk ∷ chunks) response whole h =
    elim (Bool-cases (contains_text header_terminator response)) [
      | inl e ↦ subst HasEnd (ok_inj response whole (rw e at h)) e
      | inr e ↦ read_handshake_response-HasEnd chunks (response ++ chunk) whole (rw e at h)
    ]

-- A response that the client has read holds the end of its headers, and the search for a header in it
-- ends, whatever the header's name: no line without an end is reached, from which the search would go
-- back to the start.
pub find_header-Found :
    (chunks : List Text) (response name : Text)
    → read_handshake_response chunks [] ≡ ok response
    → (value : Option Text) × (find_header response name ≡ ok value)
unfolding find_header
find_header-Found chunks response name h =
    find_header_from-Found (suc (length response)) response name response (omega arith)
      (inr (read_handshake_response-HasEnd chunks [] response h))
