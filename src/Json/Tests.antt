-- ===== src/Json/Tests.antt =====
-- The scanner on messages as the exchange sends them.
use cpp_trading_engine.Base.{◌⊎◌}
use cpp_trading_engine.Json.Scan.{
  skip_whitespace, skip_whitespace_from, skip_value, skip_plain_from,
}
use cpp_trading_engine.Json.Loops.{for_each_element, for_each_element_from}
use cpp_trading_engine.Json.Bounds.{Ends, for_each_field-Ends}
use cpp_trading_engine.Json.Stuck.{
  Unended, Stuck, here, later, for_each_element-Ends, Stuck-out_of_fuel,
}
use cpp_trading_engine.Base.{
  ◌≡◌, refl, some, List, [], ◌∷◌, ◌++◌, Text, codes, ok, err, parse_failed,
}
use cpp_trading_engine.Base.Int.{ℤ}
use cpp_trading_engine.Base.Effects.{Effect}
use cpp_trading_engine.Json.Fields.{find_string, find_number, find_data, parse_ll}
use cpp_trading_engine.Json.Loops.{for_each_array_element, for_each_field, for_each_element}

abbrev message : Text
message = codes "{\"arg\":{\"channel\":\"books\"}, \"data\":[{\"a\":[1,\"]\"]}, {\"b\" : 2}]}"

reads_channel : find_string message (codes "channel") ≡ some (codes "books")
unfolding find_string
reads_channel = refl

reads_data : find_data message ≡ some (codes "{\"a\":[1,\"]\"]}")
unfolding find_data
reads_data = refl

reads_number : find_number (codes "{\"ts\":-12.5e3}") (codes "ts") ≡ some (codes "-12.5e3")
unfolding find_number
reads_number = refl

reads_integers :
    (parse_ll (codes "-42x") ≡ ok (ℤ.negsuc 41))
    × (parse_ll (codes "9223372036854775807") ≡ ok (ℤ.pos 9223372036854775807))
    × (parse_ll (codes "9223372036854775808") ≡ err parse_failed)
    × (parse_ll (codes "x") ≡ err parse_failed)
unfolding parse_ll
reads_integers = (refl, refl, refl, refl)

-- An action that collects what it is given.
abbrev collect : Text → Effect (List Text) (Unit {0})
collect element seen = (seen ++ (element ∷ []), ok tt)

walks_data :
    for_each_array_element message (codes "data") collect []
    ≡ (codes "{\"a\":[1,\"]\"]}" ∷ codes "{\"b\" : 2}" ∷ [], ok tt)
unfolding for_each_array_element
walks_data = refl

abbrev gather_field : Text → Text → Effect (List Text) (Unit {0})
gather_field key value seen = (seen ++ (key ∷ value ∷ []), ok tt)

walks_fields :
    for_each_field gather_field (codes "{\"seqId\":7, \"bids\" : [[\"1\"]]}") []
    ≡ (codes "seqId" ∷ codes "7" ∷ codes "bids" ∷ codes "[[\"1\"]]" ∷ [], ok tt)
unfolding for_each_field
walks_fields = refl

for_each_field-Ends_example :
    Ends (for_each_field gather_field (codes "{\"seqId\":7, \"bids\" : [[\"1\"]]}") [])
for_each_field-Ends_example =
    for_each_field-Ends gather_field (λ key value s p. cc)
      (codes "{\"seqId\":7, \"bids\" : [[\"1\"]]}") []

for_each_element-Ends_example :
    Ends (for_each_element collect (codes "[{\"a\":1}, 2]") []) ⊎ Stuck (codes "[{\"a\":1}, 2]") 1
for_each_element-Ends_example =
    for_each_element-Ends collect (λ x s p. cc) (codes "[{\"a\":1}, 2]") []

Stuck-out_of_fuel_example : Unended collect (for_each_element_from 100 collect (codes "[1}") 1 [])
unfolding skip_whitespace skip_value skip_whitespace_from skip_plain_from
Stuck-out_of_fuel_example =
    Stuck-out_of_fuel collect 100 (codes "[1}") 1 [] (later refl (here refl))
