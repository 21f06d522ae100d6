-- ===== src/Risk/KillSwitch.antt =====
-- okx/risk/kill_switch: `KillSwitch::Trigger`. The cancellations that it asks the exchange for are a
-- list of pairs of an instrument and an order's id; what the exchange answers is only logged.
use cpp_trading_engine.Base.{Bool, true, List, [], ◌∷◌, if◌then◌else◌, Text, is_empty, ok, ◌>>=◌}
use cpp_trading_engine.Base.Effects.{Effect}
use cpp_trading_engine.Orders.Lifecycle.{Order}
use cpp_trading_engine.Orders.Store.{OrderStore, all_orders}

-- An order without an id of the exchange cannot be cancelled there.
unfoldable pub to_cancel : List Order → List (Text × Text)
to_cancel [] = []
to_cancel (x ∷ xs) =
    let rest = to_cancel xs in if is_empty x.ord_id then rest else (x.inst_id, x.ord_id) ∷ rest

-- The state is whether the switch is triggered.
unfoldable pub trigger : OrderStore → Effect Bool (List (Text × Text))
unfolding to_cancel
trigger store triggered =
    if triggered
    then (true, ok [])
    else (true, (all_orders store) >>= λ orders. ok (to_cancel orders))
