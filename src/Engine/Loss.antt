-- ===== src/Engine/Loss.antt =====
-- okx/engine/engine.cpp: `HandleOrderEvent` at the limit on the realized loss.
use cpp_trading_engine.Base.{◌≡◌, ◌++◌, rest_failed, Bool, true, List, [], Text, Result, err, ◌⊎◌}
use cpp_trading_engine.Base.Double.{Double}
use cpp_trading_engine.Connectivity.WsClient.{WsClient}
use cpp_trading_engine.Engine.{RestCall, State, cancellations}
use cpp_trading_engine.Risk.Position.{Position}

module _ (d : Double) where
  open d use {Val}

  -- The kill switch is on and the position is the one given; of the cancellations that are wanted
  -- the first were asked for, in order and after the calls given: all of them, or those up to the
  -- first that throws, whose exception is then the result.
  pub record Stopped (fails : List RestCall → Bool) (wanted : List (Text × Text))
      (calls : List RestCall) (position : Position d) (m : State d × Result (Unit {0}))
      : Type 0 where
    pub on : m.0.1.kill_switch ≡ true
    pub held : m.0.1.position ≡ position
    pub done : List (Text × Text)
    pub left : List (Text × Text)
    pub split : wanted ≡ done ++ left
    pub asked : m.0.1.rest_calls ≡ cancellations d done calls
    pub ended :
        (left ≡ []) ⊎ ((fails (cancellations d done calls) ≡ true) × (m.1 ≡ err rest_failed))

  module _ (fails : List RestCall → Bool) (wanted : List (Text × Text)) (calls : List RestCall)
      (position : Position d) where
    abbrev Stops : State d × Result (Unit {0}) → Type 0
    Stops = Stopped fails wanted calls position
