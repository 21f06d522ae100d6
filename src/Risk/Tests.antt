-- ===== src/Risk/Tests.antt =====
-- Limits, a store of one order and two balances.
use cpp_trading_engine.Base.{refl, ◌∷◌, replicate, Text, codes, arith}
use cpp_trading_engine.Base.Int.{ℤ}
use cpp_trading_engine.Base.Double.{integers}
use cpp_trading_engine.Risk.Checks.{OrderRequest, RiskLimits}
use cpp_trading_engine.Risk.Account.{AccountState, Balance, apply_message}
use cpp_trading_engine.Risk.Account.Laws.{IsSound, apply_message-IsSound}

-- At most 1 unit, a notional of 1000, a collar of 0.05 and ten orders.
abbrev limits : RiskLimits integers
limits = record {
  max_order_sz = ℤ.pos 10000;
  max_notional = ℤ.pos 10000000;
  price_collar_pct = ℤ.pos 500;
  max_open_orders = 10;
}

abbrev small_order : OrderRequest
small_order = record {
  inst_id = codes "ETH-USDT";
  side = codes "buy";
  ord_type = codes "limit";
  px = codes "100";
  sz = codes "1";
  inst_id_code = ℤ.pos 3;
}

abbrev balance : Text → Balance ℤ
balance ccy = record { ccy = ccy; cash_bal = ℤ.pos 5; avail_bal = ℤ.pos 5 }

abbrev account : AccountState ℤ
account = record { balances = balance (codes "ETH") ∷ replicate 15 (balance (codes "")); count = 1 }

account-IsSound : IsSound account
account-IsSound = record {
  storage = refl;
  within = omega arith;
  distinct = λ i j a b m n e f. absurd (omega (arith, m, n));
}

abbrev account_message : Text
account_message =
    codes
      "{\"arg\":{\"channel\":\"account\"},\"data\":[{\"details\":[{\"ccy\":\"USDT\",\"cashBal\":\"7\",\"availBal\":\"6\"}]}]}"

apply_message-IsSound_example : IsSound (apply_message integers account_message account).0
apply_message-IsSound_example =
    apply_message-IsSound integers account_message account account-IsSound
