-- ===== src/Risk/Checks.antt =====
-- okx/risk/risk: `CheckPreTradeRisk`. The reason is the limit that is exceeded, which the source puts
-- into words. An order's size and price are texts.
use cpp_trading_engine.Base.{
  ℕ, ◌≡◌, ◌<◌, Bool, false, Option, none, some, if◌then◌else◌, leb, Text, Result, ok, ◌>>=◌,
}
use cpp_trading_engine.Base.Int.{ℤ}
use cpp_trading_engine.Base.Double.{Double, abs_of}
use cpp_trading_engine.Orders.Events.{parse_double}
use cpp_trading_engine.Orders.Store.{OrderStore, store_size}

pub record OrderRequest : Type 0 where
  pub inst_id : Text
  pub side : Text
  pub ord_type : Text
  pub px : Text
  pub sz : Text
  pub inst_id_code : ℤ

pub data Reason : Type 0 where
  size_exceeded notional_exceeded collar_exceeded too_many_orders : Reason

module _ (d : Double) where
  open d use {Val, lt, sub, mul, div}

  pub record RiskLimits : Type 0 where
    pub max_order_sz : Val
    pub max_notional : Val
    pub price_collar_pct : Val
    pub max_open_orders : ℕ

  abbrev pub deviation : Val → Val → Val
  deviation px ref_px = div (abs_of d (sub px ref_px)) ref_px

  abbrev pub outside_collar : RiskLimits → Val → Option Val → Bool
  outside_collar limits px none = false
  outside_collar limits px (some ref_px) = lt limits.price_collar_pct (deviation px ref_px)

  -- The checks, in order; `none` where all are passed.
  abbrev pub first_failure : RiskLimits → Val → Val → ℕ → Option Val → Option Reason
  first_failure limits sz px open_orders reference_px =
      if lt limits.max_order_sz sz
      then some size_exceeded
      else (if lt limits.max_notional (mul sz px)
          then some notional_exceeded
          else (if outside_collar limits px reference_px
              then some collar_exceeded
              else (if leb limits.max_open_orders open_orders then some too_many_orders else none)))

  -- `CheckPreTradeRisk`
  unfoldable pub check_pre_trade_risk :
      RiskLimits → OrderRequest → OrderStore → Option Val → Result (Option Reason)
  check_pre_trade_risk limits request store reference_px = do
    sz ← parse_double d request.sz
    px ← parse_double d request.px
    ok (first_failure limits sz px (store_size store) reference_px)

  -- An order that is within every limit. It is measured against the reference price where there is
  -- one: the distance of its price from it, without its sign, in parts of the reference price.
  pub record IsWithin (limits : RiskLimits) (sz px : Val) (open_orders : ℕ)
      (reference_px : Option Val) : Type 0 where
    pub size_within : lt limits.max_order_sz sz ≡ false
    pub notional_within : lt limits.max_notional (mul sz px) ≡ false
    pub price_within :
        (ref_px : Val)
        → reference_px ≡ some ref_px
        → lt limits.price_collar_pct (div (abs_of d (sub px ref_px)) ref_px) ≡ false
    pub count_within : open_orders < limits.max_open_orders
