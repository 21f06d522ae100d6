-- ===== src/Strategy/Desk.antt =====
-- okx/strategy/naive_quoter: the members of `NaiveQuoter`, with the store, the limiter and the static of
-- `GenerateId` that it works on, and the prices that it computes.
use cpp_trading_engine.Base.{
  ℕ, Bool, true, false, ◌||◌, Option, none, some, [], ◌∷◌, if◌then◌else◌, ◌==◌, length, Text,
  text_eq,
}
use cpp_trading_engine.Base.Double.{Double, abs_of}
use cpp_trading_engine.Base.Int.{ℤ, pos}
use cpp_trading_engine.Connectivity.RateLimiter.{EndpointRateLimiter}
use cpp_trading_engine.Constants.{buy, sell}
use cpp_trading_engine.Orders.Lifecycle.{OrderState, pending_amend}
use cpp_trading_engine.Orders.Store.{OrderStore}

-- `DecimalPlaces`: the digits behind the dot
unfoldable pub decimal_places : Text → ℕ
decimal_places [] = 0
decimal_places (c ∷ text) =
    let rest = decimal_places text in if c == b'.' then length text else rest

pub data Side : Type 0 where
  bid ask : Side

abbrev pub side_text : Side → Text
side_text bid = buy
side_text ask = sell

abbrev pub is_pending_amend : OrderState → Bool
is_pending_amend pending_amend = true
is_pending_amend _ = false

module _ (d : Double) where
  open d use {Val, lt, plus, sub, mul, div, literal}

  pub record Quoter : Type 0 where
    pub inst_id : Text
    pub inst_id_code : ℤ
    pub sz : Text
    pub tick_sz : Val
    pub tick_decimal_places : ℕ
    pub quote_bps : Val
    pub requote_threshold_bps : Val
    pub last_quoted_mid : Option Val
    pub bid_cl_ord_id : Option Text
    pub ask_cl_ord_id : Option Text

  pub record Desk : Type 0 where
    pub quoter : Quoter
    pub order_store : OrderStore
    pub rate_limiter : EndpointRateLimiter
    pub last_id : ℕ

  -- The member that `ReplaceSide` has a reference to
  abbrev pub cl_ord_id_of : Side → Quoter → Option Text
  cl_ord_id_of bid q = q.bid_cl_ord_id
  cl_ord_id_of ask q = q.ask_cl_ord_id

  abbrev pub set_cl_ord_id : Side → Option Text → Quoter → Quoter
  set_cl_ord_id bid id q = record q { bid_cl_ord_id = id }
  set_cl_ord_id ask id q = record q { ask_cl_ord_id = id }

  abbrev is_that : Option Text → Text → Bool
  is_that none id = false
  is_that (some own) id = text_eq own id

  -- `OwnsOrder`
  abbrev pub owns_order : Text → Quoter → Bool
  owns_order id q = is_that q.bid_cl_ord_id id || is_that q.ask_cl_ord_id id

  -- `OnOrderRemoved`
  unfoldable pub on_order_removed : Text → Quoter → Quoter
  on_order_removed id q =
      if is_that q.bid_cl_ord_id id
      then record q { bid_cl_ord_id = none }
      else (if is_that q.ask_cl_ord_id id then record q { ask_cl_ord_id = none } else q)

  -- `kBpsPerUnit`, and 1.0
  abbrev pub bps_per_unit : Val
  bps_per_unit = literal (pos 100000000)

  abbrev pub one : Val
  one = literal (pos 10000)

  -- `ComputeQuotePrices`
  abbrev pub quote_price : Side → Val → Quoter → Val
  quote_price bid mid q = mul mid (sub one (div q.quote_bps bps_per_unit))
  quote_price ask mid q = mul mid (plus one (div q.quote_bps bps_per_unit))

  -- Whether the mid price has moved from the one quoted last
  abbrev pub has_moved : Val → Quoter → Option Val → Bool
  has_moved mid q none = true
  has_moved mid q (some last) =
      lt q.requote_threshold_bps (mul (div (abs_of d (sub mid last)) last) bps_per_unit)

  abbrev pub mid_of : Val → Val → Val
  mid_of best_bid best_ask = div (plus best_bid best_ask) (literal (pos 20000))
