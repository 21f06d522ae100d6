-- ===== src/Risk/Account.antt =====
-- okx/risk/account_state: the balances by currency, from the "account" channel. A balance for which
-- there is no room is passed over.
pub mod Laws
use cpp_trading_engine.Base.{
  ℕ, zero, suc, ◌+◌, Bool, true, false, Option, none, some, List, [], ◌∷◌, if◌then◌else◌, ltb,
  get_elem?, set, replicate, Text, codes, text_eq, Result, ok, err, ◌>>=◌, or_throw, out_of_bounds,
  malformed,
}
use cpp_trading_engine.Base.Double.{Double, zero_of}
use cpp_trading_engine.Base.Effects.{Effect, store_result, resume}
use cpp_trading_engine.Constants.{
  is_text, channel_key, account_channel, details_key, ccy_key, cash_bal_key, avail_bal_key,
}
use cpp_trading_engine.Json.Fields.{find_string, find_data}
use cpp_trading_engine.Json.Loops.{for_each_array_element}
use cpp_trading_engine.Orders.Events.{parse_double}

pub record Balance (V : Type 0) : Type 0 where
  pub ccy : Text
  pub cash_bal : V
  pub avail_bal : V

pub record AccountState (V : Type 0) : Type 0 where
  pub balances : List (Balance V)
  pub count : ℕ

-- `kCapacity`
abbrev pub capacity : ℕ
capacity = 16

abbrev pub balance_at : {V : Type 0} → AccountState V → ℕ → Result (Balance V)
balance_at s i = or_throw out_of_bounds (get_elem? s.balances i)

-- The loops that look for a currency, over the balances left: the index, if there is one
unfoldable pub index_from : {V : Type 0} → AccountState V → Text → ℕ → ℕ → Result (Option ℕ)
index_from s ccy i zero = ok none
index_from s ccy i (suc left) =
    let rest = index_from s ccy (i + 1) left in
    (balance_at s i) >>= λ balance. if text_eq balance.ccy ccy then ok (some i) else rest

-- `GetBalance`
abbrev pub balance_found : {V : Type 0} → AccountState V → Option ℕ → Result (Option (Balance V))
balance_found s none = ok none
balance_found s (some i) = (balance_at s i) >>= λ balance. ok (some balance)

unfoldable pub get_balance : {V : Type 0} → AccountState V → Text → Result (Option (Balance V))
unfolding index_from
get_balance s ccy = (index_from s ccy 0 s.count) >>= balance_found s

module _ (d : Double) where
  open d use {Val}

  unfoldable pub empty_account : AccountState Val
  empty_account = record {
    balances =
        replicate capacity (record { ccy = codes ""; cash_bal = zero_of d; avail_bal = zero_of d });
    count = 0;
  }

  -- `balances_[i].cash_bal = …`, and the same of the other field
  abbrev pub set_cash : ℕ → Text → AccountState Val → Result (AccountState Val)
  set_cash i text s = do
    value ← parse_double d text
    balance ← balance_at s i
    ok (record s { balances = set s.balances i (record balance { cash_bal = value }) })

  abbrev pub set_avail : ℕ → Text → AccountState Val → Result (AccountState Val)
  set_avail i text s = do
    value ← parse_double d text
    balance ← balance_at s i
    ok (record s { balances = set s.balances i (record balance { avail_bal = value }) })

  abbrev pub add_balance : Text → Text → Text → AccountState Val → Result (AccountState Val)
  add_balance ccy cash avail s = do
    cash_bal ← parse_double d cash
    avail_bal ← parse_double d avail
    ok (record {
      balances =
          set s.balances s.count (record { ccy = ccy; cash_bal = cash_bal; avail_bal = avail_bal });
      count = s.count + 1;
    })

  -- The first field keeps its new value where the second is not a number.
  abbrev pub update_found : Text → Text → Text → Option ℕ → Effect (AccountState Val) (Unit {0})
  update_found ccy cash avail (some i) s =
      resume (λ _ t. store_result (set_avail i avail t) t) (store_result (set_cash i cash s) s)
  update_found ccy cash avail none s =
      if ltb s.count capacity then store_result (add_balance ccy cash avail s) s else (s, ok tt)

  abbrev pub update_balance :
      Text → Text → Text → Result (Option ℕ) → Effect (AccountState Val) (Unit {0})
  update_balance ccy cash avail (ok found) s = update_found ccy cash avail found s
  update_balance ccy cash avail (err e) s = (s, err e)

  abbrev pub apply_texts :
      Option Text → Option Text → Option Text → Effect (AccountState Val) (Unit {0})
  apply_texts (some ccy) (some cash) (some avail) s =
      update_balance ccy cash avail (index_from s ccy 0 s.count) s
  apply_texts (some ccy) (some cash) none s = (s, err malformed)
  apply_texts (some ccy) none avail s = (s, err malformed)
  apply_texts none cash avail s = (s, err malformed)

  -- The action on one element of "details"
  unfoldable pub apply_detail : Text → Effect (AccountState Val) (Unit {0})
  unfolding find_string index_from
  apply_detail detail s =
      apply_texts (find_string detail ccy_key) (find_string detail cash_bal_key)
        (find_string detail avail_bal_key) s

  abbrev pub apply_data : Option Text → Effect (AccountState Val) (Unit {0})
  apply_data none s = (s, ok tt)
  apply_data (some data_text) s = for_each_array_element data_text details_key apply_detail s

  -- `ApplyMessage`
  unfoldable pub apply_message : Text → Effect (AccountState Val) (Unit {0})
  unfolding find_string find_data for_each_array_element apply_detail
  apply_message message s =
      if is_text (find_string message channel_key) account_channel
      then apply_data (find_data message) s
      else (s, ok tt)
