-- ===== src/Risk/Position.antt =====
-- okx/risk/position: `Position::ApplyFill`, with the average price as the cost of the position.
use cpp_trading_engine.Base.{Bool, true, false, ◌||◌, not, if◌then◌else◌, Text, text_eq}
use cpp_trading_engine.Base.Double.{Double, zero_of, abs_of}
use cpp_trading_engine.Constants.{buy}

abbrev same_truth : Bool → Bool → Bool
same_truth true b = b
same_truth false b = not b

module _ (d : Double) where
  open d use {Val, lt, eq, plus, sub, mul, div}

  pub record Position : Type 0 where
    pub net_qty : Val
    pub avg_entry_px : Val
    pub realized_pnl : Val

  unfoldable pub flat : Position
  flat = record { net_qty = zero_of d; avg_entry_px = zero_of d; realized_pnl = zero_of d }

  -- `a > 0.0`
  abbrev pub is_positive : Val → Bool
  is_positive a = lt (zero_of d) a

  -- `std::min`
  abbrev pub min_of : Val → Val → Val
  min_of a b = if lt b a then b else a

  abbrev pub is_adding : Position → Val → Bool
  is_adding p signed_qty =
      eq p.net_qty (zero_of d) || same_truth (is_positive p.net_qty) (is_positive signed_qty)

  abbrev pub add_to : Position → Val → Val → Val → Position
  add_to p signed_qty fill_px fill_sz =
      let new_qty = plus p.net_qty signed_qty in
      record p {
        avg_entry_px =
            div (plus (mul (abs_of d p.net_qty) p.avg_entry_px) (mul fill_sz fill_px))
              (abs_of d new_qty);
        net_qty = new_qty;
      }

  abbrev pub close_from : Position → Val → Val → Val → Position
  close_from p signed_qty fill_px fill_sz =
      let closing_qty = min_of fill_sz (abs_of d p.net_qty) in
      let pnl_per_unit =
        if is_positive p.net_qty then sub fill_px p.avg_entry_px else sub p.avg_entry_px fill_px in
      let new_qty = plus p.net_qty signed_qty in
      record p {
        realized_pnl = plus p.realized_pnl (mul pnl_per_unit closing_qty);
        avg_entry_px =
            if eq new_qty (zero_of d)
            then zero_of d
            else (if same_truth (is_positive new_qty) (is_positive p.net_qty)
                then p.avg_entry_px
                else fill_px);
        net_qty = new_qty;
      }

  -- `ApplyFill`
  unfoldable pub apply_fill : Text → Val → Val → Position → Position
  apply_fill side fill_px fill_sz p =
      let signed_qty = if text_eq side buy then fill_sz else sub (zero_of d) fill_sz in
      if is_adding p signed_qty
      then add_to p signed_qty fill_px fill_sz
      else close_from p signed_qty fill_px fill_sz

  -- `UnrealizedPnl`
  unfoldable pub unrealized_pnl : Val → Position → Val
  unrealized_pnl mark_px p = mul p.net_qty (sub mark_px p.avg_entry_px)
