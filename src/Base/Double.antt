-- ===== src/Base/Double.antt =====
-- `double` as an abstract type. There are no floats here, so the operations that the code uses are a
-- parameter; of them only the order is assumed anything of: on values that are not NaN, with one zero,
-- `<` is a strict total order whose equality is `==`. The integers are an instance.
use cpp_trading_engine.Base.Tests.{if◌then◌else◌, Bool-cases}
use cpp_trading_engine.Base.Bytes.{Text, is_empty}
use mathlib.Core.List.{[], ◌∷◌}
use Prim.Native.Nat.{◌-◌}
use cpp_trading_engine.Base.Int.{
  ℤ, pos, ◌+ℤ◌, ◌-ℤ◌, ◌*ℤ◌, ◌/ℤ◌, ltb_ℤ, eqb_ℤ, ltb_ℤ_asym, ltb_ℤ_below, ltb_ℤ_total, eqb_ℤ_refl,
  eqb_ℤ→eq,
}
use cpp_trading_engine.Base.Sorted.{IsStrictOrder}
use mathlib.Core.Path.{◌≡◌}
use mathlib.Core.Logic.{inl, inr}
use mathlib.Core.Bool.{Bool, true, false}
use mathlib.Core.Option.{Option, none, some}

pub record Double : Type 1 where
  pub Val : Type 0
  pub lt : Val → Val → Bool
  pub eq : Val → Val → Bool
  pub plus : Val → Val → Val
  pub sub : Val → Val → Val
  pub mul : Val → Val → Val
  pub div : Val → Val → Val
  -- A literal of the source, in units of 1/10000.
  pub literal : ℤ → Val
  -- `strtod` on a text: `none` where it converts nothing. A text that it reads as NaN has no value
  -- here, and `Val` has no such value.
  pub parse : Text → Option Val
  pub order : IsStrictOrder lt eq

module _ (d : Double) where
  open d use {Val, lt, literal, sub}

  abbrev pub zero_of : Val
  zero_of = literal (pos 0)

  -- `std::greater<>`
  abbrev pub greater : Val → Val → Bool
  greater a b = lt b a

  abbrev pub abs_of : Val → Val
  abs_of a = if lt a zero_of then sub zero_of a else a

  greater_below : (a b c : Val) → lt a b ≡ false → lt c b ≡ true → lt c a ≡ true
  greater_below a b c h k = elim (Bool-cases (lt c a)) [
    | inl e ↦ e
    | inr e ↦ cc (d.order.below a c b e k)
  ]

  pub greater-IsStrictOrder : IsStrictOrder greater d.eq
  greater-IsStrictOrder = record {
    asym = λ a b h. d.order.asym b a h;
    below = greater_below;
    total = λ a b h k. d.order.total a b k h;
    same_refl = d.order.same_refl;
    same→eq = d.order.same→eq;
  }

-- Amounts in units of 1/10000, read from a text of digits.
abbrev digits_value : Text → ℤ → ℤ
digits_value [] value = value
digits_value (c ∷ cs) value = digits_value cs (value *ℤ ℤ.pos 10 +ℤ ℤ.pos (c - b'0'))

abbrev pub integers : Double
integers = record {
  Val = ℤ;
  lt = ltb_ℤ;
  eq = eqb_ℤ;
  plus = λ a b. a +ℤ b;
  sub = λ a b. a -ℤ b;
  mul = λ a b. (a *ℤ b) /ℤ ℤ.pos 10000;
  div = λ a b. (a *ℤ ℤ.pos 10000) /ℤ b;
  literal = λ a. a;
  parse = λ text. if is_empty text then none else some (digits_value text (ℤ.pos 0) *ℤ ℤ.pos 10000);
  order = record {
    asym = ltb_ℤ_asym;
    below = ltb_ℤ_below;
    total = ltb_ℤ_total;
    same_refl = eqb_ℤ_refl;
    same→eq = eqb_ℤ→eq;
  };
}
