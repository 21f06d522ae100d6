-- ===== src/Base/Keeps.antt =====
-- Properties of the object that an action keeps, whether it returns or throws, by how the action is built.
use mathlib.Core.Bool.{Bool, true, false}
use cpp_trading_engine.Base.Tests.{if◌then◌else◌}
use cpp_trading_engine.Base.Results.{Result, ok, err}
use cpp_trading_engine.Base.Effects.{Effect, resume, ◌>>=◌, pure, lift, gets, modify}

pub record Keeps {S A : Type 0} (P : S → Type 0) (action : Effect S A) : Type 0 where
  pub keeps : (s : S) → P s → P (action s).0

module _ {S : Type 0} {P : S → Type 0} where
  resume-keeps :
      {A B : Type 0} (next : A → Effect S B) (r : S × Result A)
      → P r.0
      → ((a : A) → Keeps P (next a))
      → P (resume next r).0
  resume-keeps next (s, ok a) h k = (k a).keeps s h
  resume-keeps next (s, err e) h k = h

  pub Keeps-bind :
      {A B : Type 0} (action : Effect S A) (next : A → Effect S B)
      → Keeps P action
      → ((a : A) → Keeps P (next a))
      → Keeps P (action >>= next)
  unfolding ◌>>=◌
  Keeps-bind action next h k = record {
    keeps = λ s p. resume-keeps next (action s) (h.keeps s p) k;
  }

  pub Keeps-pure : {A : Type 0} (a : A) → Keeps P (pure a)
  unfolding pure
  Keeps-pure a = record { keeps = λ s p. p }

  pub Keeps-lift : {A : Type 0} (r : Result A) → Keeps P (lift r)
  unfolding lift
  Keeps-lift r = record { keeps = λ s p. p }

  pub Keeps-gets : {A : Type 0} (read : S → A) → Keeps P (gets read)
  unfolding gets
  Keeps-gets read = record { keeps = λ s p. p }

  pub Keeps-modify : (change : S → S) → ((s : S) → P s → P (change s)) → Keeps P (modify change)
  unfolding modify
  Keeps-modify change h = record { keeps = h }

  pub Keeps-if :
      {A : Type 0} (b : Bool) (action other : Effect S A)
      → Keeps P action
      → Keeps P other
      → Keeps P (if b then action else other)
  Keeps-if true action other h k = h
  Keeps-if false action other h k = k

pub ruleset keeps_rules = (Keeps-bind, Keeps-pure, Keeps-lift, Keeps-gets, Keeps-if)
