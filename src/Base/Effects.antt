-- ===== src/Base/Effects.antt =====
-- Code that changes an object and may throw half-way: a function of the object that returns it as it
-- then is, beside the result. An exception keeps the changes made before it.
use mathlib.Core.List.{List, [], ◌∷◌}
use cpp_trading_engine.Base.Results.{Result, ok, err}

abbrev pub Effect : Type 0 → Type 0 → Type 0
Effect S A = S → S × Result A

abbrev pub resume : {S A B : Type 0} → (A → Effect S B) → S × Result A → S × Result B
resume f (s, ok a) = f a s
resume f (s, err e) = (s, err e)

-- A result that is the object's new value.
abbrev pub store_result : {S : Type 0} → Result S → Effect S (Unit {0})
store_result (ok t) s = (t, ok tt)
store_result (err e) s = (s, err e)

-- The call of an action for each element in turn.
unfoldable pub for_each : {S A : Type 0} → (A → Effect S (Unit {0})) → List A → Effect S (Unit {0})
for_each action [] s = (s, ok tt)
for_each action (x ∷ xs) s = resume (λ _. for_each action xs) (action x s)

-- One call after another, for do blocks.
unfoldable pub pure : {S A : Type 0} → A → Effect S A
pure a s = (s, ok a)

unfoldable pub ◌>>=◌ : {S A B : Type 0} → Effect S A → (A → Effect S B) → Effect S B
(action >>= next) s = resume next (action s)

infixl 5 ◌>>=◌
-- A result that leaves the object as it is
unfoldable pub lift : {S A : Type 0} → Result A → Effect S A
lift answer s = (s, answer)

-- A value read from the object
unfoldable pub gets : {S A : Type 0} → (S → A) → Effect S A
gets read s = (s, ok (read s))

-- A call that does not throw
unfoldable pub modify : {S : Type 0} → (S → S) → Effect S (Unit {0})
modify change s = (change s, ok tt)
