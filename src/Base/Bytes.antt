-- ===== src/Base/Bytes.antt =====
-- `std::string` and `std::string_view` as lists of bytes, compared as unsigned bytes.
use Prim.Native.Nat.{ℕ}
use Prim.Native.Char.{code}
use Prim.Native.String.{String}
use mathlib.Core.Path.{◌≡◌, refl}
use mathlib.Core.Bool.{Bool, true, false, ◌&&◌, ◌||◌}
use mathlib.Core.List.{List, [], ◌∷◌}
use native.Mathlib.Omega.{arith}
use cpp_trading_engine.Base.Tests.{ltb, ◌==◌}

abbrev pub Text : Type 0
Text = List ℕ

-- The bytes of an ASCII literal.
abbrev pub codes : String → Text
codes String.[] = []
codes (String.◌∷◌ c s) = code c ∷ codes s

unfoldable pub text_eq : Text → Text → Bool
text_eq [] [] = true
text_eq [] (b ∷ ys) = false
text_eq (a ∷ xs) [] = false
text_eq (a ∷ xs) (b ∷ ys) = a == b && text_eq xs ys

unfoldable pub text_lt : Text → Text → Bool
text_lt [] [] = false
text_lt [] (b ∷ ys) = true
text_lt (a ∷ xs) [] = false
text_lt (a ∷ xs) (b ∷ ys) = ltb a b || (a == b && text_lt xs ys)

abbrev pub is_empty : Text → Bool
is_empty [] = true
is_empty (c ∷ zs) = false

pub text_eq→eq : (s t : Text) → text_eq s t ≡ true → s ≡ t
unfolding text_eq
text_eq→eq [] [] h = refl
text_eq→eq [] (b ∷ ys) h = cc
text_eq→eq (a ∷ xs) [] h = cc
text_eq→eq (a ∷ xs) (b ∷ ys) h = ground (arith, text_eq→eq xs ys)

pub text_eq_refl : (s : Text) → text_eq s s ≡ true
unfolding text_eq
text_eq_refl [] = refl
text_eq_refl (a ∷ xs) = ground (arith, text_eq_refl xs)

pub text_lt_asym : (s t : Text) → text_lt s t ≡ true → text_lt t s ≡ false
unfolding text_lt
text_lt_asym [] [] h = refl
text_lt_asym [] (b ∷ ys) h = refl
text_lt_asym (a ∷ xs) [] h = cc
text_lt_asym (a ∷ xs) (b ∷ ys) h = ground (arith, text_lt_asym xs ys)

-- The weak form of transitivity: if `s` is not after `t` and `t < u`, then `s < u`.
pub text_lt_of_not_lt :
    (s t u : Text) → text_lt t s ≡ false → text_lt t u ≡ true → text_lt s u ≡ true
unfolding text_lt
text_lt_of_not_lt [] [] u h k = k
text_lt_of_not_lt [] (b ∷ ys) [] h k = cc
text_lt_of_not_lt [] (b ∷ ys) (c ∷ zs) h k = refl
text_lt_of_not_lt (a ∷ xs) [] u h k = cc
text_lt_of_not_lt (a ∷ xs) (b ∷ ys) [] h k = cc
text_lt_of_not_lt (a ∷ xs) (b ∷ ys) (c ∷ zs) h k = ground (arith, text_lt_of_not_lt xs ys zs)

pub text_lt_total : (s t : Text) → text_lt s t ≡ false → text_lt t s ≡ false → text_eq s t ≡ true
unfolding text_lt text_eq
text_lt_total [] [] h k = refl
text_lt_total [] (b ∷ ys) h k = cc
text_lt_total (a ∷ xs) [] h k = cc
text_lt_total (a ∷ xs) (b ∷ ys) h k = ground (arith, text_lt_total xs ys)
