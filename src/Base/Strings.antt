-- ===== src/Base/Strings.antt =====
-- A JavaScript string as its sequence of UTF-16 code units.
use Prim.Native.Nat.{ℕ}
use Prim.Native.Char.{code}
use Prim.Native.String.{String}
use mathlib.Core.Path.{◌≡◌, refl, ap, subst}
use mathlib.Core.Logic.{◌↔◌}
use mathlib.Core.Bool.{Bool, true, false, ◌&&◌}
use mathlib.Core.Option.{Option, none, some}
use mathlib.Core.List.{List, [], ◌∷◌}
use native.Mathlib.Omega.{arith}
use sendself.Base.Tests.{◌==◌}

abbrev pub Text : Type 0
Text = List ℕ

-- A literal of the source, all of them ASCII.
abbrev pub txt : String → Text
txt String.[] = []
txt (String.◌∷◌ c s) = code c ∷ txt s

-- `===` on strings.
unfoldable pub str_eq : Text → Text → Bool
str_eq [] [] = true
str_eq [] (b ∷ bs) = false
str_eq (a ∷ as') [] = false
str_eq (a ∷ as') (b ∷ bs) = a == b && str_eq as' bs

pub str_eq_refl : (a : Text) → str_eq a a ≡ true
unfolding str_eq
str_eq_refl [] = refl
str_eq_refl (a ∷ as') = ground (arith, str_eq_refl as')

str_eq_sound : (a b : Text) → str_eq a b ≡ true → a ≡ b
unfolding str_eq
str_eq_sound [] [] h = refl
str_eq_sound [] (b ∷ bs) h = cc
str_eq_sound (a ∷ as') [] h = cc
str_eq_sound (a ∷ as') (b ∷ bs) h = ground (arith, str_eq_sound as' bs)

str_eq_complete : (a b : Text) → a ≡ b → str_eq a b ≡ true
str_eq_complete a b e = subst (λ t. str_eq a t ≡ true) e (str_eq_refl a)

pub str_eq_iff : (a b : Text) → (str_eq a b ≡ true) ↔ (a ≡ b)
str_eq_iff a b = (str_eq_sound a b, str_eq_complete a b)

pub str_eq_comm : (a b : Text) → str_eq a b ≡ str_eq b a
unfolding str_eq
str_eq_comm [] [] = refl
str_eq_comm [] (b ∷ bs) = refl
str_eq_comm (a ∷ as') [] = refl
str_eq_comm (a ∷ as') (b ∷ bs) = ground (arith, str_eq_comm as' bs)

-- `===` on nullable strings.
abbrev pub opt_eq : Option Text → Option Text → Bool
opt_eq none none = true
opt_eq none (some b) = false
opt_eq (some a) none = false
opt_eq (some a) (some b) = str_eq a b

pub opt_eq_refl : (a : Option Text) → opt_eq a a ≡ true
opt_eq_refl none = refl
opt_eq_refl (some a) = str_eq_refl a

pub opt_eq_sound : (a b : Option Text) → opt_eq a b ≡ true → a ≡ b
opt_eq_sound none none h = refl
opt_eq_sound none (some b) h = cc
opt_eq_sound (some a) none h = cc
opt_eq_sound (some a) (some b) h = ap some (str_eq_sound a b h)
