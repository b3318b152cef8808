-- ===== src/Prelude/Equal.antt =====
-- Boolean equality of options and lists, from that of their elements.
use mathlib.Core.Bool.{Bool, true, false, not, ◌&&◌}
use mathlib.Core.Option.{Option, none, some}
use mathlib.Core.List.{List, [], ◌∷◌}
use mathlib.Core.Path.{◌≡◌, refl}

abbrev pub bool_eq : Bool → Bool → Bool
bool_eq true b = b
bool_eq false b = not b

module _ {ℓ} {A : Type ℓ} (eq : A → A → Bool) where
  abbrev pub option_eq : Option A → Option A → Bool
  option_eq none none = true
  option_eq (some a) (some b) = eq a b
  option_eq _ _ = false

  abbrev pub list_eq : List A → List A → Bool
  list_eq [] [] = true
  list_eq (a ∷ xs) (b ∷ ys) = eq a b && list_eq xs ys
  list_eq _ _ = false

  pub option_eq_refl : ((a : A) → eq a a ≡ true) → (o : Option A) → option_eq o o ≡ true
  option_eq_refl r none = refl
  option_eq_refl r (some a) = r a

  pub list_eq_refl : ((a : A) → eq a a ≡ true) → (xs : List A) → list_eq xs xs ≡ true
  list_eq_refl r [] = refl
  list_eq_refl r (a ∷ xs) = rw (r a, list_eq_refl r xs) refl
