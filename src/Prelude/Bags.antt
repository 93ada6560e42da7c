-- ===== src/Prelude/Bags.antt =====
-- Lists as bags: two lists are the same bag if every weight of the elements has the same total.
-- A weight that is 1 at one element and 0 elsewhere counts that element.
use Prim.Native.Nat.{ℕ, ◌+◌}
use mathlib.Core.Path.{◌≡◌, refl}
use mathlib.Core.List.{List, [], ◌∷◌, ◌++◌}
use native.Mathlib.Omega.{arith}

module _ {ℓ} {A : Type ℓ} where
  -- The total weight of a list.
  abbrev pub weigh : (A → ℕ) → List A → ℕ
  weigh f [] = 0
  weigh f (x ∷ xs) = f x + weigh f xs

  abbrev pub SameBag : List A → List A → Type ℓ
  SameBag xs ys = (f : A → ℕ) → weigh f xs ≡ weigh f ys

  pub weigh-append : (f : A → ℕ) (xs ys : List A) → weigh f (xs ++ ys) ≡ weigh f xs + weigh f ys
  weigh-append f [] ys = omega arith
  weigh-append f (x ∷ xs) ys = omega (arith, weigh-append f xs ys)

  pub weigh_congr : (f g : A → ℕ) (xs : List A) → ((x : A) → f x ≡ g x) → weigh f xs ≡ weigh g xs
  weigh_congr f g [] h = refl
  weigh_congr f g (x ∷ xs) h = omega (arith, h x, weigh_congr f g xs h)
