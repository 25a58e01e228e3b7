-- ===== src/Prelude/Counts.antt =====
-- How many elements of a list have a property.
use Prim.Native.Nat.{ℕ, suc, ◌+◌, ◌≤◌}
use mathlib.Core.Path.{◌≡◌, refl, ap}
use mathlib.Core.Bool.{Bool, true}
use mathlib.Core.List.{List, [], ◌∷◌, ◌++◌}
use native.Mathlib.Omega.{arith}
use go_electrum_client.Prelude.Tests.{if◌then◌else◌}
use go_electrum_client.Prelude.Lists.{length}

module _ {A : Type 0} where
  abbrev pub count : (A → Bool) → List A → ℕ
  count f [] = 0
  count f (x ∷ xs) = let rest = count f xs in if f x then suc rest else rest

  pub count-append : (f : A → Bool) (xs ys : List A) → count f (xs ++ ys) ≡ count f xs + count f ys
  count-append f [] ys = omega arith
  count-append f (x ∷ xs) ys = ground (arith, count-append f xs ys)

  pub count_all : (xs : List A) → count (λ _. true) xs ≡ length xs
  count_all [] = refl
  count_all (x ∷ xs) = ap suc (count_all xs)

  pub count_mono :
      (f g : A → Bool) (xs : List A) → ((x : A) → f x ≡ true → g x ≡ true) → count f xs ≤ count g xs
  count_mono f g [] le = omega arith
  count_mono f g (x ∷ xs) le = ground (arith, le x, count_mono f g xs le)

  -- An element with a property is counted.
  pub count-insert :
      (f : A → Bool) (x y : A) (xs : List A) → count f (x ∷ y ∷ xs) ≡ count f (y ∷ x ∷ xs)
  count-insert f x y xs = ground arith
