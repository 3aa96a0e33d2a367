-- ===== src/Prelude/Strip.antt =====
-- A list without the elements of another.
use mathlib.Core.Path.{◌≡◌, refl}
use mathlib.Core.Bool.{true, not}
use mathlib.Core.List.{List, [], ◌∷◌}
use native.Mathlib.Omega.{arith}
use veilroom.Prelude.Lists.{length, retain, All, length-retain-le}
use veilroom.Prelude.Equality.{Eq, ◌==◌, contains}

module _ {ℓ} {A : Type ℓ} ⦃e : Eq A⦄ where
  abbrev pub without_one : A → List A → List A
  without_one i xs = retain (λ x. not (x == i)) xs

  abbrev pub strip : List A → List A → List A
  strip xs [] = xs
  strip xs (i ∷ is) = strip (without_one i xs) is

  strip-without_one :
      (xs is : List A) (i : A)
      → All (λ x. contains (i ∷ is) x ≡ true) xs
      → All (λ x. contains is x ≡ true) (without_one i xs)
  strip-without_one [] is i h = tt
  strip-without_one (x ∷ xs) is i h =
      ground (arith, e.eq_iff x i, e.eq_iff i x, strip-without_one xs is i)

  pub strip-All : (xs is : List A) → All (λ x. contains is x ≡ true) xs → strip xs is ≡ []
  strip-All [] [] h = refl
  strip-All (x ∷ xs) [] h = absurd cc
  strip-All xs (i ∷ is) h = strip-All (without_one i xs) is (strip-without_one xs is i h)

  pub strip-nil : (is : List A) → strip [] is ≡ []
  strip-nil [] = refl
  strip-nil (i ∷ is) = strip-nil is

  pub All-contains_more :
      (xs ys : List A) (y : A)
      → All (λ x. contains ys x ≡ true) xs
      → All (λ x. contains (y ∷ ys) x ≡ true) xs
  All-contains_more [] ys y h = tt
  All-contains_more (x ∷ xs) ys y h = ground (arith, All-contains_more xs ys y)

  pub All-contains : (xs : List A) → All (λ x. contains xs x ≡ true) xs
  All-contains [] = tt
  All-contains (x ∷ xs) =
      (ground (arith, e.eq_iff x x), All-contains_more xs xs x (All-contains xs))

  -- Taking one element away leaves a list of the same length only when it leaves the list as it is.
  pub without_one-length :
      (i : A) (xs : List A) → length (without_one i xs) ≡ length xs → without_one i xs ≡ xs
  without_one-length i [] h = refl
  without_one-length i (x ∷ xs) h =
      ground (arith, without_one-length i xs, length-retain-le (λ y. not (y == i)) xs)
