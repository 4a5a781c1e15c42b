-- ===== src/Prelude/Vectors.antt =====
-- Reading an array after a write, and summing up a list of lists.
use coffee_table.Prelude.Tests.{◌==◌, if◌then◌else◌}
use coffee_table.Prelude.Lists.{length, get_elem?, get_or, set, replicate}
use Prim.Native.Nat.{ℕ, zero, suc, ◌+◌, ◌<◌}
use mathlib.Core.Path.{◌≡◌, refl}
use mathlib.Core.List.{List, [], ◌∷◌}
use mathlib.Core.Option.{some}
use native.Mathlib.Omega.{arith}

module _ {ℓ} {A : Type ℓ} where
  pub get_elem?-eq-get_or :
      (xs : List A) (i : ℕ) (d : A) → i < length xs → get_elem? xs i ≡ some (get_or xs i d)
  get_elem?-eq-get_or [] i d h = absurd (omega arith)
  get_elem?-eq-get_or (x ∷ xs) zero d h = refl
  get_elem?-eq-get_or (x ∷ xs) (suc i) d h = get_elem?-eq-get_or xs i d (omega arith)

  pub get_or-set :
      (xs : List A) (i j : ℕ) (v d : A)
      → i < length xs
      → get_or (set xs i v) j d ≡ (if i == j then v else get_or xs j d)
  get_or-set [] i j v d h = absurd (omega arith)
  get_or-set (x ∷ xs) zero zero v d h = ground arith
  get_or-set (x ∷ xs) zero (suc j) v d h = ground arith
  get_or-set (x ∷ xs) (suc i) zero v d h = ground arith
  get_or-set (x ∷ xs) (suc i) (suc j) v d h = ground (arith, get_or-set xs i j v d)

  pub get_or-replicate : (n i : ℕ) (a : A) → get_or (replicate n a) i a ≡ a
  get_or-replicate zero i a = refl
  get_or-replicate (suc n) zero a = refl
  get_or-replicate (suc n) (suc i) a = get_or-replicate n i a

  -- how many items the lists of a list hold
  unfoldable pub total : List (List A) → ℕ
  total [] = 0
  total (c ∷ cs) = length c + total cs

  pub total-set :
      (cs : List (List A)) (i : ℕ) (c : List A)
      → i < length cs
      → total (set cs i c) + length (get_or cs i []) ≡ total cs + length c
  unfolding total
  total-set [] i c h = absurd (omega arith)
  total-set (x ∷ cs) zero c h = omega arith
  total-set (x ∷ cs) (suc i) c h = omega (arith, total-set cs i c (omega arith))

module _ {ℓ} (A : Type ℓ) where
  pub total-replicate : (n : ℕ) → total (replicate {A = List A} n []) ≡ 0
  unfolding total
  total-replicate zero = refl
  total-replicate (suc n) = omega (arith, total-replicate n)
