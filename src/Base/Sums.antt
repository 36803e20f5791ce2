-- ===== src/Base/Sums.antt =====
-- Sums over a list, for numbers of threads in a state and of tasks with a property.
use Prim.Native.Nat.{ℕ, zero, suc, ◌+◌, ◌≤◌}
use mathlib.Core.Path.{◌≡◌}
use mathlib.Core.Bool.{Bool}
use mathlib.Core.Option.{some}
use mathlib.Core.List.{List, [], ◌∷◌, ◌++◌}
use native.Mathlib.Omega.{arith}
use trantor_net.Base.Tests.{if◌then◌else◌}
use trantor_net.Base.Lists.{get_elem?, set, length}

abbrev pub sum {ℓ} : {A : Type ℓ} → (A → ℕ) → List A → ℕ
sum f [] = 0
sum f (x ∷ xs) = f x + sum f xs

-- How many elements pass the test?
abbrev pub count {ℓ} : {A : Type ℓ} → (A → Bool) → List A → ℕ
count p xs = sum (λ x. if p x then 1 else 0) xs

pub sum-++ {ℓ} : {A : Type ℓ} (f : A → ℕ) (xs ys : List A) → sum f (xs ++ ys) ≡ sum f xs + sum f ys
sum-++ f [] ys = omega arith
sum-++ f (x ∷ xs) ys = omega (arith, sum-++ f xs ys)

-- Replacing an element changes the sum by the difference.
pub sum-set {ℓ} :
    {A : Type ℓ} (f : A → ℕ) (xs : List A) (i : ℕ) (x y : A)
    → get_elem? xs i ≡ some x
    → sum f (set xs i y) + f x ≡ sum f xs + f y
sum-set f [] i x y e = ground arith
sum-set f (z ∷ xs) zero x y e = ground arith
sum-set f (z ∷ xs) (suc i) x y e = omega (arith, sum-set f xs i x y e)

-- No element stands in a sum that is zero.
pub sum_zero {ℓ} :
    {A : Type ℓ} (f : A → ℕ) (xs : List A) (i : ℕ) (x : A)
    → get_elem? xs i ≡ some x
    → sum f xs ≡ 0
    → f x ≡ 0
sum_zero f [] i x e z = ground arith
sum_zero f (y ∷ xs) zero x e z = ground arith
sum_zero f (y ∷ xs) (suc i) x e z = sum_zero f xs i x e (omega arith)

pub sum_le_length {ℓ} :
    {A : Type ℓ} (f : A → ℕ) (xs : List A) → ((x : A) → f x ≤ 1) → sum f xs ≤ length xs
sum_le_length f [] h = omega arith
sum_le_length f (x ∷ xs) h = omega (arith, h x, sum_le_length f xs h)
