-- ===== src/Prelude/Product.antt =====
-- Sums and products of lists of numbers (`sum`, `math.prod`).
use Prim.Native.Nat.{ℕ, ◌+◌, ◌*◌}
use mathlib.Core.Path.{◌≡◌, ap}
use mathlib.Core.List.{List, [], ◌∷◌, ◌++◌}
use native.Mathlib.Omega.{arith}

abbrev pub sum : List ℕ → ℕ
sum [] = 0
sum (x ∷ xs) = x + sum xs

abbrev pub prod : List ℕ → ℕ
prod [] = 1
prod (x ∷ xs) = x * prod xs

pub sum-append : (xs ys : List ℕ) → sum (xs ++ ys) ≡ sum xs + sum ys
sum-append [] ys = omega arith
sum-append (x ∷ xs) ys = omega (arith, sum-append xs ys)

pub prod-append : (xs ys : List ℕ) → prod (xs ++ ys) ≡ prod xs * prod ys
prod-append [] ys = omega arith
prod-append (x ∷ xs) ys = omega (arith, ap (λ (t : ℕ). x * t) (prod-append xs ys))
