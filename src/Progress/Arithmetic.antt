-- ===== src/Progress/Arithmetic.antt =====
-- The floating point arithmetic that `percent` uses, as an interface: the operations round, and
-- the laws are those that IEEE 754 gives every rounded operation.
use modelshelf.Common.{ℕ, ◌≤◌, ◌<◌, ◌≡◌}

pub record Doubles : Type 1 where
  pub Double : Type 0
  pub of_ℕ : ℕ → Double
  pub fdiv : Double → Double → Double
  pub fmul : Double → Double → Double
  -- `Math.floor` of a double that is not negative
  pub floor : Double → ℕ
  -- The order of the doubles.
  pub Below : Double → Double → Type 0
  pub of_ℕ-mono : (a b : ℕ) → a ≤ b → Below (of_ℕ a) (of_ℕ b)
  -- Rounding keeps the order.
  pub fdiv-mono :
      (a b : Double) (d : ℕ) → 0 < d → Below a b → Below (fdiv a (of_ℕ d)) (fdiv b (of_ℕ d))
  pub fmul-mono : (a b : Double) (d : ℕ) → Below a b → Below (fmul a (of_ℕ d)) (fmul b (of_ℕ d))
  pub floor-mono : (a b : Double) → Below a b → floor a ≤ floor b
  -- What is a double is not rounded.
  pub fdiv_self : (d : ℕ) → 0 < d → fdiv (of_ℕ d) (of_ℕ d) ≡ of_ℕ 1
  pub fmul_one : (d : ℕ) → fmul (of_ℕ 1) (of_ℕ d) ≡ of_ℕ d
  pub floor-of_ℕ : (n : ℕ) → floor (of_ℕ n) ≡ n
