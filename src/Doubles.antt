-- ===== src/Doubles.antt =====
-- The `double`s of chord-0.1-vasil/tools/gpsi.C. Floating-point arithmetic is the machine's: a type
-- with the operations that the source applies, of which no law is assumed. Theorems about sums
-- state them in the order of the source, so that rounding makes no difference.
use xgossip.Prelude.{ℕ, Bool, ◌||◌}

pub record Doubles : Type 1 where
  pub Double : Type 0
  -- the literals 0 and 1
  pub zero : Double
  pub one : Double
  pub add : Double → Double → Double
  -- `x / k` and `x * k` by an `int`
  pub div_int : Double → ℕ → Double
  pub mul_int : Double → ℕ → Double
  -- `x / y`, `(double)m / n` of two `int`s, and `x < y`
  pub div : Double → Double → Double
  pub ratio : ℕ → ℕ → Double
  pub less : Double → Double → Bool
  pub is_nan : Double → Bool
  pub is_inf : Double → Bool

module _ (d : Doubles) where
  open d use {Double, is_nan, is_inf}

  -- `fixnan`: it assigns to its own copy of `num`, so that its callers, which drop the result, are
  -- left with what they passed. The calls have no place in the models of the callers.
  pub fixnan : Double → Double → Bool
  fixnan num op1 = is_nan num || is_inf num
