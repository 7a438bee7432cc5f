-- ===== src/Gossip/Exact.antt =====
-- The arithmetic of an ideal `double`, for what the averaging of chord-0.1-vasil/tools/gpsi.C is
-- meant to conserve: the machine's addition rounds, and conserves it up to rounding.
use mathlib.Core.Path.{ap₂}
use xgossip.Prelude.{◌≡◌, sym, ap, ◌∙◌}
use xgossip.Doubles.{Doubles}
use xgossip.Scale.{Pair}
use xgossip.Merge.{add_pair, halve}

-- Addition is that of numbers, and halving and doubling lose nothing.
pub record Exact (d : Doubles) : Type 0 where
  pub add_comm : (x y : d.Double) → d.add x y ≡ d.add y x
  pub add_assoc : (x y z : d.Double) → d.add (d.add x y) z ≡ d.add x (d.add y z)
  pub zero_add : (x : d.Double) → d.add d.zero x ≡ x
  pub halves : (x : d.Double) → d.add (d.div_int x 2) (d.div_int x 2) ≡ x
  pub half_zero : d.div_int d.zero 2 ≡ d.zero
  pub twice : (x : d.Double) → d.mul_int x 2 ≡ d.add x x

abbrev pub zeros : (d : Doubles) → Pair d
zeros d = (d.zero, d.zero)

module _ (d : Doubles) (e : Exact d) where
  pub pair_comm : (p q : Pair d) → add_pair d p q ≡ add_pair d q p
  unfolding add_pair
  pair_comm p q = ap₂ (λ x y. (x, y)) (e.add_comm p.0 q.0) (e.add_comm p.1 q.1)

  pub pair_assoc : (p q r : Pair d) → add_pair d (add_pair d p q) r ≡ add_pair d p (add_pair d q r)
  unfolding add_pair
  pair_assoc p q r = ap₂ (λ x y. (x, y)) (e.add_assoc p.0 q.0 r.0) (e.add_assoc p.1 q.1 r.1)

  pub zeros_add : (p : Pair d) → add_pair d (zeros d) p ≡ p
  unfolding add_pair
  zeros_add p = ap₂ (λ x y. (x, y)) (e.zero_add p.0) (e.zero_add p.1)

  pub pair_left_comm :
      (p q r : Pair d) → add_pair d p (add_pair d q r) ≡ add_pair d q (add_pair d p r)
  pair_left_comm p q r =
      sym (pair_assoc p q r) ∙ ap (λ z. add_pair d z r) (pair_comm p q) ∙ pair_assoc q p r

  pub pair_halves : (p : Pair d) → add_pair d (halve d p) (halve d p) ≡ p
  unfolding add_pair halve
  pair_halves p = ap₂ (λ x y. (x, y)) (e.halves p.0) (e.halves p.1)
