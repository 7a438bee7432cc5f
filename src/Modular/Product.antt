-- ===== src/Modular/Product.antt =====
-- `modularMultPoly` is the product modulo z.
use Prim.Native.Nat.{bit_xor}
use mathlib.Core.Path.{subst}
use xgossip.Prelude.{
  ℕ, zero, suc, ◌*◌, ◌/◌, ◌%◌, ◌^◌, ◌<◌, ◌≡◌, refl, sym, ap, ◌∙◌, arith, Bool, true, false, ◌==◌,
  if◌then◌else◌,
}
use xgossip.Poly.Xor.{pow_suc, bit_xor_bound, bit_xor_assoc, bit_xor-zero, zero-bit_xor}
use xgossip.Poly.Multiply.{gf2_mul, gf2_mul_double, zero-gf2_mul}
use xgossip.Division.Digits.{HasDegree}
use xgossip.Division.Quotient.{Division}
use xgossip.Modular.{double_mod, mod_loop, modular_mult_poly}
use xgossip.Modular.Residues.{
  IsCongruent, IsCongruent-refl, IsCongruent-sym, IsCongruent-trans, IsCongruent-bit_xor,
  IsCongruent-gf2_mul, IsCongruent-Division, double_mod_lem,
}

add_bit :
    (t : Bool) (res x : ℕ) → (if t then bit_xor res x else res) ≡ bit_xor res (if t then x else 0)
add_bit true res x = refl
add_bit false res x = sym (bit_xor-zero res)

bit_bound :
    (t : Bool) (res x : ℕ) → res < 2 ^ 31 → x < 2 ^ 31 → (if t then bit_xor res x else res) < 2 ^ 31
bit_bound true res x a b = bit_xor_bound 31 res x a b
bit_bound false res x a b = a

positive_test : (y : ℕ) → (suc y == 0) ≡ false
positive_test y = ground arith

-- What the other rounds add to the product, before and after the step on x.
rest_product :
    (n z y x x' : ℕ) → IsCongruent z x' (2 * x) → IsCongruent z (gf2_mul n y x') (2 * gf2_mul n y x)
rest_product n z y x x' h =
    subst (IsCongruent z (gf2_mul n y x')) (gf2_mul_double n y x)
      (IsCongruent-gf2_mul n y z x' (2 * x) h)

-- The sum of a round, in the order of the loop and in that of the product.
round_sum :
    (n y x r : ℕ)
    → bit_xor (if y % 2 == 1 then bit_xor r x else r) (2 * gf2_mul n (y / 2) x)
      ≡ bit_xor r (gf2_mul (suc n) y x)
unfolding gf2_mul
round_sum n y x r =
    ap (λ p. bit_xor p (2 * gf2_mul n (y / 2) x)) (add_bit (y % 2 == 1) r x)
    ∙ bit_xor_assoc r (if y % 2 == 1 then x else 0) (2 * gf2_mul n (y / 2) x)

module _ (z : ℕ) (h : HasDegree 31 z) where
  mod_loop_lem :
      (n y x r : ℕ)
      → y < 2 ^ n
      → x < 2 ^ 31
      → r < 2 ^ 31
      → (mod_loop n (bit_xor z (2 ^ 31)) y x r < 2 ^ 31)
        × IsCongruent z (mod_loop n (bit_xor z (2 ^ 31)) y x r) (bit_xor r (gf2_mul n y x))
  unfolding mod_loop gf2_mul
  mod_loop_lem zero y x r a b c =
      (c, subst (IsCongruent z r) (sym (bit_xor-zero r)) (IsCongruent-refl z r))
  mod_loop_lem (suc n) zero x r a b c = (
    c,
    subst (IsCongruent z r) (sym (ap (bit_xor r) (zero-gf2_mul (suc n) x) ∙ bit_xor-zero r))
        (IsCongruent-refl z r),
  )
  mod_loop_lem (suc n) (suc y) x r a b c =
      let (xb, xc) = double_mod_lem 31 z x (omega arith) h b in
      let x' = double_mod (2 ^ 31) (bit_xor z (2 ^ 31)) x in
      let r' = if suc y % 2 == 1 then bit_xor r x else r in
      let (rb, rc) =
        mod_loop_lem n (suc y / 2) x' r' (omega (arith, a, pow_suc n)) xb
          (bit_bound (suc y % 2 == 1) r x c b) in
      rw (positive_test y) (
        rb,
        IsCongruent-trans z _ _ _ rc (
            subst (IsCongruent z (bit_xor r' (gf2_mul n (suc y / 2) x'))) (round_sum n (suc y) x r)
              (IsCongruent-bit_xor z r' r' _ _ (IsCongruent-refl z r')
                (rest_product n z (suc y / 2) x x' xc))),
      )

-- For z of degree 31 and x of lower degree, `modularMultPoly` gives the remainder of the product of x and
-- y by z: it is of lower degree than z, and the product is a multiple of z and it.
pub modular_mult_poly-Division :
    (x y z : ℕ)
    → HasDegree 31 z
    → x < 2 ^ 31
    → y < 2 ^ 32
    → (q : ℕ) × Division (gf2_mul 32 y x) z q (modular_mult_poly x y z)
unfolding modular_mult_poly
modular_mult_poly-Division x y z h a b =
    let (l, c) = mod_loop_lem z h 32 y x 0 b a (omega arith) in
    IsCongruent-Division 31 z (gf2_mul 32 y x) (mod_loop 32 (bit_xor z (2 ^ 31)) y x 0) h l (
      subst (λ p. IsCongruent z p (mod_loop 32 (bit_xor z (2 ^ 31)) y x 0))
        (zero-bit_xor (gf2_mul 32 y x)) (IsCongruent-sym z _ _ c))
