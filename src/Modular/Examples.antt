-- ===== src/Modular/Examples.antt =====
-- The tests of the module.
use xgossip.Prelude.{ℕ, ◌≡◌, refl, [], ◌∷◌, some, arith}
use xgossip.Poly.Multiply.{gf2_mul}
use xgossip.Division.Digits.{HasDegree}
use xgossip.Division.Quotient.{Division}
use xgossip.Division.{degree_loop}
use xgossip.Modular.{
  double_mod, mod_loop, modular_mult_poly, find_bit, find_bits, find_bytes, find_mod,
}
use xgossip.Modular.Product.{modular_mult_poly-Division}
use xgossip.Modular.Bytes.{bytes_value, find_mod-Division}

-- x ^ 31 + x ^ 3 + 1
abbrev irreducible : ℕ
irreducible = 0x8000_0009

irreducible-HasDegree : HasDegree 31 irreducible
irreducible-HasDegree = record { above = omega arith; below = omega arith }

modular_mult_poly-Division_example :
    (q : ℕ) × Division
      (gf2_mul 32 6 0x4000_0000)
      irreducible
      q
      (modular_mult_poly 0x4000_0000 6 irreducible)
modular_mult_poly-Division_example =
    modular_mult_poly-Division 0x4000_0000 6 irreducible irreducible-HasDegree (omega arith)
      (omega arith)

-- x ^ 30 (x ^ 2 + x)
product_reduced : modular_mult_poly 0x4000_0000 6 irreducible ≡ 27
unfolding modular_mult_poly mod_loop double_mod
product_reduced = refl

find_mod-Division_example :
    (r q : ℕ) × (find_mod (5 ∷ 128 ∷ []) 19 ≡ some r) × Division (bytes_value (5 ∷ 128 ∷ [])) 19 q r
find_mod-Division_example =
    find_mod-Division (5 ∷ 128 ∷ []) 19 (omega arith, (omega arith, tt)) (omega arith) (omega arith)

-- x ^ 15 + x ^ 2 + 1 modulo x ^ 4 + x + 1
bytes_reduced : find_mod (5 ∷ 128 ∷ []) 19 ≡ some 4
unfolding find_mod degree_loop find_bytes find_bits find_bit double_mod
bytes_reduced = refl
