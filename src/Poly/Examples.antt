-- ===== src/Poly/Examples.antt =====
-- The tests of the module.
use xgossip.Prelude.{◌*◌, ◌≡◌, refl, [], ◌∷◌, length, arith}
use xgossip.Sig.{Sig}
use xgossip.Poly.{mult_poly, mult_polys, add_poly, mult_words, word_loop, backwards, add_low}
use xgossip.Poly.Multiply.{value, gf2_mul}
use xgossip.Poly.Product.{mult_polys-gf2_mul}

-- x ^ 63 + x and x ^ 31 + 1
abbrev long : Sig
long = 0x8000_0000 ∷ 2 ∷ []

abbrev high : Sig
high = 0x8000_0001 ∷ []

mult_polys-gf2_mul_example :
    value (mult_polys [] long high) ≡ gf2_mul (32 * length high) (value high) (value long)
mult_polys-gf2_mul_example =
    mult_polys-gf2_mul long high (omega arith, (omega arith, tt)) (omega arith, tt)

mult_polys_carries : mult_polys [] long high ≡ 0x4000_0000 ∷ 0x8000_0001 ∷ 2 ∷ []
unfolding mult_polys add_poly mult_poly mult_words word_loop backwards add_low
mult_polys_carries = refl
