-- ===== src/Division/Examples.antt =====
-- The tests of the module.
use xgossip.Prelude.{ℕ, ◌≡◌, refl, [], ◌∷◌, some, false, arith}
use xgossip.Sig.{Sig}
use xgossip.Poly.{mult_poly, mult_polys, add_poly, mult_words, word_loop, backwards, add_low}
use xgossip.Poly.Multiply.{value}
use xgossip.Division.{
  degree_loop, degree, left_words, shift_left, right_words, erase_first, shift_right, xor_words,
  set_last, aligned, divide_bit, next_word, shift_divisor, divide_round, divide_loop, divide,
  erase_leading, is_lower, is_word, remainder, quotient, gcd, gcd_special, lcm,
}
use xgossip.Division.Remainder.{IsPoly}
use xgossip.Division.Quotient.{IsNormal, Division, Results, quotient-Results, remainder-Division}
use xgossip.Division.Gcd.{IsGcd, gcd_special-IsGcd}

-- x ^ 33 + x and x ^ 2 + 1
abbrev long : Sig
long = 2 ∷ 2 ∷ []

abbrev short : Sig
short = 5 ∷ []

long-IsPoly : IsPoly long
unfolding IsPoly
long-IsPoly = (omega arith, (omega arith, (omega arith, tt)))

short-IsPoly : IsPoly short
unfolding IsPoly
short-IsPoly = (omega arith, (omega arith, tt))

not_lower : is_lower long short ≡ false
unfolding is_lower degree degree_loop
not_lower = refl

quotient-Results_example : (q r : Sig) × Results long short q r
quotient-Results_example = quotient-Results long short long-IsPoly short-IsPoly not_lower

remainder-Division_example :
    (r : Sig) × (remainder short long ≡ some r)
    × IsNormal r
    × (q : ℕ) × Division (value short) (value long) q (value r)
remainder-Division_example = remainder-Division short long short-IsPoly long-IsPoly

gcd_special-IsGcd_example :
    (h : Sig) × (gcd_special long short ≡ some h)
    × IsPoly h
    × IsGcd (value long) (value short) (value h)
gcd_special-IsGcd_example = gcd_special-IsGcd long short long-IsPoly short-IsPoly

-- A remainder 0, from two words down to one.
divides : remainder long short ≡ some (0 ∷ [])
unfolding remainder degree degree_loop is_lower aligned divide divide_loop divide_round divide_bit
    next_word shift_divisor shift_left left_words shift_right right_words erase_first xor_words
    set_last erase_leading
divides = refl

-- x ^ 31 + x ^ 29 + ... + x, in one word
quotient_of_words : quotient long short ≡ some (0xaaaa_aaaa ∷ [])
unfolding quotient degree degree_loop is_lower aligned divide divide_loop divide_round divide_bit
    next_word shift_divisor shift_left left_words shift_right right_words erase_first xor_words
    set_last erase_leading
quotient_of_words = refl

common_multiple : lcm short long ≡ some long
unfolding lcm gcd_special gcd is_word quotient remainder mult_polys add_poly mult_poly mult_words
    word_loop backwards add_low degree degree_loop is_lower aligned divide divide_loop divide_round
    divide_bit next_word shift_divisor shift_left left_words shift_right right_words erase_first
    xor_words set_last erase_leading
common_multiple = refl
