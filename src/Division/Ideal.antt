-- ===== src/Division/Ideal.antt =====
-- Divisibility of polynomials over GF(2).
use Prim.Native.Nat.{bit_xor}
use mathlib.Core.Path.{subst}
use xgossip.Prelude.{
  ℕ, zero, suc, ◌+◌, ◌*◌, ◌/◌, ◌%◌, ◌^◌, ◌<◌, ◌≡◌, refl, sym, ap, ◌∙◌, arith, Bool, true, false,
  not, ◌==◌, if◌then◌else◌,
}
use xgossip.Poly.Xor.{
  pow_suc, bit_xor_bound, bit_xor_assoc, bit_xor-zero, zero-bit_xor, bit_xor_interchange,
  bit_xor_double, half, parity,
}
use xgossip.Poly.Multiply.{gf2_mul, zero-gf2_mul, pow_grows}
use xgossip.Poly.Product.{gf2_mul_digits, gf2_mul_step}
use xgossip.Division.Long.{bit_xor_self, one-gf2_mul}
use xgossip.Division.Quotient.{Division}

-- Some polynomial times e is x.
pub record Divides (e x : ℕ) : Type 0 where
  pub n : ℕ
  pub factor : ℕ
  pub factor_bound : factor < 2 ^ n
  pub product : gf2_mul n factor e ≡ x

-- More digits than the factor has.
more_digits : (m n q e : ℕ) → q < 2 ^ n → gf2_mul (n + m) q e ≡ gf2_mul n q e
more_digits m n q e l =
    ap (λ z. gf2_mul (n + m) z e) {x = q} {y = 0 * 2 ^ n + q} (omega arith)
    ∙ gf2_mul_digits m n 0 q e l
    ∙ ap (λ z. bit_xor (gf2_mul n q e) (z * 2 ^ n)) (zero-gf2_mul m e)
    ∙ ap (bit_xor (gf2_mul n q e)) {x = 0 * 2 ^ n} {y = 0} (omega arith)
    ∙ bit_xor-zero (gf2_mul n q e)

sum_picks :
    (t u v : Bool) (e : ℕ)
    → v ≡ (if t then not u else u)
    → bit_xor (if t then e else 0) (if u then e else 0) ≡ (if v then e else 0)
sum_picks true true v e h = rw h (bit_xor_self e)
sum_picks true false v e h = rw h (bit_xor-zero e)
sum_picks false true v e h = rw h (zero-bit_xor e)
sum_picks false false v e h = rw h refl

bit_sum :
    (p q e : ℕ)
    → bit_xor (if p % 2 == 1 then e else 0) (if q % 2 == 1 then e else 0)
      ≡ (if bit_xor p q % 2 == 1 then e else 0)
bit_sum p q e =
    sum_picks (p % 2 == 1) (q % 2 == 1) (bit_xor p q % 2 == 1) e (ground (arith, parity p q))

bit_xor-gf2_mul :
    (n p q e : ℕ) → bit_xor (gf2_mul n p e) (gf2_mul n q e) ≡ gf2_mul n (bit_xor p q) e
unfolding gf2_mul
bit_xor-gf2_mul zero p q e = refl
bit_xor-gf2_mul (suc n) p q e =
    bit_xor_interchange (if p % 2 == 1 then e else 0) (2 * gf2_mul n (p / 2) e)
      (if q % 2 == 1 then e else 0) (2 * gf2_mul n (q / 2) e)
    ∙ ap (λ z. bit_xor z (bit_xor (2 * gf2_mul n (p / 2) e) (2 * gf2_mul n (q / 2) e)))
        (bit_sum p q e)
    ∙ ap (bit_xor (if bit_xor p q % 2 == 1 then e else 0)) (
        bit_xor_double (gf2_mul n (p / 2) e) (gf2_mul n (q / 2) e)
        ∙ ap (λ z. 2 * z)
            (bit_xor-gf2_mul n (p / 2) (q / 2) e ∙ ap (λ z. gf2_mul n z e) (sym (half p q))))

pub Divides-zero : (e : ℕ) → Divides e 0
unfolding gf2_mul
Divides-zero e = record { n = 0; factor = 0; factor_bound = omega arith; product = refl }

pub Divides-self : (e : ℕ) → Divides e e
Divides-self e = record { n = 1; factor = 1; factor_bound = omega arith; product = one-gf2_mul e }

pub Divides-bit_xor : (e x y : ℕ) → Divides e x → Divides e y → Divides e (bit_xor x y)
Divides-bit_xor e x y a b = record {
  n = a.n + b.n;
  factor = bit_xor a.factor b.factor;
  factor_bound =
      bit_xor_bound (a.n + b.n) a.factor b.factor
        (omega (
          arith,
          a.factor_bound,
          pow_grows b.n a.n,
          ap (λ z. 2 ^ z) {x = b.n + a.n} {y = a.n + b.n} (omega arith),
        ))
        (omega (arith, b.factor_bound, pow_grows a.n b.n));
  product =
      sym (bit_xor-gf2_mul (a.n + b.n) a.factor b.factor e)
      ∙ ap (λ z. bit_xor z (gf2_mul (a.n + b.n) b.factor e))
          (more_digits b.n a.n a.factor e a.factor_bound ∙ a.product)
      ∙ ap (bit_xor x) (
          ap (λ n. gf2_mul n b.factor e) {x = a.n + b.n} {y = b.n + a.n} (omega arith)
          ∙ more_digits a.n b.n b.factor e b.factor_bound
          ∙ b.product);
}

pub Divides-double : (e x : ℕ) → Divides e x → Divides e (2 * x)
unfolding gf2_mul
Divides-double e x a = record {
  n = suc a.n;
  factor = 2 * a.factor;
  factor_bound = omega (arith, a.factor_bound, pow_suc a.n);
  product =
      gf2_mul_step a.n (2 * a.factor) e 0 a.factor (omega arith) (omega arith)
      ∙ zero-bit_xor (2 * gf2_mul a.n a.factor e)
      ∙ ap (λ z. 2 * z) a.product;
}

either : (t : Bool) (e x : ℕ) → Divides e x → Divides e (if t then x else 0)
either true e x a = a
either false e x a = Divides-zero e

-- A multiple of a multiple.
pub Divides-gf2_mul : (n q e x : ℕ) → Divides e x → Divides e (gf2_mul n q x)
unfolding gf2_mul
Divides-gf2_mul zero q e x a = Divides-zero e
Divides-gf2_mul (suc n) q e x a =
    Divides-bit_xor e (if q % 2 == 1 then x else 0) (2 * gf2_mul n (q / 2) x)
      (either (q % 2 == 1) e x a)
      (Divides-double e (gf2_mul n (q / 2) x) (Divides-gf2_mul n (q / 2) e x a))

pub cancel_first : (m r : ℕ) → bit_xor m (bit_xor m r) ≡ r
cancel_first m r =
    sym (bit_xor_assoc m m r) ∙ ap (λ z. bit_xor z r) (bit_xor_self m) ∙ zero-bit_xor r

-- What divides the divisor and the remainder divides the dividend, and the other way round.
pub Divides-dividend : (f g q r e : ℕ) → Division f g q r → Divides e g → Divides e r → Divides e f
Divides-dividend f g q r e d a b =
    subst (Divides e) d.sum (Divides-bit_xor e (gf2_mul d.n q g) r (Divides-gf2_mul d.n q e g a) b)

pub Divides-remainder : (f g q r e : ℕ) → Division f g q r → Divides e f → Divides e g → Divides e r
Divides-remainder f g q r e d a b =
    subst (Divides e)
      (ap (bit_xor (gf2_mul d.n q g)) (sym d.sum) ∙ cancel_first (gf2_mul d.n q g) r)
      (Divides-bit_xor e (gf2_mul d.n q g) f (Divides-gf2_mul d.n q e g b) a)
