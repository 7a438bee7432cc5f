-- ===== src/Division/Gcd.antt =====
-- `gcd` ends, and finds a greatest common divisor.
use mathlib.Core.Path.{subst}
use xgossip.Prelude.{
  ℕ, zero, suc, ◌+◌, ◌-◌, ◌*◌, ◌^◌, ◌≤◌, ◌<◌, ◌≡◌, refl, sym, ap, ◌∙◌, arith, false, [], ◌∷◌, some,
  length, All, ◌⊎◌, Bool-cases, inl, inr,
}
use xgossip.Sig.{Sig}
use xgossip.Poly.Multiply.{IsWord, value, value_bound, pow_grows, times_pow_grows}
use xgossip.Division.{is_word, is_lower, remainder, gcd, gcd_special}
use xgossip.Division.Remainder.{IsPoly}
use xgossip.Division.Quotient.{IsNormal, Division, remainder-Division}
use xgossip.Division.Ideal.{
  Divides, Divides-zero, Divides-self, Divides-dividend, Divides-remainder,
}

-- A polynomial that divides two others, and that all which divide these divide.
pub record IsGcd (f g h : ℕ) : Type 0 where
  pub divides_f : Divides h f
  pub divides_g : Divides h g
  pub greatest : (e : ℕ) → Divides e f → Divides e g → Divides e h

poly_positive : (g : Sig) → IsPoly g → 0 < value g
unfolding IsPoly value
poly_positive [] a = absurd a
poly_positive (w ∷ ws) a = omega (arith, a.0, times_pow_grows (32 * length ws) w)

not_word_zero : (g : Sig) → IsPoly g → is_word 0 g ≡ false
unfolding IsPoly is_word
not_word_zero [] a = absurd a
not_word_zero (w ∷ []) a = ground (arith, a.0)
not_word_zero (w ∷ v ∷ ws) a = refl

gcd-zero : (n : ℕ) (f : Sig) → gcd (suc n) f (0 ∷ []) ≡ some f
unfolding gcd is_word
gcd-zero n f = refl

gcd-remainder :
    (n : ℕ) (f g r : Sig)
    → is_word 0 g ≡ false
    → remainder f g ≡ some r
    → gcd (suc n) f g ≡ gcd n g r
unfolding gcd
gcd-remainder n f g r e h = rw (gcd, e, h) refl

value-zero : value (0 ∷ []) ≡ 0
unfolding value
value-zero = refl

zero-IsGcd : (f g : ℕ) → g ≡ 0 → IsGcd f g f
zero-IsGcd f g z = record {
  divides_f = Divides-self f;
  divides_g = subst (λ x. Divides f x) (sym z) (Divides-zero f);
  greatest = λ e x y. x;
}

remainder-IsGcd : (f g q r h : ℕ) → Division f g q r → IsGcd g r h → IsGcd f g h
remainder-IsGcd f g q r h d x = record {
  divides_f = Divides-dividend f g q r h d x.divides_f x.divides_g;
  divides_g = x.divides_f;
  greatest = λ e y z. x.greatest e z (Divides-remainder f g q r e d y z);
}

at_most_or_above : (a b : ℕ) → (a ≤ b) ⊎ (b < a)
at_most_or_above a b = omega arith

-- A remainder has fewer digits than its divisor.
fewer_digits : (f g q r n : ℕ) → Division f g q r → g < 2 ^ suc n → r < 2 ^ n
fewer_digits f g q r n d l = elim (at_most_or_above d.degree n) [
  | inl h ↦ omega (
    arith,
    d.r_bound,
    pow_grows (n - d.degree) d.degree,
    ap (λ x. 2 ^ x) {x = n - d.degree + d.degree} {y = n} (omega (arith, h)),
  )
  | inr h ↦ absurd (
      omega (
        arith,
        l,
        d.g_degree.above,
        pow_grows (d.degree - suc n) (suc n),
        ap (λ x. 2 ^ x) {x = d.degree - suc n + suc n} {y = d.degree} (omega (arith, h)),
      ))
]

-- Each call has a divisor of lower degree: one call more than it has digits is enough.
pub gcd_lem :
    (n : ℕ) (f g : Sig)
    → IsPoly f
    → IsNormal g
    → value g < 2 ^ n
    → (h : Sig) × (gcd (suc n) f g ≡ some h) × IsPoly h × IsGcd (value f) (value g) (value h)
unfolding IsNormal
gcd_lem n f g a (inl z) l = (
  f,
  ap (gcd (suc n) f) z ∙ gcd-zero n f,
  a,
  zero-IsGcd (value f) (value g) (ap value z ∙ value-zero),
)
gcd_lem zero f g a (inr b) l = absurd (omega (arith, l, poly_positive g b))
gcd_lem (suc n) f g a (inr b) l =
    let (r, e, c, q, d) = remainder-Division f g a b in
    let (h, p, i, x) = gcd_lem n g r b c (fewer_digits (value f) (value g) q (value r) n d l) in
    (
      h,
      gcd-remainder (suc n) f g r (not_word_zero g b) e ∙ p,
      i,
      remainder-IsGcd (value f) (value g) q (value r) (value h) d x,
    )

IsGcd-comm : (f g h : ℕ) → IsGcd f g h → IsGcd g f h
IsGcd-comm f g h x = record {
  divides_f = x.divides_g;
  divides_g = x.divides_f;
  greatest = λ e y z. x.greatest e z y;
}

-- The digits of some words are within those of more.
words_bound :
    (g : ℕ) (gs : Sig) (n : ℕ)
    → All IsWord (g ∷ gs)
    → 32 * length gs + 32 ≤ n
    → value (g ∷ gs) < 2 ^ n
words_bound g gs n a l = omega (
  arith,
  value_bound (g ∷ gs) a,
  pow_grows (n - 32 * length (g ∷ gs)) (32 * length (g ∷ gs)),
  ap (λ x. 2 ^ x) {x = n - 32 * length (g ∷ gs) + 32 * length (g ∷ gs)} {y = n} (omega (arith, l)),
)

-- `gcdSpecial` ends for all f and g other than 0: the calls of `gcd` are at most as many as the fuel. What
-- it gives is a greatest common divisor of f and g, whichever is of lower degree.
pub gcd_special-IsGcd :
    (f g : Sig)
    → IsPoly f
    → IsPoly g
    → (h : Sig) × (gcd_special f g ≡ some h) × IsPoly h × IsGcd (value f) (value g) (value h)
unfolding gcd_special IsPoly IsNormal
gcd_special-IsGcd [] g a b = absurd a
gcd_special-IsGcd (f ∷ fs) [] a b = absurd b
gcd_special-IsGcd (f ∷ fs) (g ∷ gs) a b =
    let n = 32 * (length fs + length gs) + 65 in
    elim (Bool-cases (is_lower (f ∷ fs) (g ∷ gs))) [
      | inl h ↦
          let (d, e, i, x) =
            gcd_lem n (g ∷ gs) (f ∷ fs) b (inr a) (words_bound f fs n a.1 (omega arith)) in
          (
            d,
            rw h (
                ap (λ k. gcd k (g ∷ gs) (f ∷ fs)) {x = 32 * (length fs + length gs) + 66}
                  {y = suc n} (omega arith)
                ∙ e),
            i,
            IsGcd-comm (value (g ∷ gs)) (value (f ∷ fs)) (value d) x,
          )
      | inr h ↦
          let (d, e, i, x) =
            gcd_lem n (f ∷ fs) (g ∷ gs) a (inr b) (words_bound g gs n b.1 (omega arith)) in
          (
            d,
            rw h (
                ap (λ k. gcd k (f ∷ fs) (g ∷ gs)) {x = 32 * (length fs + length gs) + 66}
                  {y = suc n} (omega arith)
                ∙ e),
            i,
            x,
          )
    ]
