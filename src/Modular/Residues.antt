-- ===== src/Modular/Residues.antt =====
-- Polynomials of which the difference is a multiple of z.
use Prim.Native.Nat.{bit_xor}
use mathlib.Core.Path.{subst}
use xgossip.Prelude.{
  ℕ, suc, ◌+◌, ◌-◌, ◌*◌, ◌%◌, ◌^◌, ◌<◌, ◌≡◌, sym, ap, ◌∙◌, arith, ltb, Bool-cases, inl, inr,
}
use xgossip.Poly.Xor.{
  pow_suc, bit_xor_double, bit_xor_assoc, bit_xor_comm, bit_xor-zero, bit_xor_interchange,
}
use xgossip.Poly.Multiply.{gf2_mul, gf2_mul-bit_xor, pow_grows}
use xgossip.Division.Digits.{HasDegree, mask_set, mask_clear, not_pow}
use xgossip.Division.Long.{bit_xor_self, first_bits_cancel}
use xgossip.Division.Quotient.{Division}
use xgossip.Division.Ideal.{
  Divides, Divides-zero, Divides-self, Divides-bit_xor, Divides-double, Divides-gf2_mul,
  cancel_first,
}
use xgossip.Modular.{double_mod}

unfoldable pub IsCongruent : ℕ → ℕ → ℕ → Type 0
IsCongruent z a b = Divides z (bit_xor a b)

pub IsCongruent-refl : (z a : ℕ) → IsCongruent z a a
unfolding IsCongruent
IsCongruent-refl z a = subst (Divides z) (sym (bit_xor_self a)) (Divides-zero z)

pub IsCongruent-sym : (z a b : ℕ) → IsCongruent z a b → IsCongruent z b a
unfolding IsCongruent
IsCongruent-sym z a b h = subst (Divides z) (bit_xor_comm a b) h

through : (a b c : ℕ) → bit_xor (bit_xor a b) (bit_xor b c) ≡ bit_xor a c
through a b c = bit_xor_assoc a b (bit_xor b c) ∙ ap (bit_xor a) (cancel_first b c)

pub IsCongruent-trans : (z a b c : ℕ) → IsCongruent z a b → IsCongruent z b c → IsCongruent z a c
unfolding IsCongruent
IsCongruent-trans z a b c h k = subst (Divides z) (through a b c) (Divides-bit_xor z _ _ h k)

pub IsCongruent-bit_xor :
    (z a b c e : ℕ)
    → IsCongruent z a b
    → IsCongruent z c e
    → IsCongruent z (bit_xor a c) (bit_xor b e)
unfolding IsCongruent
IsCongruent-bit_xor z a b c e h k =
    subst (Divides z) (bit_xor_interchange a b c e) (Divides-bit_xor z _ _ h k)

pub IsCongruent-gf2_mul :
    (n q z a b : ℕ) → IsCongruent z a b → IsCongruent z (gf2_mul n q a) (gf2_mul n q b)
unfolding IsCongruent
IsCongruent-gf2_mul n q z a b h =
    subst (Divides z) (gf2_mul-bit_xor n q a b) (Divides-gf2_mul n q z _ h)

pub IsCongruent-double : (z a b : ℕ) → IsCongruent z a b → IsCongruent z (2 * a) (2 * b)
unfolding IsCongruent
IsCongruent-double z a b h = subst (Divides z) (sym (bit_xor_double a b)) (Divides-double z _ h)

-- The residue of lower degree than z is that of the division.
pub IsCongruent-Division :
    (d z f r : ℕ) → HasDegree d z → r < 2 ^ d → IsCongruent z f r → (q : ℕ) × Division f z q r
unfolding IsCongruent
IsCongruent-Division d z f r h b c = (
  c.factor,
  record {
    n = c.n;
    q_bound = c.factor_bound;
    degree = d;
    g_degree = h;
    r_bound = b;
    sum =
        ap (λ p. bit_xor p r) c.product
        ∙ bit_xor_assoc f r r
        ∙ ap (bit_xor f) (bit_xor_self r)
        ∙ bit_xor-zero f;
  },
)

-- Two of the same first bit, which is taken from both.
top_taken : (x z t : ℕ) → bit_xor (bit_xor x t) (bit_xor z t) ≡ bit_xor x z
top_taken x z t =
    bit_xor_interchange x t z t ∙ ap (bit_xor (bit_xor x z)) (bit_xor_self t) ∙ bit_xor-zero _

pub IsCongruent-sum : (z x : ℕ) → IsCongruent z (bit_xor x z) x
unfolding IsCongruent
IsCongruent-sum z x =
    subst (Divides z) (sym (bit_xor_comm (bit_xor x z) x ∙ cancel_first x z)) (Divides-self z)

-- The step keeps residues below 2 ^ d, and doubles.
pub double_mod_lem :
    (d z x : ℕ)
    → d < 32
    → HasDegree d z
    → x < 2 ^ d
    → (double_mod (2 ^ d) (bit_xor z (2 ^ d)) x < 2 ^ d)
      × IsCongruent z (double_mod (2 ^ d) (bit_xor z (2 ^ d)) x) (2 * x)
unfolding double_mod
double_mod_lem d z x l h b =
    let fits : x * 2 % 2 ^ 32 ≡ 2 * x = omega (
      arith,
      b,
      pow_suc d,
      pow_grows (31 - d) (suc d),
      ap (λ e. 2 ^ e) {x = 31 - d + suc d} {y = 32} (omega (arith, l)),
    ) in
    rw fits (elim (Bool-cases (ltb (2 * x) (2 ^ d))) [
      | inl e ↦ rw (mask_clear d (2 * x) (ground arith)) (ground arith, IsCongruent-refl z (2 * x))
      | inr e ↦
          let t : HasDegree d (2 * x) = record {
            above = ground arith;
            below = omega (arith, b, pow_suc d);
          } in
          rw (mask_set d (2 * x) t, not_pow d, top_taken (2 * x) z (2 ^ d))
            (first_bits_cancel d (2 * x) z t h, IsCongruent-sum z (2 * x))
    ])
