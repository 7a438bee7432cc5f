-- ===== src/Division/Quotient.antt =====
-- `remainder` and `quotient` are the division of the polynomials that their words stand for.
use Prim.Native.Nat.{bit_xor}
use xgossip.Prelude.{
  ℕ, zero, suc, ◌+◌, ◌-◌, ◌*◌, ◌^◌, ◌≤◌, ◌<◌, ◌≡◌, refl, ap, ◌∙◌, arith, true, false, some, ◌==◌,
  ◌⊎◌, Bool-cases, inl, inr, [], ◌∷◌, ◌++◌, length, All,
}
use xgossip.Sig.{Sig}
use xgossip.Poly.Xor.{zero-bit_xor}
use xgossip.Poly.Multiply.{IsWord, value, pow_grows, gf2_mul, zero-gf2_mul}
use xgossip.Division.{word_degree, degree, Dividing, erase_leading, is_lower, remainder, quotient}
use xgossip.Division.Digits.{HasDegree, degree_loop_lem}
use xgossip.Division.Long.{long_division, long_division_bound, long_division_lem}
use xgossip.Division.State.{Outcome}
use xgossip.Division.Remainder.{
  IsPoly, Sizes, d, s, divisor_top, divide_lem, dividend_bound, words-HasDegree,
}

-- The polynomials q and r with f = q g + r, where r is of lower degree than g.
pub record Division (f g q r : ℕ) : Type 0 where
  pub n : ℕ
  pub q_bound : q < 2 ^ n
  pub degree : ℕ
  pub g_degree : HasDegree degree g
  pub r_bound : r < 2 ^ degree
  pub sum : bit_xor (gf2_mul n q g) r ≡ f

suc_test : (w : ℕ) → (suc w == 0) ≡ false
suc_test w = ground arith

-- What is left of the words when those that are 0 are erased.
unfoldable pub IsNormal : Sig → Type 0
IsNormal r = (r ≡ 0 ∷ []) ⊎ IsPoly r

pub erase_leading_lem :
    (w : ℕ) (ws : Sig)
    → All IsWord (w ∷ ws)
    → (value (erase_leading (w ∷ ws)) ≡ value (w ∷ ws)) × IsNormal (erase_leading (w ∷ ws))
unfolding erase_leading value IsNormal IsPoly
erase_leading_lem zero [] a = (refl, inl refl)
erase_leading_lem (suc w) [] a = (refl, inr (omega arith, a))
erase_leading_lem zero (v ∷ ws) a = let (e, n) = erase_leading_lem v ws a.1 in (e ∙ omega arith, n)
erase_leading_lem (suc w) (v ∷ ws) a = rw (suc_test w) (refl, inr (omega arith, a))

polys-Sizes :
    (f g : ℕ) (fs gs : Sig)
    → IsPoly (f ∷ fs)
    → IsPoly (g ∷ gs)
    → (jf jg : ℕ) × (word_degree f ≡ suc jf)
      × (word_degree g ≡ suc jg)
      × (jf < 32)
      × (jg < 32)
      × HasDegree jf f
      × HasDegree jg g
unfolding IsPoly
polys-Sizes f g fs gs a b =
    let (jf, ef, lf, hf) = degree_loop_lem 32 f a.1.0 a.0 in
    let (jg, eg, lg, hg) = degree_loop_lem 32 g b.1.0 b.0 in (jf, jg, ef, eg, lf, lg, hf, hg)

-- What division gives, where the degree of f is not below that of g.
pub record Results (f g : Sig) (q r : Sig) : Type 0 where
  pub quotient_some : quotient f g ≡ some q
  pub remainder_some : remainder f g ≡ some r
  pub normal : IsNormal r
  pub q_words : All IsWord q
  pub division : Division (value f) (value g) (value q) (value r)

not_lower_sizes :
    (f g : ℕ) (fs gs : Sig) (jf jg : ℕ)
    → word_degree f ≡ suc jf
    → word_degree g ≡ suc jg
    → is_lower (f ∷ fs) (g ∷ gs) ≡ false
    → 32 * length gs + jg ≤ 32 * length fs + jf
unfolding is_lower degree
not_lower_sizes f g fs gs jf jg ef eg h = ground (arith, ef, eg)

erased :
    (ws : Sig)
    → 0 < length ws
    → All IsWord ws
    → (value (erase_leading ws) ≡ value ws) × IsNormal (erase_leading ws)
erased [] p a = absurd (omega arith)
erased (w ∷ ws) p a = erase_leading_lem w ws a

Outcome-Division :
    (d g n v : ℕ) (y : Dividing) (r : ℕ)
    → HasDegree d g
    → v < 2 ^ (n + d)
    → Outcome d g n v 0 y
    → r ≡ value (y.front ++ y.rest)
    → Division v g (value y.q) r
Outcome-Division d g n v y r h b o e =
    let (qb, rb) = long_division_bound d g n v h b in
    let eq : value y.q ≡ (long_division d g n v).0 = o.quotient ∙ omega arith in
    let er : r ≡ (long_division d g n v).1 = e ∙ o.remainder in
    record {
      n = n;
      q_bound = omega (arith, qb, eq);
      degree = d;
      g_degree = h;
      r_bound = omega (arith, rb, er);
      sum =
          ap (λ x. bit_xor (gf2_mul n x g) r) eq
          ∙ ap (bit_xor (gf2_mul n (long_division d g n v).0 g)) er
          ∙ long_division_lem d g n v h b;
    }

higher-Results :
    (f g : ℕ) (fs gs : Sig)
    → IsPoly (f ∷ fs)
    → IsPoly (g ∷ gs)
    → is_lower (f ∷ fs) (g ∷ gs) ≡ false
    → (q r : Sig) × Results (f ∷ fs) (g ∷ gs) q r
unfolding IsPoly remainder quotient
higher-Results f g fs gs a b h =
    let (jf, jg, ef, eg, lf, lg, hf, hg) = polys-Sizes f g fs gs a b in
    let z : Sizes f g fs gs jf jg = record {
      f_degree = ef;
      g_degree = eg;
      f_small = lf;
      g_small = lg;
      f_top = hf;
      g_top = hg;
      f_words = a.1;
      g_words = b.1;
      not_lower = not_lower_sizes f g fs gs jf jg ef eg h;
    } in
    let (y, p, o) = divide_lem f g fs gs jf jg z in
    let top = divisor_top f g fs gs jf jg z in
    let bound = dividend_bound f g fs gs jf jg z in
    let (e, n) = erased (y.front ++ y.rest) o.some_words o.words in
    (
      y.q,
      erase_leading (y.front ++ y.rest),
      record {
        quotient_some = rw (h, p) refl;
        remainder_some = rw (h, p) refl;
        normal = n;
        q_words = o.q_words;
        division =
            Outcome-Division (d f g fs gs jf jg z) (value (g ∷ gs)) (suc (s f g fs gs jf jg z))
              (value (f ∷ fs)) y (value (erase_leading (y.front ++ y.rest))) top bound o e;
      },
    )

-- Where the degree of f is not below that of g, `quotient` and `remainder` both end, with the
-- polynomials q and r of f = q g + r in which r is of lower degree than g.
pub quotient-Results :
    (f g : Sig) → IsPoly f → IsPoly g → is_lower f g ≡ false → (q r : Sig) × Results f g q r
unfolding IsPoly
quotient-Results [] g a b h = absurd a
quotient-Results (f ∷ fs) [] a b h = absurd b
quotient-Results (f ∷ fs) (g ∷ gs) a b h = higher-Results f g fs gs a b h

lower-Division :
    (f g : ℕ) (fs gs : Sig)
    → IsPoly (f ∷ fs)
    → IsPoly (g ∷ gs)
    → is_lower (f ∷ fs) (g ∷ gs) ≡ true
    → Division (value (f ∷ fs)) (value (g ∷ gs)) 0 (value (f ∷ fs))
unfolding IsPoly is_lower degree
lower-Division f g fs gs a b h =
    let (jf, jg, ef, eg, lf, lg, hf, hg) = polys-Sizes f g fs gs a b in
    let k = 32 * length fs + jf in
    let d = 32 * length gs + jg in
    let below : suc k ≤ d = ground (arith, ef, eg) in
    record {
      n = 0;
      q_bound = omega arith;
      degree = d;
      g_degree = words-HasDegree g jg gs hg b.1.1;
      r_bound = omega (
        arith,
        (words-HasDegree f jf fs hf a.1.1).below,
        pow_grows (d - suc k) (suc k),
        ap (λ x. 2 ^ x) {x = d - suc k + suc k} {y = d} (omega (arith, below)),
      );
      sum =
          ap (λ x. bit_xor x (value (f ∷ fs))) (zero-gf2_mul 0 (value (g ∷ gs)))
          ∙ zero-bit_xor (value (f ∷ fs));
    }

lower_or_not :
    (f g : ℕ) (fs gs : Sig)
    → IsPoly (f ∷ fs)
    → IsPoly (g ∷ gs)
    → (r : Sig) × (remainder (f ∷ fs) (g ∷ gs) ≡ some r)
      × IsNormal r
      × (q : ℕ) × Division (value (f ∷ fs)) (value (g ∷ gs)) q (value r)
unfolding remainder IsNormal
lower_or_not f g fs gs a b = elim (Bool-cases (is_lower (f ∷ fs) (g ∷ gs))) [
  | inl h ↦ (f ∷ fs, rw h refl, inr a, 0, lower-Division f g fs gs a b h)
  | inr h ↦
      let (q, r, x) = higher-Results f g fs gs a b h in
      (r, x.remainder_some, x.normal, value q, x.division)
]

-- `remainder` ends for all f and g other than 0, with an r of lower degree than g, without leading
-- words 0, to which g times some polynomial adds f.
pub remainder-Division :
    (f g : Sig)
    → IsPoly f
    → IsPoly g
    → (r : Sig) × (remainder f g ≡ some r)
      × IsNormal r
      × (q : ℕ) × Division (value f) (value g) q (value r)
unfolding IsPoly
remainder-Division [] g a b = absurd a
remainder-Division (f ∷ fs) [] a b = absurd b
remainder-Division (f ∷ fs) (g ∷ gs) a b = lower_or_not f g fs gs a b
