-- ===== src/Division/Remainder.antt =====
-- `remainder` and `quotient` divide the polynomials that their words stand for.
use mathlib.Core.Path.{subst}
use xgossip.Prelude.{
  ℕ, suc, ◌+◌, ◌-◌, ◌*◌, ◌^◌, ◌≤◌, ◌<◌, ◌≡◌, refl, sym, ap, ◌∙◌, arith, false, some, ◌==◌, ◌||◌,
  ltb, Bool-cases, inl, inr, [], ◌∷◌, length, All,
}
use xgossip.Sig.{Sig}
use xgossip.Poly.Xor.{pow_suc}
use xgossip.Poly.Multiply.{IsWord, value, value_bound, pow_add, pow_grows}
use xgossip.Division.{
  word_degree, degree, Dividing, aligned, divide_loop, divide, shift_left, shift_right,
}
use xgossip.Division.Digits.{HasDegree}
use xgossip.Division.Long.{shift-HasDegree}
use xgossip.Division.Shift.{times_comm, times_le, suc_times, shift_left_lem, shift_left_fits}
use xgossip.Division.Right.{Frame}
use xgossip.Division.Frames.{shift_right_keeps}
use xgossip.Division.State.{Going, Outcome}
use xgossip.Division.Loop.{Ends, divide_loop_lem}

-- 32-bit words, of which the first is not 0: a polynomial other than 0.
unfoldable pub IsPoly : Sig → Type 0
IsPoly [] = ⊥
IsPoly (w ∷ ws) = (0 < w) × All IsWord (w ∷ ws)

times_assoc : (v a b : ℕ) → v * a * b ≡ v * (a * b)
times_assoc v a b = grind arith

double_times : (a b : ℕ) → a * 2 * b ≡ a * b * 2
double_times a b = grind arith

times_pow_add : (v a b : ℕ) → v * 2 ^ a * 2 ^ b ≡ v * 2 ^ (a + b)
times_pow_add v a b = times_assoc v (2 ^ a) (2 ^ b) ∙ ap (λ z. v * z) (sym (pow_add a b))

-- The degree of the first word is that of the number.
pub words-HasDegree :
    (w j : ℕ) (ws : Sig)
    → HasDegree j w
    → All IsWord ws
    → HasDegree (32 * length ws + j) (value (w ∷ ws))
unfolding value
words-HasDegree w j ws h a =
    let n = 32 * length ws in
    let b = value_bound ws a in
    record {
      above =
          omega
            (arith, pow_add n j, times_comm (2 ^ n) (2 ^ j), times_le (2 ^ j) w (2 ^ n) h.above);
      below = omega (
        arith,
        pow_suc (n + j),
        pow_add n j,
        times_comm (2 ^ n) (2 ^ j),
        pow_suc j,
        times_le (suc w) (2 ^ suc j) (2 ^ n) h.below,
        suc_times w (2 ^ n),
        double_times (2 ^ j) (2 ^ n),
        ap (λ z. z * 2 ^ n) (pow_suc j),
        b,
      );
    }

-- Two polynomials, and the degrees of their first words.
pub record Sizes (f g : ℕ) (fs gs : Sig) (jf jg : ℕ) : Type 0 where
  pub f_degree : word_degree f ≡ suc jf
  pub g_degree : word_degree g ≡ suc jg
  pub f_small : jf < 32
  pub g_small : jg < 32
  pub f_top : HasDegree jf f
  pub g_top : HasDegree jg g
  pub f_words : All IsWord (f ∷ fs)
  pub g_words : All IsWord (g ∷ gs)
  pub not_lower : 32 * length gs + jg ≤ 32 * length fs + jf

module _ (f g : ℕ) (fs gs : Sig) (jf jg : ℕ) (z : Sizes f g fs gs jf jg) where
  unfoldable pub d : ℕ
  d = 32 * length gs + jg

  unfoldable pub s : ℕ
  s = 32 * length fs + jf - d

  pub divisor_top : HasDegree d (value (g ∷ gs))
  unfolding d
  divisor_top = words-HasDegree g jg gs z.g_top z.g_words.1

  left_aligned :
      jg < jf → Frame (suc (length fs)) (value (g ∷ gs) * 2 ^ s) (shift_left (g ∷ gs) (jf - jg))
  unfolding s d
  left_aligned l =
      let n = jf - jg in
      let v = value (g ∷ gs) in
      let (e, a) = shift_left_lem (g ∷ gs) n (omega (arith, z.f_small)) z.g_words in
      let fits : v * 2 ^ n < 2 ^ (32 * suc (length gs)) = omega (
        arith,
        (shift-HasDegree d n v divisor_top).below,
        pow_grows (31 - jf) (suc (n + d)),
        ap (λ x. 2 ^ x) {x = 31 - jf + suc (n + d)} {y = 32 * suc (length gs)}
            (omega (arith, l, z.f_small)),
      ) in
      record {
        free = length fs - length gs;
        framed = omega (
          arith,
          shift_left_fits (g ∷ gs) n (omega (arith, z.f_small)) z.g_words fits,
          z.not_lower,
          z.f_small,
        );
        number =
            ap (λ x. x * 2 ^ (32 * (length fs - length gs))) e
            ∙ times_pow_add v n (32 * (length fs - length gs))
            ∙ ap (λ x. v * 2 ^ x) (omega (arith, z.not_lower, z.f_small, l));
        words = a;
      }

  right_aligned :
      jf ≤ jg → Frame (suc (length fs)) (value (g ∷ gs) * 2 ^ s) (shift_right (g ∷ gs) (jg - jf))
  unfolding s d
  right_aligned l =
      let v = value (g ∷ gs) in
      shift_right_keeps (jg - jf) (length fs) (v * 2 ^ s) (v * 2 ^ (32 * (length fs - length gs)))
        (g ∷ gs) (omega (arith, z.g_small))
        (record {
          free = length fs - length gs;
          framed = omega (arith, z.not_lower, z.g_small);
          number = refl;
          words = z.g_words;
        })
        (ap (λ x. v * 2 ^ x) (omega (arith, z.not_lower, z.g_small, l))
          ∙ sym (times_pow_add v s (jg - jf)))
        (omega (
          arith,
          (shift-HasDegree d s v divisor_top).above,
          pow_grows jf (32 * length fs),
          ap (λ x. 2 ^ x) {x = s + d} {y = jf + 32 * length fs} (omega (arith, z.not_lower)),
        ))

  aligned-Frame :
      Frame
        (suc (length fs))
        (value (g ∷ gs) * 2 ^ s)
        (aligned (word_degree f) (word_degree g) (g ∷ gs))
  unfolding aligned
  aligned-Frame =
      rw (z.f_degree, z.g_degree)
        (elim (Bool-cases (ltb (suc jg) (suc jf))) [
          | inl e ↦ rw e (
              subst (λ n. Frame (suc (length fs)) (value (g ∷ gs) * 2 ^ s) (shift_left (g ∷ gs) n))
                (omega arith) (left_aligned (ground arith)))
          | inr e ↦ rw e (
              subst (λ n. Frame (suc (length fs)) (value (g ∷ gs) * 2 ^ s) (shift_right (g ∷ gs) n))
                (omega arith) (right_aligned (ground arith)))
        ])

  pub dividend_bound : value (f ∷ fs) < 2 ^ (suc s + d)
  unfolding s d
  dividend_bound = omega (
    arith,
    (words-HasDegree f jf fs z.f_top z.f_words.1).below,
    ap (λ x. 2 ^ x) {x = suc s + d} {y = suc (32 * length fs + jf)} (omega (arith, z.not_lower)),
  )

  start-Going : Going d (value (g ∷ gs)) (length fs) jf s (value (f ∷ fs)) (record {
    front = [];
    rest = f ∷ fs;
    gtemp = aligned (word_degree f) (word_degree g) (g ∷ gs);
    mask = 2 ^ (word_degree f - 1);
    q = 0 ∷ [];
  })
  unfolding s d
  start-Going = record {
    zeros = tt;
    words = z.f_words;
    size = refl;
    number = refl;
    bound = omega (
      arith,
      (words-HasDegree f jf fs z.f_top z.f_words.1).below,
      ap (λ x. 2 ^ suc x) {x = s + d} {y = 32 * length fs + jf} (omega (arith, z.not_lower)),
    );
    place = omega (arith, z.not_lower);
    small = z.f_small;
    mask = ap (λ n. 2 ^ (n - 1)) z.f_degree ∙ ap (λ n. 2 ^ n) (omega arith);
    divisor = aligned-Frame;
    q_words = (omega arith, tt);
    q_some = omega arith;
  }

  not_zero : ((word_degree f == 0) || (word_degree g == 0)) ≡ false
  not_zero = rw (z.f_degree, z.g_degree) (ground arith)

  start : Dividing
  start = record {
    front = [];
    rest = f ∷ fs;
    gtemp = aligned (word_degree f) (word_degree g) (g ∷ gs);
    mask = 2 ^ (word_degree f - 1);
    q = 0 ∷ [];
  }

  -- The loop runs to its end.
  pub divide_lem :
      (y : Dividing) × (divide (f ∷ fs) (g ∷ gs) ≡ some y)
      × Outcome d (value (g ∷ gs)) (suc s) (value (f ∷ fs)) 0 y
  unfolding divide degree Ends start value s d
  divide_lem =
      let (y, p, o) =
        divide_loop_lem d (value (g ∷ gs)) s (length fs) jf (value (f ∷ fs)) start divisor_top
          start-Going in
      (
        y,
        rw not_zero (
            ap (λ n. divide_loop n (length fs * 32 + word_degree f - 1) start)
              {x = length fs * 32 + word_degree f - (length gs * 32 + word_degree g) + 1}
              {y = suc s} (omega (arith, z.f_degree, z.g_degree, z.not_lower))
            ∙ ap (λ k. divide_loop (suc s) k start) {x = length fs * 32 + word_degree f - 1}
                {y = s + d} (omega (arith, z.f_degree, z.not_lower))
            ∙ p),
        o,
      )
