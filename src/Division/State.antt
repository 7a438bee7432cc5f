-- ===== src/Division/State.antt =====
-- The state of the loop of `remainder` and `quotient`, and what reading a bit does to it.
use Prim.Native.Nat.{bit_xor, bit_and}
use mathlib.Core.Path.{subst}
use xgossip.Prelude.{
  ℕ, zero, suc, ◌+◌, ◌*◌, ◌^◌, ◌<◌, ◌≡◌, refl, sym, ap, ◌∙◌, arith, not, ◌==◌, if◌then◌else◌, [],
  ◌∷◌, ◌++◌, length, All,
}
use xgossip.Sig.{Sig}
use xgossip.Poly.Multiply.{IsWord, value}
use xgossip.Division.{Dividing, divide_bit}
use xgossip.Division.Digits.{HasDegree}
use xgossip.Division.Long.{bit_at, after_round, after_round_bound, long_division}
use xgossip.Division.Shift.{times_le}
use xgossip.Division.Right.{Frame}
use xgossip.Division.Rounds.{mask_bit, Divided, divide_bit-Divided}

-- The state before the bit s + d = 32 m + b of the dividend, with s + 1 rounds to go.
pub record Going (d g m b s v : ℕ) (x : Dividing) : Type 0 where
  pub zeros : All (λ z. z ≡ 0) x.front
  pub words : All IsWord x.rest
  pub size : length x.rest ≡ suc m
  pub number : value x.rest ≡ v
  pub bound : v < 2 ^ suc (s + d)
  pub place : s + d ≡ 32 * m + b
  pub small : b < 32
  pub mask : x.mask ≡ 2 ^ b
  pub divisor : Frame (suc m) (g * 2 ^ s) x.gtemp
  pub q_words : All IsWord x.q
  pub q_some : 0 < length x.q

-- The end of the loop after n rounds on the number v, with the quotient so far.
pub record Outcome (d g n v q : ℕ) (y : Dividing) : Type 0 where
  pub remainder : value (y.front ++ y.rest) ≡ (long_division d g n v).1
  pub words : All IsWord (y.front ++ y.rest)
  pub some_words : 0 < length (y.front ++ y.rest)
  pub quotient : value y.q ≡ q * 2 ^ n + (long_division d g n v).0
  pub q_words : All IsWord y.q

pub split : (ws : Sig) (m : ℕ) → length ws ≡ suc m → (w : ℕ) × (vs : Sig) × (ws ≡ w ∷ vs)
split [] m e = absurd (omega (arith, e))
split (w ∷ ws) m e = (w, ws, refl)

pub positive : (m : ℕ) → 0 < m → (m' : ℕ) × (m ≡ suc m')
positive zero h = absurd (omega arith)
positive (suc m) h = (m, refl)

-- What a round has done when it has read its bit.
pub record Read (d g m b s v : ℕ) (x : Dividing) (w : ℕ) : Type 0 where
  pub divided :
      Divided x (bit_at (s + d) v) (g * 2 ^ s) (divide_bit x (not (bit_and w x.mask == 0)))
  pub number : value (divide_bit x (not (bit_and w x.mask == 0))).rest ≡ after_round d g s v
  pub bound : after_round d g s v < 2 ^ (s + d)

pub Going-Read :
    (d g m b s v : ℕ) (x : Dividing) (w : ℕ) (ws : Sig)
    → HasDegree d g
    → Going d g m b s v x
    → x.rest ≡ w ∷ ws
    → Read d g m b s v x w
Going-Read d g m b s v x w ws h st e =
    let bit : not (bit_and w x.mask == 0) ≡ bit_at (s + d) v =
      ap (λ z. not (bit_and w z == 0)) st.mask
      ∙ mask_bit m b w ws (s + d) (subst (All IsWord) e st.words).1
          (omega (arith, st.size, ap length e)) st.place
      ∙ ap (bit_at (s + d)) (ap value (sym e) ∙ st.number) in
    let y = divide_bit x (not (bit_and w x.mask == 0)) in
    let done : Divided x (bit_at (s + d) v) (g * 2 ^ s) y =
      subst (λ t. Divided x t (g * 2 ^ s) y) bit
        (divide_bit-Divided x (not (bit_and w x.mask == 0)) (g * 2 ^ s) st.words
          (subst (λ n. Frame n (g * 2 ^ s) x.gtemp) (sym st.size) st.divisor) st.q_words
          st.q_some) in
    record {
      divided = done;
      number =
          done.number ∙ ap (λ z. if bit_at (s + d) v then bit_xor z (g * 2 ^ s) else z) st.number;
      bound = after_round_bound d g s v h st.bound;
    }

pub first_zero :
    (m w : ℕ) (vs : Sig) (v : ℕ)
    → length vs ≡ m
    → value (w ∷ vs) ≡ v
    → v < 2 ^ (32 * m)
    → (w ≡ 0) × (value vs ≡ v)
unfolding value
first_zero m zero vs v l e b = (refl, omega (arith, e))
first_zero m (suc w) vs v l e b = absurd (
    omega (
      arith,
      e,
      b,
      times_le 1 (suc w) (2 ^ (32 * length vs)) (omega arith),
      ap (λ z. 2 ^ (32 * z)) l,
    ))
