-- ===== src/Division/Frames.antt =====
-- What `shiftRight` and the exclusive or of a division step do to words in a frame.
use Prim.Native.Nat.{bit_xor}
use mathlib.Core.Path.{subst}
use xgossip.Prelude.{
  ℕ, suc, ◌+◌, ◌*◌, ◌^◌, ◌≤◌, ◌<◌, ◌≡◌, refl, sym, ap, ◌∙◌, arith, ◌==◌, Bool-cases, inl, inr, [],
  ◌∷◌, length, All, ==_iff,
}
use xgossip.Sig.{Sig}
use xgossip.Poly.Xor.{bit_xor_split, bit_xor_bound, bit_xor-zero, zero-bit_xor}
use xgossip.Poly.Multiply.{IsWord, value, value_bound}
use xgossip.Division.{right_words, erase_first, shift_right, xor_words}
use xgossip.Division.Digits.{pow_pos}
use xgossip.Division.Shift.{times_lt, times_le, not_32}
use xgossip.Division.Right.{Frame, divided-Frame, pow_words}

-- The first word of a frame, and the frame of the others.
pub record Tail (m t w : ℕ) (ws : Sig) : Type 0 where
  pub rest : ℕ
  pub frame : Frame m rest ws
  pub low : rest < 2 ^ (32 * m)
  pub sum : t ≡ w * 2 ^ (32 * m) + rest

tail_parts : (w a b m v : ℕ) → a * b ≡ m → (w * a + v) * b ≡ w * m + v * b
tail_parts w a b m v e = grind arith

pub cons-Tail : (m t w : ℕ) (ws : Sig) → Frame (suc m) t (w ∷ ws) → Tail m t w ws
unfolding value
cons-Tail m t w ws f =
    let framed : length ws + f.free ≡ m = omega (arith, f.framed) in
    let size = sym (pow_words (length ws) f.free) ∙ ap (λ z. 2 ^ (32 * z)) framed in
    record {
      rest = value ws * 2 ^ (32 * f.free);
      frame = record { free = f.free; framed = framed; number = refl; words = f.words.1 };
      low = omega (
        arith,
        size,
        times_lt (value ws) (2 ^ (32 * length ws)) (2 ^ (32 * f.free)) (value_bound ws f.words.1)
            (pow_pos (32 * f.free)),
      );
      sum =
          sym f.number
          ∙ tail_parts w (2 ^ (32 * length ws)) (2 ^ (32 * f.free)) (2 ^ (32 * m)) (value ws) size;
    }

no_words : (m t : ℕ) → Frame m t [] → t ≡ 0
unfolding value
no_words m t f = sym f.number ∙ omega arith

erase_keeps :
    (m y : ℕ) (ws : Sig) → Frame (suc m) y ws → 2 ^ (32 * m) ≤ y → Frame (suc m) y (erase_first ws)
unfolding erase_first
erase_keeps m y [] f b = f
erase_keeps m y (w ∷ ws) f b = elim (Bool-cases (w == 0)) [
  | inl z ↦
      let t = cons-Tail m y w ws f in
      absurd (omega (arith, t.sum, t.low, ap (λ x. x * 2 ^ (32 * m)) ((==_iff w 0).0 z), b))
  | inr z ↦ rw z f
]

erase_drops :
    (m y : ℕ) (ws : Sig)
    → Frame (suc m) y ws
    → 0 < y
    → y < 2 ^ (32 * m)
    → Frame m y (erase_first ws)
unfolding erase_first
erase_drops m y [] f p b = absurd (omega (arith, no_words (suc m) y f, p))
erase_drops m y (w ∷ ws) f p b =
    let t = cons-Tail m y w ws f in
    elim (Bool-cases (w == 0)) [
      | inl z ↦ rw z (
          subst (λ x. Frame m x ws)
            (omega (arith, t.sum, ap (λ x. x * 2 ^ (32 * m)) ((==_iff w 0).0 z))) t.frame)
      | inr z ↦ absurd (omega (arith, t.sum, times_le 1 w (2 ^ (32 * m)) (ground arith), b))
    ]

-- A shift by n bits keeps the first word, if it does not become 0.
pub shift_right_keeps :
    (n m y t : ℕ) (ws : Sig)
    → n < 32
    → Frame (suc m) t ws
    → t ≡ y * 2 ^ n
    → 2 ^ (32 * m) ≤ y
    → Frame (suc m) y (shift_right ws n)
unfolding shift_right
shift_right_keeps n m y t ws l f e b = elim (Bool-cases (n == 0)) [
  | inl z ↦ rw z (
      subst (λ x. Frame (suc m) x ws) (e ∙ omega (arith, ap (λ x. y * 2 ^ x) ((==_iff n 0).0 z))) f)
  | inr z ↦
      rw (z, not_32 n l)
        (erase_keeps m y (right_words n 0 ws) (divided-Frame n (suc m) y t ws l f e) b)
]

-- A shift by one bit that makes it 0 erases it.
pub shift_right_drops :
    (m y : ℕ) (ws : Sig)
    → Frame (suc m) (y * 2) ws
    → 0 < y
    → y < 2 ^ (32 * m)
    → Frame m y (shift_right ws 1)
unfolding shift_right
shift_right_drops m y ws f p b =
    erase_drops m y (right_words 1 0 ws) (divided-Frame 1 (suc m) y (y * 2) ws (omega arith) f refl)
      p b

zero_framed : (t : ℕ) (gs : Sig) → Frame 0 t gs → t ≡ 0
zero_framed t [] f = no_words 0 t f
zero_framed t (g ∷ gs) f = absurd (omega (arith, f.framed))

-- The words of a dividend with those of a divisor in their frame.
pub xor_words-Frame :
    (ws : Sig) (t : ℕ) (gs : Sig)
    → All IsWord ws
    → Frame (length ws) t gs
    → (value (xor_words ws gs) ≡ bit_xor (value ws) t)
      × All IsWord (xor_words ws gs)
      × (length (xor_words ws gs) ≡ length ws)
unfolding xor_words value
xor_words-Frame [] t gs a f = (sym (zero-bit_xor t ∙ zero_framed t gs f), tt, refl)
xor_words-Frame (w ∷ ws) t [] a f =
    (sym (ap (bit_xor (value (w ∷ ws))) (no_words _ t f) ∙ bit_xor-zero (value (w ∷ ws))), a, refl)
xor_words-Frame (w ∷ ws) t (g ∷ gs) a f =
    let r = cons-Tail (length ws) t g gs f in
    let (e, b, l) = xor_words-Frame ws r.rest gs a.1 r.frame in
    let k = 32 * length ws in
    (
      ap (λ n. bit_xor w g * 2 ^ (32 * n) + value (xor_words ws gs)) l
          ∙ ap (λ z. bit_xor w g * 2 ^ k + z) e
          ∙ sym (bit_xor_split k w (value ws) g r.rest (value_bound ws a.1) r.low)
          ∙ ap (bit_xor (w * 2 ^ k + value ws)) (sym r.sum),
      (bit_xor_bound 32 w g a.0 f.words.0, b),
      ap suc l,
    )
