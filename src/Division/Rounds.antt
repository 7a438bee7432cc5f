-- ===== src/Division/Rounds.antt =====
-- One round of the loop of `remainder` and `quotient`: the bit that it reads, the words that it
-- writes and the bit that it pushes.
use Prim.Native.Nat.{bit_xor, bit_or, bit_and}
use mathlib.Core.List.{append_assoc}
use native.Mathlib.Nat.{div-div-eq-div-mul, div-eq_of_lt-le}
use xgossip.Prelude.{
  ℕ, suc, ◌+◌, ◌*◌, ◌/◌, ◌%◌, ◌^◌, ◌<◌, ◌≡◌, refl, sym, ap, ◌∙◌, arith, Bool, true, false, not,
  ◌==◌, if◌then◌else◌, Bool-cases, inl, inr, [], ◌∷◌, ◌++◌, length, All, ==_iff,
}
use xgossip.Sig.{Sig}
use xgossip.Poly.Multiply.{IsWord, value, value_bound, pow_add, pow_block}
use xgossip.Division.{shift_left, set_last, Dividing, divide_bit, next_word}
use xgossip.Division.Digits.{pow_pos, bit_and-pow, bit_or_disjoint}
use xgossip.Division.Long.{bit_at}
use xgossip.Division.Shift.{shift_left_lem, times_le, length-shift_left}
use xgossip.Division.Right.{Frame}
use xgossip.Division.Frames.{xor_words-Frame}

plus_one : (w m : ℕ) → (w + 1) * m ≡ w * m + m
plus_one w m = grind arith

zero_test : (x m : ℕ) → 0 < m → (x % 2 * m == 0) ≡ (x % 2 == 0)
zero_test x m p = elim (Bool-cases (x % 2 == 0)) [
  | inl e ↦ ground (arith, ap (λ z. z * m) ((==_iff (x % 2) 0).0 e))
  | inr e ↦ ground (arith, times_le 1 (x % 2) m (ground arith))
]

first_word : (w m v x : ℕ) → x ≡ w * 2 ^ (32 * m) + v → v < 2 ^ (32 * m) → x / 2 ^ (32 * m) ≡ w
first_word w m v x e l =
    div-eq_of_lt-le (2 ^ (32 * m)) (omega (arith, e))
      (omega (arith, e, plus_one w (2 ^ (32 * m)), l))

-- `r[i] & bitMask` reads the bit that long division reads.
pub mask_bit :
    (m b w : ℕ) (ws : Sig) (k : ℕ)
    → All IsWord ws
    → length ws ≡ m
    → k ≡ 32 * m + b
    → not (bit_and w (2 ^ b) == 0) ≡ bit_at k (value (w ∷ ws))
unfolding value
mask_bit m b w ws k a l e =
    let size : 2 ^ k ≡ 2 ^ (32 * m) * 2 ^ b = ap (λ z. 2 ^ z) e ∙ pow_add (32 * m) b in
    let first : value (w ∷ ws) / 2 ^ k ≡ w / 2 ^ b =
      ap (λ z. value (w ∷ ws) / z) size
      ∙ sym (div-div-eq-div-mul (value (w ∷ ws)) (2 ^ (32 * m)) (2 ^ b))
      ∙ ap (λ z. z / 2 ^ b)
          (first_word w m (value ws) (value (w ∷ ws)) (ap (λ z. w * 2 ^ (32 * z) + value ws) l)
            (omega (arith, value_bound ws a, ap (λ z. 2 ^ (32 * z)) l))) in
    ap (λ z. not (z == 0)) (bit_and-pow b w)
    ∙ ap not (zero_test (w / 2 ^ b) (2 ^ b) (pow_pos b))
    ∙ ap (λ z. not (z % 2 == 0)) (sym first)

length-set_last : (ws : Sig) → length (set_last ws) ≡ length ws
unfolding set_last
length-set_last [] = refl
length-set_last (w ∷ []) = refl
length-set_last (w ∷ v ∷ ws) = ap suc (length-set_last (v ∷ ws))

block_even : (w m : ℕ) → w * (m * 2 ^ 32) ≡ w * m * 2 ^ 32
block_even w m = grind arith

-- The last bit is 0 before it is set.
set_last_lem :
    (ws : Sig)
    → 0 < length ws
    → All IsWord ws
    → value ws % 2 ≡ 0
    → (value (set_last ws) ≡ value ws + 1) × All IsWord (set_last ws)
unfolding set_last value
set_last_lem [] p a e = absurd (omega arith)
set_last_lem (w ∷ []) p a e =
    let joined : bit_or w 1 ≡ w + 1 =
      ap (λ z. bit_or z 1) {x = w} {y = w / 2 * 2} (omega (arith, e))
      ∙ bit_or_disjoint 1 (w / 2) 1 (omega arith)
      ∙ omega (arith, e) in
    (omega (arith, joined), (omega (arith, joined, a.0, e), tt))
set_last_lem (w ∷ v ∷ ws) p a e =
    let even : value (v ∷ ws) % 2 ≡ 0 =
      omega
        (arith, e, ap (λ z. w * z) (pow_block (length ws)), block_even w (2 ^ (32 * length ws))) in
    let (h, b) = set_last_lem (v ∷ ws) (omega arith) a.1 even in
    (
      ap (λ n. w * 2 ^ (32 * n) + value (set_last (v ∷ ws))) (length-set_last (v ∷ ws))
          ∙ omega (arith, h),
      (a.0, b),
    )

-- What a round does before it shifts the divisor.
pub record Divided (x : Dividing) (t : Bool) (shifted : ℕ) (y : Dividing) : Type 0 where
  pub same_front : y.front ≡ x.front
  pub same_gtemp : y.gtemp ≡ x.gtemp
  pub same_mask : y.mask ≡ x.mask
  pub number : value y.rest ≡ (if t then bit_xor (value x.rest) shifted else value x.rest)
  pub words : All IsWord y.rest
  pub size : length y.rest ≡ length x.rest
  pub pushed : value y.q ≡ value x.q * 2 + (if t then 1 else 0)
  pub q_words : All IsWord y.q
  pub q_some : 0 < length y.q

pub divide_bit-Divided :
    (x : Dividing) (t : Bool) (shifted : ℕ)
    → All IsWord x.rest
    → Frame (length x.rest) shifted x.gtemp
    → All IsWord x.q
    → 0 < length x.q
    → Divided x t shifted (divide_bit x t)
unfolding divide_bit
divide_bit-Divided x true shifted a f b p =
    let (e, aw, l) = xor_words-Frame x.rest shifted x.gtemp a f in
    let (eq, aq) = shift_left_lem x.q 1 (omega arith) b in
    let some_words = length-shift_left x.q 1 (omega arith) b in
    let (es, as') =
      set_last_lem (shift_left x.q 1) (omega (arith, some_words, p)) aq (omega (arith, eq)) in
    record {
      same_front = refl;
      same_gtemp = refl;
      same_mask = refl;
      number = e;
      words = aw;
      size = l;
      pushed = omega (arith, es, eq);
      q_words = as';
      q_some = omega (arith, length-set_last (shift_left x.q 1), some_words, p);
    }
divide_bit-Divided x false shifted a f b p =
    let (eq, aq) = shift_left_lem x.q 1 (omega arith) b in
    record {
      same_front = refl;
      same_gtemp = refl;
      same_mask = refl;
      number = refl;
      words = a;
      size = refl;
      pushed = omega (arith, eq);
      q_words = aq;
      q_some = omega (arith, length-shift_left x.q 1 (omega arith) b, p);
    }

pub next_word_joined :
    (x : Dividing) (r : Sig)
    → x.rest ≡ r
    → (next_word x).front ++ (next_word x).rest ≡ x.front ++ x.rest
unfolding next_word
next_word_joined x [] e = rw (e, next_word) (ap (λ z. x.front ++ z) e)
next_word_joined x (w ∷ ws) e = rw (e, next_word) (append_assoc x.front (w ∷ []) ws)

pub next_word_lem :
    (x : Dividing) (w : ℕ) (ws : Sig)
    → x.rest ≡ w ∷ ws
    → next_word x ≡ record x { front = x.front ++ w ∷ []; rest = ws; mask = 2 ^ 31 }
unfolding next_word
next_word_lem x w ws e = rw (e, next_word) refl

pub next_word-q : (x : Dividing) (r : Sig) → x.rest ≡ r → (next_word x).q ≡ x.q
unfolding next_word
next_word-q x [] e = rw (e, next_word) refl
next_word-q x (w ∷ ws) e = rw (e, next_word) refl

-- Leading words 0 add nothing.
pub zeros_value : (zs ws : Sig) → All (λ z. z ≡ 0) zs → value (zs ++ ws) ≡ value ws
unfolding value
zeros_value [] ws a = refl
zeros_value (z ∷ zs) ws a =
    omega (arith, ap (λ y. y * 2 ^ (32 * length (zs ++ ws))) a.0, zeros_value zs ws a.1)

pub zeros_words : (zs : Sig) → All (λ z. z ≡ 0) zs → All IsWord zs
zeros_words [] a = tt
zeros_words (z ∷ zs) a = (omega (arith, a.0), zeros_words zs a.1)
