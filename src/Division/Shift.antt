-- ===== src/Division/Shift.antt =====
-- `shiftLeft` and `shiftRight` multiply and divide by a power of 2.
use Prim.Native.Nat.{bit_or}
use native.Mathlib.Nat.{div-add-mod', mod-lt, div-lt_iff_lt-mul}
use xgossip.Prelude.{
  ℕ, suc, ◌+◌, ◌-◌, ◌*◌, ◌/◌, ◌%◌, ◌^◌, ◌≤◌, ◌<◌, ◌≡◌, refl, sym, ap, ◌∙◌, arith, false, ◌==◌,
  Bool-cases, inl, inr, [], ◌∷◌, length, All, ==_iff,
}
use xgossip.Sig.{Sig}
use xgossip.Poly.Multiply.{IsWord, value, pow_add, pow_block, times_pow_grows}
use xgossip.Division.{left_words, shift_left}
use xgossip.Division.Digits.{bit_or_disjoint, pow_pos}

pub pow_word : (n : ℕ) → n < 32 → 2 ^ n * 2 ^ (32 - n) ≡ 2 ^ 32
pow_word n l = sym (pow_add n (32 - n)) ∙ ap (λ z. 2 ^ z) {x = n + (32 - n)} {y = 32} (omega arith)

pub times_le : (a b m : ℕ) → a ≤ b → a * m ≤ b * m
times_le a b m h = grind arith

pub suc_times : (g m : ℕ) → suc g * m ≡ g * m + m
suc_times g m = grind arith

pub times_lt : (a b m : ℕ) → a < b → 0 < m → a * m < b * m
times_lt a b m h p = grind arith

pub times_comm : (p u : ℕ) → p * u ≡ u * p
times_comm p u = grind arith

left_parts : (a b p u : ℕ) → p * u ≡ 2 ^ 32 → (a * u + b) * p ≡ 2 ^ 32 * a + b * p
left_parts a b p u e = grind arith

-- What stays of a word that is shifted to the left.
stays : (a b p u : ℕ) → p * u ≡ 2 ^ 32 → b < u → 0 < p → (a * u + b) * p % 2 ^ 32 ≡ b * p
stays a b p u e l pos = omega (arith, left_parts a b p u e, times_lt b u p l pos, times_comm p u, e)

word_stays : (n w : ℕ) → n < 32 → w * 2 ^ n % 2 ^ 32 ≡ w % 2 ^ (32 - n) * 2 ^ n
word_stays n w l =
    let u = 2 ^ (32 - n) in
    ap (λ z. z * 2 ^ n % 2 ^ 32) (sym (div-add-mod' w u))
    ∙ stays (w / u) (w % u) (2 ^ n) u (pow_word n l) (mod-lt w (pow_pos (32 - n))) (pow_pos n)

pub room_left : (r c p u : ℕ) → p * u ≡ 2 ^ 32 → r < u → c < p → r * p + c < 2 ^ 32
room_left r c p u e l m = omega (arith, times_le (suc r) u p l, suc_times r p, times_comm p u, e)

word_parts :
    (q r p c u m rest : ℕ)
    → q * (m * (p * u)) + ((r * p + c) * m + rest) ≡ (q * u + r) * m * p + (c * m + rest)
word_parts q r p c u m rest = grind arith

join_words : (w m v p : ℕ) → w * m * p + v * p ≡ (w * m + v) * p
join_words w m v p = grind arith

moved_word :
    (q r p c u m v rest : ℕ)
    → p * u ≡ 2 ^ 32
    → c * m + rest ≡ v * p
    → q * (m * 2 ^ 32) + ((r * p + c) * m + rest) ≡ ((q * u + r) * m + v) * p
moved_word q r p c u m v rest e h =
    ap (λ z. q * (m * z) + ((r * p + c) * m + rest)) (sym e)
    ∙ word_parts q r p c u m rest
    ∙ ap (λ z. (q * u + r) * m * p + z) h
    ∙ join_words (q * u + r) m v p

-- The words shifted by n bits, with what is left over in front.
record Shifted (n : ℕ) (ws : Sig) : Type 0 where
  low : (left_words n ws).0 < 2 ^ n
  words : All IsWord (left_words n ws).1
  same_length : length (left_words n ws).1 ≡ length ws
  moved : (left_words n ws).0 * 2 ^ (32 * length ws) + value (left_words n ws).1 ≡ value ws * 2 ^ n

left_words-Shifted : (n : ℕ) (ws : Sig) → n < 32 → All IsWord ws → Shifted n ws
unfolding left_words value
left_words-Shifted n [] l a = record {
  low = pow_pos n;
  words = tt;
  same_length = refl;
  moved = omega arith;
}
left_words-Shifted n (w ∷ ws) l a =
    let h = left_words-Shifted n ws l a.1 in
    let p = 2 ^ n in
    let u = 2 ^ (32 - n) in
    let c = (left_words n ws).0 in
    let word : bit_or (w * p % 2 ^ 32) c ≡ w % u * p + c =
      ap (λ z. bit_or z c) (word_stays n w l) ∙ bit_or_disjoint n (w % u) c h.low in
    let quotient_low : w / u < p =
      (div-lt_iff_lt-mul (pow_pos (32 - n))).1 (omega (arith, a.0, pow_word n l)) in
    let size = 2 ^ (32 * length ws) in
    record {
      low = quotient_low;
      words = (
        rw word (room_left (w % u) c p u (pow_word n l) (mod-lt w (pow_pos (32 - n))) h.low),
        h.words,
      );
      same_length = ap suc h.same_length;
      moved =
          rw (word, h.same_length, pow_block (length ws))
            (moved_word (w / u) (w % u) p c u size (value ws) (value (left_words n ws).1)
                (pow_word n l) h.moved
              ∙ ap (λ z. (z * size + value ws) * p) (div-add-mod' w u));
    }

pub not_32 : (n : ℕ) → n < 32 → (n == 32) ≡ false
not_32 n l = ground arith

first_gone : (c m : ℕ) {v : ℕ} → c ≡ 0 → v ≡ c * m + v
first_gone c m {v} e = omega (arith, ap (λ z. z * m) e)

-- For n below 32 the number is multiplied, and a word is added only if it is needed.
pub shift_left_lem :
    (ws : Sig) (n : ℕ)
    → n < 32
    → All IsWord ws
    → (value (shift_left ws n) ≡ value ws * 2 ^ n) × All IsWord (shift_left ws n)
unfolding shift_left value
shift_left_lem ws n l a =
    let h = left_words-Shifted n ws l a in
    elim (Bool-cases (n == 0)) [
      | inl e ↦
          rw e (omega (arith, ap (λ z. value ws * 2 ^ z) {x = n} {y = 0} ((==_iff n 0).0 e)), a)
      | inr e ↦ elim (Bool-cases ((left_words n ws).0 == 0)) [
        | inl z ↦
            rw (e, not_32 n l, z)
              (
                first_gone (left_words n ws).0 (2 ^ (32 * length ws)) ((==_iff _ 0).0 z) ∙ h.moved,
                h.words,
              )
        | inr z ↦
            rw (e, not_32 n l, z, h.same_length)
              (
                h.moved,
                (omega (arith, h.low, pow_word n l, times_pow_grows (32 - n) (2 ^ n)), h.words),
              )
      ]
    ]

pub shift_left_fits :
    (ws : Sig) (n : ℕ)
    → n < 32
    → All IsWord ws
    → value ws * 2 ^ n < 2 ^ (32 * length ws)
    → length (shift_left ws n) ≡ length ws
unfolding shift_left
shift_left_fits ws n l a h =
    let s = left_words-Shifted n ws l a in
    let m = 2 ^ (32 * length ws) in
    elim (Bool-cases (n == 0)) [
      | inl e ↦ rw e refl
      | inr e ↦ elim (Bool-cases ((left_words n ws).0 == 0)) [
        | inl z ↦ rw (e, not_32 n l, z) s.same_length
        | inr z ↦
            absurd (omega (arith, s.moved, times_le 1 (left_words n ws).0 m (ground arith), h))
      ]
    ]

pub length-shift_left :
    (ws : Sig) (n : ℕ) → n < 32 → All IsWord ws → length ws ≤ length (shift_left ws n)
unfolding shift_left
length-shift_left ws n l a =
    let h = left_words-Shifted n ws l a in
    elim (Bool-cases (n == 0)) [
      | inl e ↦ rw e (omega arith)
      | inr e ↦ elim (Bool-cases ((left_words n ws).0 == 0)) [
        | inl z ↦ rw (e, not_32 n l, z) (omega (arith, h.same_length))
        | inr z ↦ rw (e, not_32 n l, z) (omega (arith, h.same_length))
      ]
    ]
