-- ===== src/Division/Right.antt =====
-- `shiftRight` on words that stand in a frame of m words, from the first on: the words that are not
-- there are 0.
use Prim.Native.Nat.{bit_or}
use native.Mathlib.Nat.{div-add-mod', mod-lt, div-lt_iff_lt-mul}
use mathlib.Core.Path.{subst}
use xgossip.Prelude.{
  ℕ, zero, suc, ◌+◌, ◌-◌, ◌*◌, ◌/◌, ◌%◌, ◌^◌, ◌≤◌, ◌<◌, ◌≡◌, sym, ap, ◌∙◌, arith, false, ◌==◌, ltb,
  leb, Bool-cases, inl, inr, [], ◌∷◌, length, All, ==_iff,
}
use xgossip.Sig.{Sig}
use xgossip.Poly.Multiply.{IsWord, value, pow_add, pow_block}
use xgossip.Division.{right_words}
use xgossip.Division.Digits.{bit_or_joined, pow_pos}
use xgossip.Division.Shift.{room_left, pow_word, times_lt, suc_times, times_comm}

-- The number of a frame, and how many words are free.
pub record Frame (m t : ℕ) (ws : Sig) : Type 0 where
  pub free : ℕ
  pub framed : length ws + free ≡ m
  pub number : value ws * 2 ^ (32 * free) ≡ t
  pub words : All IsWord ws

pub cancel_times : (a b p : ℕ) → 0 < p → a * p ≡ b * p → a ≡ b
cancel_times a b p pos e = elim (Bool-cases (ltb a b)) [
  | inl h ↦ absurd (omega (arith, times_lt a b p (ground arith) pos, e))
  | inr h ↦ elim (Bool-cases (ltb b a)) [
    | inl k ↦ absurd (omega (arith, times_lt b a p (ground arith) pos, e))
    | inr k ↦ ground arith
  ]
]

plus_times : (a b p : ℕ) → (a + b) * p ≡ a * p + b * p
plus_times a b p = grind arith

pub pow_words : (a b : ℕ) → 2 ^ (32 * (a + b)) ≡ 2 ^ (32 * a) * 2 ^ (32 * b)
pow_words a b =
    ap (λ z. 2 ^ z) {x = 32 * (a + b)} {y = 32 * a + 32 * b} (omega arith)
    ∙ pow_add (32 * a) (32 * b)

part_of : (y z p t : ℕ) → z ≤ y → y * p ≡ z * p + t → (y - z) * p ≡ t
part_of y z p t l e =
    omega (
      arith,
      plus_times z (y - z) p,
      ap (λ x. x * p) {x = y} {y = z + (y - z)} (omega (arith, l)),
      e,
    )

-- A multiple of p above another.
rest_of : (y z p t : ℕ) → 0 < p → y * p ≡ z * p + t → (k : ℕ) × (y ≡ z + k) × (k * p ≡ t)
rest_of y z p t pos e = elim (Bool-cases (leb z y)) [
  | inl h ↦ (y - z, ground arith, part_of y z p t (ground arith) e)
  | inr h ↦ absurd (omega (arith, times_lt y z p (ground arith) pos, e))
]

-- A word with bits from the word before in front, and its own bits that fall out.
record Moved (n c w : ℕ) : Type 0 where
  joined : bit_or (w / 2 ^ n) (c * 2 ^ (32 - n)) ≡ c * 2 ^ (32 - n) + w / 2 ^ n
  low : bit_or (w / 2 ^ n) (c * 2 ^ (32 - n)) < 2 ^ 32
  next : w % 2 ^ n * 2 ^ (32 - n) % 2 ^ 32 ≡ w % 2 ^ n * 2 ^ (32 - n)
  next_low : w % 2 ^ n < 2 ^ n
  number : c * 2 ^ 32 + w ≡ (c * 2 ^ (32 - n) + w / 2 ^ n) * 2 ^ n + w % 2 ^ n

word_sum : (c q r p u : ℕ) → c * (p * u) + (q * p + r) ≡ (c * u + q) * p + r
word_sum c q r p u = grind arith

word_number :
    (c q r p u w : ℕ) → p * u ≡ 2 ^ 32 → w ≡ q * p + r → c * 2 ^ 32 + w ≡ (c * u + q) * p + r
word_number c q r p u w e h =
    ap (λ z. c * 2 ^ 32 + z) h ∙ ap (λ z. c * z + (q * p + r)) (sym e) ∙ word_sum c q r p u

right_shift-Moved : (n c w : ℕ) → n < 32 → c < 2 ^ n → w < 2 ^ 32 → Moved n c w
right_shift-Moved n c w l lc lw =
    let u = 2 ^ (32 - n) in
    let p = 2 ^ n in
    let q : w / p < u =
      (div-lt_iff_lt-mul (pow_pos n)).1 (omega (arith, lw, pow_word n l, times_comm p u)) in
    let e = bit_or_joined (32 - n) c (w / p) q in
    record {
      joined = e;
      low = omega (arith, e, room_left c (w / p) u p (times_comm u p ∙ pow_word n l) lc q);
      next =
          omega
            (arith, times_lt (w % p) p u (mod-lt w (pow_pos n)) (pow_pos (32 - n)), pow_word n l);
      next_low = mod-lt w (pow_pos n);
      number = word_number c (w / p) (w % p) p u w (pow_word n l) (sym (div-add-mod' w p));
    }

swap_down : (c u e p : ℕ) → c * u * e * p ≡ c * (e * (p * u))
swap_down c u e p = grind arith

regroup : (c m w v e : ℕ) → (c * (m * 2 ^ 32) + (w * m + v)) * e ≡ ((c * 2 ^ 32 + w) * m + v) * e
regroup c m w v e = grind arith

spread : (h r p m v e : ℕ) → ((h * p + r) * m + v) * e ≡ h * (m * e) * p + (r * m + v) * e
spread h r p m v e = grind arith

moved_down : (c u e p : ℕ) → p * u ≡ 2 ^ 32 → c * u * e * p ≡ c * (e * 2 ^ 32)
moved_down c u e p h = swap_down c u e p ∙ ap (λ z. c * (e * z)) h

small_multiple : (c y p : ℕ) → c ≡ y * p → c < p → c ≡ 0
small_multiple c zero p e l = omega (arith, e)
small_multiple c (suc y) p e l = absurd (omega (arith, e, suc_times y p))

zero_factor : (c u : ℕ) → 0 < u → c * u ≡ 0 → c ≡ 0
zero_factor c u pos e = cancel_times c 0 u pos (e ∙ omega arith)

frame_number : (w a b m v t : ℕ) → a * b ≡ m → v ≡ t → w * a * b + v ≡ w * m + t
frame_number w a b m v t e h = grind arith

-- A word in front of a frame.
pub cons-Frame :
    (m t w : ℕ) (ws : Sig)
    → w < 2 ^ 32
    → Frame m t ws
    → Frame (suc m) (w * 2 ^ (32 * m) + t) (w ∷ ws)
unfolding value
cons-Frame m t w ws l f = record {
  free = f.free;
  framed = omega (arith, f.framed);
  number =
      plus_times (w * 2 ^ (32 * length ws)) (value ws) (2 ^ (32 * f.free))
      ∙ frame_number w (2 ^ (32 * length ws)) (2 ^ (32 * f.free)) (2 ^ (32 * m))
          (value ws * 2 ^ (32 * f.free)) t
          (sym (pow_words (length ws) f.free) ∙ ap (λ z. 2 ^ (32 * z)) f.framed) f.number;
  words = (l, f.words);
}

right_nil :
    (n e c y : ℕ)
    → n < 32
    → c < 2 ^ n
    → c * 2 ^ (32 * e) ≡ y * 2 ^ n
    → (c * 2 ^ (32 - n) == 0) ≡ false
    → Frame e y (c * 2 ^ (32 - n) ∷ [])
unfolding value
right_nil n zero c y l lc h some_bits = absurd (
    let none_left : c ≡ 0 = small_multiple c y (2 ^ n) (omega (arith, h)) lc in
    ground (arith, ap (λ z. z * 2 ^ (32 - n)) none_left))
right_nil n (suc e) c y l lc h some_bits = record {
  free = e;
  framed = omega arith;
  number =
      ap (λ z. z * 2 ^ (32 * e)) {x = c * 2 ^ (32 - n) * 1 + 0} {y = c * 2 ^ (32 - n)} (omega arith)
      ∙ cancel_times (c * 2 ^ (32 - n) * 2 ^ (32 * e)) y (2 ^ n) (pow_pos n) (
          moved_down c (2 ^ (32 - n)) (2 ^ (32 * e)) (2 ^ n) (pow_word n l)
          ∙ ap (λ z. c * z) (sym (pow_block e))
          ∙ h);
  words =
      (omega (arith, times_lt c (2 ^ n) (2 ^ (32 - n)) lc (pow_pos (32 - n)), pow_word n l), tt);
}

cons_parts :
    (c m w v e h r p : ℕ)
    → c * 2 ^ 32 + w ≡ h * p + r
    → (c * (m * 2 ^ 32) + (w * m + v)) * e ≡ h * (m * e) * p + (r * m + v) * e
cons_parts c m w v e h r p q = regroup c m w v e ∙ ap (λ z. (z * m + v) * e) q ∙ spread h r p m v e

-- `right_words` divides a number by 2 ^ n that can be divided by it in the frame.
right_words-Frame :
    (n e c y : ℕ) (ws : Sig)
    → n < 32
    → c < 2 ^ n
    → All IsWord ws
    → (c * 2 ^ (32 * length ws) + value ws) * 2 ^ (32 * e) ≡ y * 2 ^ n
    → Frame (length ws + e) y (right_words n (c * 2 ^ (32 - n)) ws)
unfolding right_words value
right_words-Frame n e c y [] l lc a h =
    let h' : c * 2 ^ (32 * e) ≡ y * 2 ^ n =
      ap (λ z. z * 2 ^ (32 * e)) {x = c} {y = c * 1 + 0} (omega arith) ∙ h in
    elim (Bool-cases (c * 2 ^ (32 - n) == 0)) [
      | inl z ↦ rw z (record {
        free = e;
        framed = omega arith;
        number = omega (
          arith,
          zero_factor y (2 ^ n) (pow_pos n) (
              sym h'
              ∙ ap (λ z. z * 2 ^ (32 * e))
                  (zero_factor c (2 ^ (32 - n)) (pow_pos (32 - n)) ((==_iff _ 0).0 z))
              ∙ omega arith),
        );
        words = tt;
      })
      | inr z ↦ rw z (
          subst (λ z. Frame z y (c * 2 ^ (32 - n) ∷ [])) (omega arith)
            (right_nil n e c y l lc h' z))
    ]
right_words-Frame n e c y (w ∷ ws) l lc a h =
    let word = right_shift-Moved n c w l lc a.0 in
    let m = 2 ^ (32 * length ws) in
    let head = c * 2 ^ (32 - n) + w / 2 ^ n in
    let r = w % 2 ^ n in
    let (k, e1, e2) =
      rest_of y (head * (m * 2 ^ (32 * e))) (2 ^ n) ((r * m + value ws) * 2 ^ (32 * e)) (pow_pos n)
        (sym h
          ∙ ap (λ z. (c * z + (w * m + value ws)) * 2 ^ (32 * e)) (pow_block (length ws))
          ∙ cons_parts c m w (value ws) (2 ^ (32 * e)) head r (2 ^ n) word.number) in
    let f = right_words-Frame n e r k ws l word.next_low a.1 (sym e2) in
    rw (word.joined, word.next)
      (subst (λ z. Frame (suc (length ws) + e) z (head ∷ right_words n (r * 2 ^ (32 - n)) ws))
        (ap (λ z. head * z + k) (pow_words (length ws) e) ∙ sym e1)
        (subst
          (λ z.
            Frame z (head * 2 ^ (32 * (length ws + e)) + k)
              (head ∷ right_words n (r * 2 ^ (32 - n)) ws))
          (omega arith)
          (cons-Frame (length ws + e) k head (right_words n (r * 2 ^ (32 - n)) ws)
            (omega (arith, word.low, word.joined)) f)))

-- A frame that is divided by 2 ^ n, for n below 32.
pub divided-Frame :
    (n m y t : ℕ) (ws : Sig)
    → n < 32
    → Frame m t ws
    → t ≡ y * 2 ^ n
    → Frame m y (right_words n 0 ws)
divided-Frame n m y t ws l f e =
    subst (λ z. Frame m y (right_words n z ws)) {x = 0 * 2 ^ (32 - n)} {y = 0} (omega arith)
      (subst (λ z. Frame z y (right_words n (0 * 2 ^ (32 - n)) ws)) f.framed
        (right_words-Frame n f.free 0 y ws l (pow_pos n) f.words (
          ap (λ z. z * 2 ^ (32 * f.free)) {x = 0 * 2 ^ (32 * length ws) + value ws} {y = value ws}
            (omega arith)
          ∙ f.number
          ∙ e)))
