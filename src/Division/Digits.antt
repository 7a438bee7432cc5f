-- ===== src/Division/Digits.antt =====
-- `bit_and` with a mask of one bit, `bit_or` of numbers that do not meet, and the degree of a word.
use Prim.Native.Nat.{min, max, bit_and, bit_or, bit_and-bitwise, bit_or-bitwise}
use native.Mathlib.Nat.{div-div-eq-div-mul, div-eq_of_lt-le, div-eq_of_lt}
use xgossip.Prelude.{
  ℕ, zero, suc, ◌+◌, ◌*◌, ◌/◌, ◌%◌, ◌^◌, ◌≤◌, ◌<◌, ◌≡◌, refl, sym, ap, ◌∙◌, arith, false, ◌==◌, ltb,
  Bool-cases, inl, inr,
}
use xgossip.Poly.Xor.{pow_suc, same_digits}
use xgossip.Poly.Multiply.{times_pow_suc, times_pow_grows}
use xgossip.Division.{degree_loop}

bit_and_step : (a b : ℕ) → bit_and a b ≡ bit_and (a / 2) (b / 2) * 2 + min (a % 2) (b % 2)
bit_and_step zero b = omega (arith, bit_and-bitwise 0 b, bit_and-bitwise 0 (b / 2))
bit_and_step (suc a) b = omega (
  arith,
  bit_and-bitwise (suc a) b,
  bit_and-bitwise (suc a / 2) (b / 2),
  same_digits (λ b. zero) min (suc a / 2) a (omega arith) (b / 2) (suc a / 2) (omega arith),
)

bit_or_step : (a b : ℕ) → bit_or a b ≡ bit_or (a / 2) (b / 2) * 2 + max (a % 2) (b % 2)
bit_or_step zero b = omega (arith, bit_or-bitwise 0 b, bit_or-bitwise 0 (b / 2))
bit_or_step (suc a) b = omega (
  arith,
  bit_or-bitwise (suc a) b,
  bit_or-bitwise (suc a / 2) (b / 2),
  same_digits (λ b. b) max (suc a / 2) a (omega arith) (b / 2) (suc a / 2) (omega arith),
)

zero-bit_and : (b : ℕ) → bit_and 0 b ≡ 0
zero-bit_and b = bit_and-bitwise 0 b

and_zero_fuel : (n a : ℕ) → a ≤ n → bit_and a 0 ≡ 0
and_zero_fuel n zero h = refl
and_zero_fuel zero (suc a) h = absurd (omega arith)
and_zero_fuel (suc n) (suc a) h =
    omega (arith, bit_and_step (suc a) 0, and_zero_fuel n (suc a / 2) (omega arith))

or_zero_fuel : (n a : ℕ) → a ≤ n → bit_or a 0 ≡ a
or_zero_fuel n zero h = refl
or_zero_fuel zero (suc a) h = absurd (omega arith)
or_zero_fuel (suc n) (suc a) h =
    omega (arith, bit_or_step (suc a) 0, or_zero_fuel n (suc a / 2) (omega arith))

pub bit_or-zero : (a : ℕ) → bit_or a 0 ≡ a
bit_or-zero a = or_zero_fuel a a (omega arith)

half_pow : (w k : ℕ) → w / 2 ^ suc k ≡ w / 2 / 2 ^ k
half_pow w k =
    ap (λ z. w / z) {x = 2 ^ suc k} {y = 2 * 2 ^ k} (omega (arith, pow_suc k))
    ∙ sym (div-div-eq-div-mul w 2 (2 ^ k))

min_zero : (a : ℕ) → min a 0 ≡ 0
min_zero a = omega arith

-- A mask of one bit.
pub bit_and-pow : (k w : ℕ) → bit_and w (2 ^ k) ≡ w / 2 ^ k % 2 * 2 ^ k
bit_and-pow zero w = omega (arith, bit_and_step w 1, and_zero_fuel (w / 2) (w / 2) (omega arith))
bit_and-pow (suc k) w =
    bit_and_step w (2 ^ suc k)
    ∙ ap (λ z. bit_and (w / 2) z * 2 + min (w % 2) (2 ^ suc k % 2)) {x = 2 ^ suc k / 2} {y = 2 ^ k}
        (omega (arith, pow_suc k))
    ∙ ap (λ z. bit_and (w / 2) (2 ^ k) * 2 + min (w % 2) z) {x = 2 ^ suc k % 2} {y = 0}
        (omega (arith, pow_suc k))
    ∙ ap (λ z. z * 2 + min (w % 2) 0) (bit_and-pow k (w / 2))
    ∙ omega (
      arith,
      min_zero (w % 2),
      ap (λ z. z % 2 * 2 ^ suc k) (half_pow w k),
      times_pow_suc (w / 2 / 2 ^ k % 2) k,
    )

-- High bits and the lowest k.
pub bit_or_disjoint : (k a b : ℕ) → b < 2 ^ k → bit_or (a * 2 ^ k) b ≡ a * 2 ^ k + b
bit_or_disjoint zero a zero h =
    ap (λ z. bit_or z 0) {x = a * 1} {y = a} (omega arith) ∙ omega (arith, bit_or-zero a)
bit_or_disjoint zero a (suc b) h = absurd (omega arith)
bit_or_disjoint (suc k) a b h =
    bit_or_step (a * 2 ^ suc k) b
    ∙ ap (λ z. bit_or z (b / 2) * 2 + max (a * 2 ^ suc k % 2) (b % 2)) {x = a * 2 ^ suc k / 2}
        {y = a * 2 ^ k} (omega (arith, times_pow_suc a k))
    ∙ ap (λ z. bit_or (a * 2 ^ k) (b / 2) * 2 + max z (b % 2)) {x = a * 2 ^ suc k % 2} {y = 0}
        (omega (arith, times_pow_suc a k))
    ∙ omega (arith, times_pow_suc a k, bit_or_disjoint k a (b / 2) (omega (arith, pow_suc k)))

-- A word below 2 ^ n has the degree and one more 0 if it is 0, and otherwise j between its powers.
pub record HasDegree (j z : ℕ) : Type 0 where
  pub above : 2 ^ j ≤ z
  pub below : z < 2 ^ suc j

-- The bit k of a number below 2 ^ (k + 1).
pub top_set : (k z : ℕ) → HasDegree k z → z / 2 ^ k ≡ 1
top_set k z h = div-eq_of_lt-le (2 ^ k) (omega (arith, h.above)) (omega (arith, h.below, pow_suc k))

pub top_clear : (k z : ℕ) → z < 2 ^ k → z / 2 ^ k ≡ 0
top_clear k z h = div-eq_of_lt h

pub mask_set : (k z : ℕ) → HasDegree k z → bit_and z (2 ^ k) ≡ 2 ^ k
mask_set k z h = bit_and-pow k z ∙ ap (λ y. y % 2 * 2 ^ k) (top_set k z h) ∙ omega arith

pub mask_clear : (k z : ℕ) → z < 2 ^ k → bit_and z (2 ^ k) ≡ 0
mask_clear k z h = bit_and-pow k z ∙ ap (λ y. y % 2 * 2 ^ k) (top_clear k z h) ∙ omega arith

pub pow_pos : (k : ℕ) → 0 < 2 ^ k
pow_pos k = omega (arith, times_pow_grows k 1)

pub not_pow : (k : ℕ) → (2 ^ k == 0) ≡ false
not_pow k = ground (arith, pow_pos k)

pub degree_loop_zero : (n : ℕ) → degree_loop n 0 ≡ 0
unfolding degree_loop
degree_loop_zero zero = refl
degree_loop_zero (suc n) = rw (zero-bit_and (2 ^ n)) (degree_loop_zero n)

pub degree_loop_lem :
    (n z : ℕ) → z < 2 ^ n → 0 < z → (j : ℕ) × (degree_loop n z ≡ suc j) × (j < n) × HasDegree j z
unfolding degree_loop
degree_loop_lem zero z h p = absurd (omega arith)
degree_loop_lem (suc n) z h p = elim (Bool-cases (ltb z (2 ^ n))) [
  | inl e ↦
      let (j, q, l, d) = degree_loop_lem n z (ground arith) p in
      (j, rw (mask_clear n z (ground arith)) q, omega (arith, l), d)
  | inr e ↦
      let d : HasDegree n z = record { above = ground arith; below = h } in
      (n, rw (mask_set n z d, not_pow n) refl, omega arith, d)
]

-- The same with the low bits first.
pub bit_or_joined : (k a b : ℕ) → b < 2 ^ k → bit_or b (a * 2 ^ k) ≡ a * 2 ^ k + b
bit_or_joined zero a zero h =
    ap (bit_or 0) {x = a * 1} {y = a} (omega arith) ∙ bit_or-bitwise 0 a ∙ omega arith
bit_or_joined zero a (suc b) h = absurd (omega arith)
bit_or_joined (suc k) a b h =
    bit_or_step b (a * 2 ^ suc k)
    ∙ ap (λ z. bit_or (b / 2) z * 2 + max (b % 2) (a * 2 ^ suc k % 2)) {x = a * 2 ^ suc k / 2}
        {y = a * 2 ^ k} (omega (arith, times_pow_suc a k))
    ∙ ap (λ z. bit_or (b / 2) (a * 2 ^ k) * 2 + max (b % 2) z) {x = a * 2 ^ suc k % 2} {y = 0}
        (omega (arith, times_pow_suc a k))
    ∙ omega (arith, times_pow_suc a k, bit_or_joined k a (b / 2) (omega (arith, pow_suc k)))
