-- ===== src/Poly/Xor.antt =====
-- Exclusive or at variables: its lowest digit, its parts, and its laws.
use Prim.Native.Nat.{digits, differ, bit_xor, bit_xor-bitwise}
use xgossip.Prelude.{
  ℕ, zero, suc, ◌+◌, ◌*◌, ◌/◌, ◌%◌, ◌^◌, ◌≤◌, ◌<◌, ◌≡◌, refl, sym, ap, ◌∙◌, arith,
}

-- The fuel of `digits` does not matter if it is at least the first number, for any operation.
module _ (rest : ℕ → ℕ) (join : ℕ → ℕ → ℕ) where
  pub same_digits :
      (a n : ℕ) → a ≤ n → (b m : ℕ) → a ≤ m → digits rest join n a b ≡ digits rest join m a b
  same_digits zero zero p b zero q = refl
  same_digits zero zero p b (suc m) q = refl
  same_digits zero (suc n) p b zero q = refl
  same_digits zero (suc n) p b (suc m) q = refl
  same_digits (suc a) zero p b m q = absurd (omega (arith, p))
  same_digits (suc a) (suc n) p b zero q = absurd (omega (arith, q))
  same_digits (suc a) (suc n) p b (suc m) q =
      ap (λ y. y * 2 + join (suc a % 2) (b % 2))
        (same_digits (suc a / 2) n (omega (arith, p)) (b / 2) m (omega (arith, q)))

pub zero-bit_xor : (b : ℕ) → bit_xor 0 b ≡ b
zero-bit_xor b = bit_xor-bitwise 0 b

differ_digits : (x y : ℕ) → x < 2 → y < 2 → differ x y ≡ (x + y) % 2
differ_digits zero zero p q = refl
differ_digits zero (suc zero) p q = refl
differ_digits zero (suc (suc y)) p q = absurd (omega arith)
differ_digits (suc zero) zero p q = refl
differ_digits (suc zero) (suc zero) p q = refl
differ_digits (suc zero) (suc (suc y)) p q = absurd (omega arith)
differ_digits (suc (suc x)) y p q = absurd (omega arith)

pub bit_xor_step : (a b : ℕ) → bit_xor a b ≡ bit_xor (a / 2) (b / 2) * 2 + (a + b) % 2
bit_xor_step zero b = omega (arith, zero-bit_xor b, zero-bit_xor (b / 2))
bit_xor_step (suc a) b = omega (
  arith,
  bit_xor-bitwise (suc a) b,
  bit_xor-bitwise (suc a / 2) (b / 2),
  same_digits (λ b. b) differ (suc a / 2) a (omega arith) (b / 2) (suc a / 2) (omega arith),
  differ_digits (suc a % 2) (b % 2) (omega arith) (omega arith),
)

xor_cong : (a a' b b' : ℕ) → a ≡ a' → b ≡ b' → bit_xor a b ≡ bit_xor a' b'
xor_cong a a' b b' p q = cc

pub bit_xor_double : (a b : ℕ) → bit_xor (2 * a) (2 * b) ≡ 2 * bit_xor a b
bit_xor_double a b = omega (
  arith,
  bit_xor_step (2 * a) (2 * b),
  xor_cong (2 * a / 2) (a) (2 * b / 2) (b) (omega arith) (omega arith),
)

-- On fuel that is enough for both numbers.
comm_fuel : (n a b : ℕ) → a ≤ n → b ≤ n → bit_xor a b ≡ bit_xor b a
comm_fuel zero zero zero p q = refl
comm_fuel zero zero (suc b) p q = absurd (omega arith)
comm_fuel zero (suc a) b p q = absurd (omega arith)
comm_fuel (suc n) a b p q = omega (
  arith,
  bit_xor_step a b,
  bit_xor_step b a,
  comm_fuel n (a / 2) (b / 2) (omega arith) (omega arith),
)

pub bit_xor_comm : (a b : ℕ) → bit_xor a b ≡ bit_xor b a
bit_xor_comm a b = comm_fuel (a + b) a b (omega arith) (omega arith)

pub bit_xor-zero : (a : ℕ) → bit_xor a 0 ≡ a
bit_xor-zero a = bit_xor_comm a 0 ∙ zero-bit_xor a

pub half : (a b : ℕ) → bit_xor a b / 2 ≡ bit_xor (a / 2) (b / 2)
half a b = omega (arith, bit_xor_step a b)

pub parity : (a b : ℕ) → bit_xor a b % 2 ≡ (a + b) % 2
parity a b = omega (arith, bit_xor_step a b)

assoc_fuel : (n a b c : ℕ) → a ≤ n → bit_xor (bit_xor a b) c ≡ bit_xor a (bit_xor b c)
assoc_fuel n zero b c p = ap (λ z. bit_xor z c) (zero-bit_xor b) ∙ sym (zero-bit_xor (bit_xor b c))
assoc_fuel zero (suc a) b c p = absurd (omega arith)
assoc_fuel (suc n) (suc a) b c p = omega (
  arith,
  bit_xor_step (bit_xor (suc a) b) c,
  bit_xor_step (suc a) (bit_xor b c),
  bit_xor_step (suc a) b,
  bit_xor_step b c,
  ap (λ z. bit_xor z (c / 2)) (half (suc a) b),
  ap (bit_xor (suc a / 2)) (half b c),
  assoc_fuel n (suc a / 2) (b / 2) (c / 2) (omega arith),
)

pub bit_xor_assoc : (a b c : ℕ) → bit_xor (bit_xor a b) c ≡ bit_xor a (bit_xor b c)
bit_xor_assoc a b c = assoc_fuel a a b c (omega arith)

pub bit_xor_interchange :
    (a b c e : ℕ) → bit_xor (bit_xor a b) (bit_xor c e) ≡ bit_xor (bit_xor a c) (bit_xor b e)
bit_xor_interchange a b c e =
    bit_xor_assoc a b (bit_xor c e)
    ∙ ap (bit_xor a)
        (sym (bit_xor_assoc b c e) ∙ ap (λ z. bit_xor z e) (bit_xor_comm b c) ∙ bit_xor_assoc c b e)
    ∙ sym (bit_xor_assoc a c (bit_xor b e))

pub pow_suc : (k : ℕ) → 2 ^ suc k ≡ 2 ^ k * 2
pow_suc k = omega arith

split_step :
    (m a b c e : ℕ)
    → bit_xor (a * m + b / 2) (c * m + e / 2) ≡ bit_xor a c * m + bit_xor (b / 2) (e / 2)
    → bit_xor (a * (m * 2) + b) (c * (m * 2) + e) ≡ bit_xor a c * (m * 2) + bit_xor b e
split_step m a b c e h = omega (
  arith,
  bit_xor_step (a * (m * 2) + b) (c * (m * 2) + e),
  bit_xor_step b e,
  xor_cong ((a * (m * 2) + b) / 2) (a * m + b / 2) ((c * (m * 2) + e) / 2) (c * m + e / 2)
      (omega arith) (omega arith),
)

-- High and low digits do not meet.
pub bit_xor_split :
    (k a b c e : ℕ)
    → b < 2 ^ k
    → e < 2 ^ k
    → bit_xor (a * 2 ^ k + b) (c * 2 ^ k + e) ≡ bit_xor a c * 2 ^ k + bit_xor b e
bit_xor_split zero a zero c zero p q =
    omega
      (arith, xor_cong (a * 1 + 0) (a) (c * 1 + 0) (c) (omega arith) (omega arith), zero-bit_xor 0)
bit_xor_split zero a (suc b) c e p q = absurd (omega arith)
bit_xor_split zero a b c (suc e) p q = absurd (omega arith)
bit_xor_split (suc k) a b c e p q = rw (pow_suc k) (
    split_step (2 ^ k) a b c e
      (bit_xor_split k a (b / 2) c (e / 2) (omega (arith, pow_suc k)) (omega (arith, pow_suc k))))

pub bit_xor_bound : (k a b : ℕ) → a < 2 ^ k → b < 2 ^ k → bit_xor a b < 2 ^ k
bit_xor_bound zero zero zero p q = omega arith
bit_xor_bound zero zero (suc b) p q = absurd (omega arith)
bit_xor_bound zero (suc a) b p q = absurd (omega arith)
bit_xor_bound (suc k) a b p q =
    omega (arith, bit_xor_step a b, bit_xor_bound k (a / 2) (b / 2) (omega arith) (omega arith))
