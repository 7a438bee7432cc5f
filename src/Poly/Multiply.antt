-- ===== src/Poly/Multiply.antt =====
-- `multiplyPoly` multiplies by a word without carries.
use Prim.Native.Nat.{bit_xor}
use mathlib.Core.Path.{subst}
use xgossip.Prelude.{
  ==_iff, Bool, ℕ, zero, suc, ◌+◌, ◌*◌, ◌/◌, ◌%◌, ◌^◌, ◌≤◌, ◌<◌, ◌≡◌, refl, sym, ap, ◌∙◌, [], ◌∷◌,
  ◌==◌, if◌then◌else◌, length, All, arith, Bool-cases, inl, inr, true, false,
}
use xgossip.Sig.{Sig}
use xgossip.Poly.{word_loop, mult_words, mult_poly}
use xgossip.Poly.Xor.{
  zero-bit_xor, bit_xor-zero, bit_xor_double, bit_xor_assoc, bit_xor_comm, bit_xor_interchange,
  bit_xor_split, bit_xor_bound, pow_suc,
}

-- The product of the polynomials whose coefficients are the digits of x, the lowest n of them, and
-- of y: x = x0 + 2 x' gives x0 y + 2 (x' y), and sums are exclusive.
unfoldable pub gf2_mul : ℕ → ℕ → ℕ → ℕ
gf2_mul zero x y = 0
gf2_mul (suc n) x y =
    let rest = gf2_mul n (x / 2) y in bit_xor (if x % 2 == 1 then y else 0) (2 * rest)

-- The number whose digits are the coefficients, the first word the highest.
unfoldable pub value : Sig → ℕ
value [] = 0
value (w ∷ ws) = w * 2 ^ (32 * length ws) + value ws

sum_bit :
    (t : Bool) (a b p q : ℕ)
    → bit_xor (if t then bit_xor a b else 0) (2 * bit_xor p q)
      ≡ bit_xor (bit_xor (if t then a else 0) (2 * p)) (bit_xor (if t then b else 0) (2 * q))
sum_bit true a b p q =
    ap (bit_xor (bit_xor a b)) (sym (bit_xor_double p q)) ∙ bit_xor_interchange a b (2 * p) (2 * q)
sum_bit false a b p q =
    ap (bit_xor 0) (sym (bit_xor_double p q)) ∙ bit_xor_interchange 0 0 (2 * p) (2 * q)

add_bit :
    (t : Bool) (p y r : ℕ)
    → bit_xor (if t then bit_xor p y else p) r ≡ bit_xor p (bit_xor (if t then y else 0) r)
add_bit true p y r = bit_xor_assoc p y r
add_bit false p y r = ap (bit_xor p) (sym (zero-bit_xor r))

bit_below : (t : Bool) (y m : ℕ) → y < m → (if t then y else 0) < m
bit_below true y m h = h
bit_below false y m h = omega arith

pub pow_suc_add : (n j : ℕ) → 2 ^ (suc n + j) ≡ 2 ^ (n + j) * 2
pow_suc_add n j = ap (λ z. 2 ^ z) {x = suc n + j} {y = suc (n + j)} (omega arith) ∙ pow_suc (n + j)

double_times : (y m : ℕ) → 2 * y * m ≡ y * m * 2
double_times y m = grind arith

pub times_pow_suc : (a k : ℕ) → a * 2 ^ suc k ≡ a * 2 ^ k * 2
times_pow_suc a k = ap (λ z. a * z) (pow_suc k) ∙ grind arith

pub pow_grows : (n j : ℕ) → 2 ^ j ≤ 2 ^ (n + j)
pow_grows zero j = omega (arith, ap (λ z. 2 ^ z) {x = 0 + j} {y = j} (omega arith))
pow_grows (suc n) j = omega (arith, pow_suc_add n j, pow_grows n j)

pub times_pow_grows : (n a : ℕ) → a ≤ a * 2 ^ n
times_pow_grows zero a = omega arith
times_pow_grows (suc n) a = omega (arith, times_pow_suc a n, times_pow_grows n a)

pub gf2_mul_double : (n x y : ℕ) → gf2_mul n x (2 * y) ≡ 2 * gf2_mul n x y
unfolding gf2_mul
gf2_mul_double zero x y = refl
gf2_mul_double (suc n) x y = elim (Bool-cases (x % 2 == 1)) [
  | inl e ↦ rw e (
      ap (λ z. bit_xor (2 * y) (2 * z)) (gf2_mul_double n (x / 2) y)
      ∙ bit_xor_double y (2 * gf2_mul n (x / 2) y))
  | inr e ↦ rw e (
      ap (λ z. bit_xor 0 (2 * z)) (gf2_mul_double n (x / 2) y)
      ∙ bit_xor_double 0 (2 * gf2_mul n (x / 2) y))
]

pub gf2_mul_shift : (n x y k : ℕ) → gf2_mul n x (y * 2 ^ k) ≡ gf2_mul n x y * 2 ^ k
gf2_mul_shift n x y zero = omega (arith, ap (gf2_mul n x) {x = y * 1} {y = y} (omega arith))
gf2_mul_shift n x y (suc k) =
    let e : y * 2 ^ suc k ≡ 2 * (y * 2 ^ k) = omega (arith, times_pow_suc y k) in
    ap (gf2_mul n x) e
    ∙ gf2_mul_double n x (y * 2 ^ k)
    ∙ omega (arith, times_pow_suc (gf2_mul n x y) k, gf2_mul_shift n x y k)

pub gf2_mul-bit_xor :
    (n x a b : ℕ) → gf2_mul n x (bit_xor a b) ≡ bit_xor (gf2_mul n x a) (gf2_mul n x b)
unfolding gf2_mul
gf2_mul-bit_xor zero x a b = refl
gf2_mul-bit_xor (suc n) x a b =
    ap (λ z. bit_xor (if x % 2 == 1 then bit_xor a b else 0) (2 * z))
      (gf2_mul-bit_xor n (x / 2) a b)
    ∙ sum_bit (x % 2 == 1) a b (gf2_mul n (x / 2) a) (gf2_mul n (x / 2) b)

pub zero-gf2_mul : (n y : ℕ) → gf2_mul n 0 y ≡ 0
unfolding gf2_mul
zero-gf2_mul zero y = refl
zero-gf2_mul (suc n) y = ap (λ z. bit_xor 0 (2 * z)) (zero-gf2_mul n y)

pub gf2_mul_bound : (n j x y : ℕ) → y < 2 ^ j → gf2_mul n x y < 2 ^ (n + j)
unfolding gf2_mul
gf2_mul_bound zero j x y h = omega (arith, pow_grows 0 j)
gf2_mul_bound (suc n) j x y h =
    bit_xor_bound (suc n + j) _ _
      (bit_below (x % 2 == 1) y (2 ^ (suc n + j)) (omega (arith, pow_grows (suc n) j)))
      (omega (arith, pow_suc_add n j, gf2_mul_bound n j (x / 2) y h))

-- The loop ends with the product added, if the bits that it shifts fit in 64.
word_loop_lem :
    (n x y p : ℕ) → x < 2 ^ n → y * 2 ^ n < 2 ^ 64 → word_loop n x y p ≡ bit_xor p (gf2_mul n x y)
unfolding word_loop gf2_mul
word_loop_lem zero x y p hx hy = sym (bit_xor-zero p)
word_loop_lem (suc n) x y p hx hy = elim (Bool-cases (x == 0)) [
  | inl e ↦ rw e (
      sym (bit_xor-zero p)
      ∙ subst (λ u. bit_xor p 0 ≡ bit_xor p (gf2_mul (suc n) u y)) (sym ((==_iff x 0).0 e))
          (ap (bit_xor p) (sym (zero-gf2_mul (suc n) y))))
  | inr e ↦ rw e (
      let p' = if x % 2 == 1 then bit_xor p y else p in
      let wrap : y * 2 % 2 ^ 64 ≡ 2 * y =
        omega (arith, times_pow_suc y n, double_times y (2 ^ n), times_pow_grows n (2 * y)) in
      ap (λ z. word_loop n (x / 2) z p') wrap
      ∙ word_loop_lem n (x / 2) (2 * y) p' (omega (arith, pow_suc n))
          (omega (arith, times_pow_suc y n, double_times y (2 ^ n)))
      ∙ ap (bit_xor p') (gf2_mul_double n (x / 2) y)
      ∙ add_bit (x % 2 == 1) p y (2 * gf2_mul n (x / 2) y))
]

-- Words below 2 ^ 32, with what stands in front of the lowest k bits.
split_word : (k h r : ℕ) → r < 2 ^ k → bit_xor (h * 2 ^ k) r ≡ h * 2 ^ k + r
split_word k h r l =
    ap (λ z. bit_xor z r) {x = h * 2 ^ k} {y = h * 2 ^ k + 0} (omega arith)
    ∙ ap (bit_xor (h * 2 ^ k + 0)) {x = r} {y = 0 * 2 ^ k + r} (omega arith)
    ∙ bit_xor_split k h 0 0 r (omega (arith, l)) l
    ∙ omega (arith, ap (λ z. z * 2 ^ k) (bit_xor-zero h), zero-bit_xor r)

pub bit_xor_times : (k a b : ℕ) → bit_xor a b * 2 ^ k ≡ bit_xor (a * 2 ^ k) (b * 2 ^ k)
bit_xor_times k a b =
    let pos : 0 < 2 ^ k = omega (arith, times_pow_grows k 1) in
    omega (
      arith,
      bit_xor_split k a 0 b 0 pos pos,
      ap (λ z. bit_xor z (b * 2 ^ k)) {x = a * 2 ^ k + 0} {y = a * 2 ^ k} (omega arith),
      ap (bit_xor (a * 2 ^ k + 0)) {x = b * 2 ^ k + 0} {y = b * 2 ^ k} (omega arith),
    )

-- A word of the multiplicand in front of k lower digits, and what is carried on.
mult_split :
    (n m k w r carry s : ℕ)
    → r < 2 ^ k
    → s < 2 ^ k
    → carry * 2 ^ k + s ≡ gf2_mul n m r
    → bit_xor carry (gf2_mul n m w) * 2 ^ k + s ≡ gf2_mul n m (w * 2 ^ k + r)
mult_split n m k w r carry s lr ls e =
    ap (λ z. z * 2 ^ k + s) (bit_xor_comm carry (gf2_mul n m w))
    ∙ omega
        (arith, bit_xor_split k (gf2_mul n m w) 0 carry s (omega (arith, ls)) ls, zero-bit_xor s)
    ∙ ap (λ z. bit_xor z (carry * 2 ^ k + s)) {x = gf2_mul n m w * 2 ^ k + 0}
        {y = gf2_mul n m w * 2 ^ k} (omega arith)
    ∙ ap (bit_xor (gf2_mul n m w * 2 ^ k)) e
    ∙ ap (λ z. bit_xor z (gf2_mul n m r)) (sym (gf2_mul_shift n m w k))
    ∙ sym (gf2_mul-bit_xor n m (w * 2 ^ k) r)
    ∙ ap (gf2_mul n m) (split_word k w r lr)

abbrev pub IsWord : ℕ → Type 0
IsWord w = w < 2 ^ 32

-- Written out: the words of a product, with the carry in front.
record Product (m : ℕ) (ws : Sig) : Type 0 where
  carry_low : (mult_words m ws).0 < 2 ^ 32
  words_length : length (mult_words m ws).1 ≡ length ws
  words_low : value (mult_words m ws).1 < 2 ^ (32 * length ws)
  value_low : value ws < 2 ^ (32 * length ws)
  product :
      (mult_words m ws).0 * 2 ^ (32 * length ws) + value (mult_words m ws).1
      ≡ gf2_mul 32 m (value ws)

pub gf2_mul-zero : (n x : ℕ) → gf2_mul n x 0 ≡ 0
gf2_mul-zero n x = omega (arith, gf2_mul_double n x 0)

pub pow_add : (a b : ℕ) → 2 ^ (a + b) ≡ 2 ^ a * 2 ^ b
pow_add a zero = ap (λ z. 2 ^ z) {x = a + 0} {y = a} (omega arith) ∙ omega arith
pow_add a (suc b) =
    ap (λ z. 2 ^ z) {x = a + suc b} {y = suc (a + b)} (omega arith)
    ∙ omega (arith, pow_suc (a + b), pow_add a b, times_pow_suc (2 ^ a) b)

pub pow_block : (n : ℕ) → 2 ^ (32 * suc n) ≡ 2 ^ (32 * n) * 2 ^ 32
pow_block n = ap (λ z. 2 ^ z) {x = 32 * suc n} {y = 32 * n + 32} (omega arith) ∙ pow_add (32 * n) 32

below_block : (x m s : ℕ) → x < 2 ^ 32 → s < m → x * m + s < m * 2 ^ 32
below_block x m s l h = grind arith

join_parts : (q r m s : ℕ) → q * (m * 2 ^ 32) + (r * m + s) ≡ (q * 2 ^ 32 + r) * m + s
join_parts q r m s = grind arith

join_block : (p m s : ℕ) → p / 2 ^ 32 * (m * 2 ^ 32) + (p % 2 ^ 32 * m + s) ≡ p * m + s
join_block p m s =
    join_parts (p / 2 ^ 32) (p % 2 ^ 32) m s
    ∙ ap (λ z. z * m + s) {x = p / 2 ^ 32 * 2 ^ 32 + p % 2 ^ 32} {y = p} (omega arith)

words-Product : (m : ℕ) (ws : Sig) → m < 2 ^ 32 → All IsWord ws → Product m ws
unfolding mult_words value
words-Product m [] l a = record {
  carry_low = omega arith;
  words_length = refl;
  words_low = omega arith;
  value_low = omega arith;
  product = sym (gf2_mul-zero 32 m);
}
words-Product m (w ∷ ws) l a =
    let h = words-Product m ws l a.1 in
    let c = (mult_words m ws).0 in
    let s = value (mult_words m ws).1 in
    let p = word_loop 32 m w c in
    let size = 2 ^ (32 * length ws) in
    let e : p ≡ bit_xor c (gf2_mul 32 m w) = word_loop_lem 32 m w c l (omega (arith, a.0)) in
    let bound : bit_xor c (gf2_mul 32 m w) < 2 ^ 64 =
      bit_xor_bound 64 c (gf2_mul 32 m w) (omega (arith, h.carry_low))
        (gf2_mul_bound 32 32 m w a.0) in
    record {
      carry_low = omega (arith, e, bound);
      words_length = ap suc h.words_length;
      words_low =
          rw (h.words_length, pow_block (length ws))
            (below_block (p % 2 ^ 32) size s (omega arith) h.words_low);
      value_low = rw (pow_block (length ws)) (below_block w size (value ws) a.0 h.value_low);
      product =
          rw (h.words_length, pow_block (length ws))
            (join_block p size s
              ∙ ap (λ z. z * size + s) e
              ∙ mult_split 32 m (32 * length ws) w (value ws) c s h.value_low h.words_low
                  h.product);
    }

pub value_bound : (ws : Sig) → All IsWord ws → value ws < 2 ^ (32 * length ws)
value_bound ws a = (words-Product 0 ws (omega arith) a).value_low

-- The number of the product of a polynomial and a word, both of 32-bit words, is the product without
-- carries of their numbers.
pub mult_poly-gf2_mul :
    (f : Sig) (m : ℕ) → All IsWord f → m < 2 ^ 32 → value (mult_poly f m) ≡ gf2_mul 32 m (value f)
unfolding mult_poly value
mult_poly-gf2_mul f m a l =
    let h = words-Product m f l a in
    elim (Bool-cases ((mult_words m f).0 == 0)) [
      | inl e ↦ rw e (
          omega (
            arith,
            ap (λ z. z * 2 ^ (32 * length f)) ((==_iff (mult_words m f).0 0).0 e),
            h.product,
          ))
      | inr e ↦
          rw (e, h.words_length)
            (ap (λ z. z * 2 ^ (32 * length f) + value (mult_words m f).1)
                {x = (mult_words m f).0 % 2 ^ 32} {y = (mult_words m f).0}
                (omega (arith, h.carry_low))
              ∙ h.product)
    ]
