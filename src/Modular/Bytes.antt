-- ===== src/Modular/Bytes.antt =====
-- `findMod` is the remainder of the polynomial whose coefficients are the bits of the bytes.
use Prim.Native.Nat.{bit_and, bit_xor}
use mathlib.Core.Path.{subst}
use native.Mathlib.Nat.{div-div-eq-div-mul}
use xgossip.Prelude.{
  ℕ, zero, suc, ◌+◌, ◌-◌, ◌*◌, ◌/◌, ◌%◌, ◌^◌, ◌<◌, ◌≡◌, refl, sym, ap, ◌∙◌, arith, false, not, ◌==◌,
  inl, inr, List, [], ◌∷◌, some, All,
}
use xgossip.Poly.Xor.{pow_suc}
use xgossip.Poly.Multiply.{pow_grows, pow_add}
use xgossip.Division.{word_degree}
use xgossip.Division.Digits.{HasDegree, pow_pos, bit_and-pow, degree_loop_lem}
use xgossip.Division.Quotient.{Division}
use xgossip.Modular.{Finding, find_bit, find_bits, find_bytes, find_mod}
use xgossip.Modular.Residues.{IsCongruent, IsCongruent-refl, IsCongruent-sym, IsCongruent-Division}
use xgossip.Modular.Bits.{bit_of, Inv, pow_next, next_bound, settle, find_bit-Inv}

-- The number whose digits are the bits of the bytes, the first byte the lowest.
unfoldable pub bytes_value : List ℕ → ℕ
bytes_value [] = 0
bytes_value (b ∷ bs) = b + 256 * bytes_value bs

bit_read : (b j : ℕ) → bit_of (not (bit_and b (2 ^ j) == 0)) ≡ b / 2 ^ j % 2
bit_read b j = rw (bit_and-pow j b) (digit_test (b / 2 ^ j % 2) (2 ^ j) (omega arith) (pow_pos j))
  where
    digit_test : (x p : ℕ) → x < 2 → 0 < p → bit_of (not (x * p == 0)) ≡ x
    digit_test zero p l h = ground arith
    digit_test (suc zero) p l h = ground arith
    digit_test (suc (suc x)) p l h = absurd (omega (arith, l))

half_pow : (b j : ℕ) → b / 2 ^ j / 2 ≡ b / 2 ^ (j + 1)
half_pow b j =
    div-div-eq-div-mul b (2 ^ j) 2
    ∙ ap (λ x. b / x) {x = 2 ^ j * 2} {y = 2 ^ (j + 1)} (omega (arith, pow_next j))

-- The lowest bit and the others, behind those of v.
digits_join : (v h r P : ℕ) → v + r * P + h * (P * 2) ≡ v + (h * 2 + r) * P
digits_join v h r P = grind arith

next_digits :
    (v k b j t : ℕ)
    → t ≡ b / 2 ^ j % 2
    → v + t * 2 ^ k + b / 2 ^ (j + 1) * 2 ^ (k + 1) ≡ v + b / 2 ^ j * 2 ^ k
next_digits v k b j t e =
    ap (λ x. v + t * 2 ^ k + b / 2 ^ (j + 1) * x) (pow_next k)
    ∙ digits_join v (b / 2 ^ (j + 1)) t (2 ^ k)
    ∙ ap (λ x. v + x * 2 ^ k) {x = b / 2 ^ (j + 1) * 2 + t} {y = b / 2 ^ j}
        (omega (arith, half_pow b j, e))

bit_mask_small : (j n : ℕ) → suc n + j ≡ 8 → 2 ^ j % 256 ≡ 2 ^ j
bit_mask_small j n e = omega (
  arith,
  pow_suc j,
  pow_grows n (suc j),
  ap (λ x. 2 ^ x) {x = n + suc j} {y = 8} (omega (arith, e)),
)

-- The n bits of the byte from its bit j on.
find_bits-Inv :
    (n j d z k v b : ℕ) (s : Finding)
    → n + j ≡ 8
    → b / 2 ^ j < 2 ^ n
    → HasDegree d z
    → d < 32
    → v < 2 ^ k
    → Inv d z k v s
    → Inv d z (k + n) (v + b / 2 ^ j * 2 ^ k) (find_bits n d (bit_xor z (2 ^ d)) b (2 ^ j % 256) s)
unfolding find_bits
find_bits-Inv zero j d z k v b s e l h m a x =
    subst (λ y. Inv d z y (v + b / 2 ^ j * 2 ^ k) s) {x = k} (omega arith)
      (subst (λ y. Inv d z k y s) {x = v}
        (omega (arith, ap (λ y. y * 2 ^ k) {x = b / 2 ^ j} {y = 0} (omega (arith, l)))) x)
find_bits-Inv (suc n) j d z k v b s e l h m a x =
    let t = not (bit_and b (2 ^ j) == 0) in
    let s' = find_bit d (bit_xor z (2 ^ d)) t s in
    let rest =
      find_bits-Inv n (j + 1) d z (k + 1) (v + bit_of t * 2 ^ k) b s' (omega (arith, e))
        (omega (arith, l, pow_suc n, half_pow b j)) h m (next_bound t k v a)
        (find_bit-Inv d z k v s t h m a x) in
    let mask_next : 2 ^ (j + 1) % 256 ≡ 2 ^ j * 2 % 256 = omega (arith, pow_next j) in
    rw (bit_mask_small j n e) (
      subst
        (λ y.
          Inv d z y (v + b / 2 ^ j * 2 ^ k)
            (find_bits n d (bit_xor z (2 ^ d)) b (2 ^ j * 2 % 256) s'))
        {x = k + 1 + n} {y = k + suc n} (omega arith)
        (subst
          (λ y. Inv d z (k + 1 + n) y (find_bits n d (bit_xor z (2 ^ d)) b (2 ^ j * 2 % 256) s'))
          (next_digits v k b j (bit_of t) (bit_read b j))
          (subst
            (λ p.
              Inv d z (k + 1 + n) (v + bit_of t * 2 ^ k + b / 2 ^ (j + 1) * 2 ^ (k + 1))
                (find_bits n d (bit_xor z (2 ^ d)) b p s'))
            mask_next rest)))

below_byte : (v b P : ℕ) → v < P → b < 256 → v + b * P < P * 256
below_byte v b P l m = grind arith

byte_sum : (v b n P : ℕ) → v + b * P + n * (P * 256) ≡ v + (b + 256 * n) * P
byte_sum v b n P = grind arith

byte_bound : (v b k : ℕ) → v < 2 ^ k → b < 256 → v + b * 2 ^ k < 2 ^ (k + 8)
byte_bound v b k l m = omega (arith, pow_add k 8, below_byte v b (2 ^ k) l m)

-- The number that is read in the end, and the state.
record Read (d z v : ℕ) (s : Finding) : Type 0 where
  k : ℕ
  bound : v < 2 ^ k
  invariant : Inv d z k v s

find_bytes-Read :
    (d z k v : ℕ) (bs : List ℕ) (s : Finding)
    → HasDegree d z
    → d < 32
    → All (λ b. b < 256) bs
    → v < 2 ^ k
    → Inv d z k v s
    → Read d z (v + bytes_value bs * 2 ^ k) (find_bytes d (bit_xor z (2 ^ d)) bs s)
unfolding find_bytes bytes_value
find_bytes-Read d z k v [] s h m l a x =
    subst (λ y. Read d z y s) {x = v} (omega arith) (record { k = k; bound = a; invariant = x })
find_bytes-Read d z k v (b ∷ bs) s h m l a x =
    let s' = find_bits 8 d (bit_xor z (2 ^ d)) b 1 s in
    let y =
      subst (λ c. Inv d z (k + 8) (v + c * 2 ^ k) s') {x = b / 2 ^ 0} {y = b} (omega arith)
        (find_bits-Inv 8 0 d z k v b s refl (omega (arith, l.0)) h m a x) in
    subst (λ n. Read d z n (find_bytes d (bit_xor z (2 ^ d)) bs s'))
      (ap (λ p. v + b * 2 ^ k + bytes_value bs * p) (pow_add k 8)
        ∙ byte_sum v b (bytes_value bs) (2 ^ k))
      (find_bytes-Read d z (k + 8) (v + b * 2 ^ k) bs s' h m l.1 (byte_bound v b k a l.0) y)

Inv-residue :
    (d z k v : ℕ) (s : Finding)
    → v < 2 ^ k
    → Inv d z k v s
    → (s.res < 2 ^ d) × IsCongruent z v s.res
Inv-residue d z k v s a (inl x) = (
  omega (
    arith,
    x.res_value,
    a,
    x.low,
    pow_grows (d - k) k,
    ap (λ y. 2 ^ y) {x = d - k + k} {y = d} (omega (arith, x.low)),
  ),
  subst (IsCongruent z v) (sym x.res_value) (IsCongruent-refl z v),
)
Inv-residue d z k v s a (inr x) = (x.res_bound, IsCongruent-sym z s.res v x.res_congruent)

abbrev start : ℕ → ℕ → Finding
start d z = record { res = 0; res_mask = bit_xor z (2 ^ d); small_bits_mask = 1; k = 0 }

find_mod_run :
    (bs : List ℕ) (z d : ℕ)
    → word_degree z ≡ suc d
    → find_mod bs z ≡ some (find_bytes d (bit_xor z (2 ^ d)) bs (start d z)).res
unfolding find_mod
find_mod_run bs z d e = rw (e, positive_test d, suc_minus d) refl
  where
    positive_test : (y : ℕ) → (suc y == 0) ≡ false
    positive_test y = ground arith

    suc_minus : (y : ℕ) → suc y - 1 ≡ y
    suc_minus y = omega arith

-- For a word z other than 0, `findMod` gives the remainder of the polynomial of the bytes by z.
pub find_mod-Division :
    (bs : List ℕ) (z : ℕ)
    → All (λ b. b < 256) bs
    → 0 < z
    → z < 2 ^ 32
    → (r q : ℕ) × (find_mod bs z ≡ some r) × Division (bytes_value bs) z q r
unfolding find_mod
find_mod-Division bs z l p b =
    let (d, e, m, h) = degree_loop_lem 32 z b p in
    let x =
      find_bytes-Read d z 0 0 bs (start d z) h m l (omega arith)
        (settle d z 0 0 (start d z) h (omega arith) (omega arith) refl refl refl refl) in
    let (rb, rc) = Inv-residue d z x.k (0 + bytes_value bs * 2 ^ 0) _ x.bound x.invariant in
    let r = (find_bytes d (bit_xor z (2 ^ d)) bs (start d z)).res in
    let (q, y) =
      IsCongruent-Division d z (bytes_value bs) r h rb
        (subst (λ v. IsCongruent z v r) {x = 0 + bytes_value bs * 2 ^ 0} (omega arith) rc) in
    (r, q, find_mod_run bs z d e, y)
