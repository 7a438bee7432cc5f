-- ===== src/Modular/Bits.antt =====
-- What a bit does in `findMod`: the result stays a residue of the bits that are read.
use Prim.Native.Nat.{bit_or, bit_xor}
use mathlib.Core.Path.{subst}
use xgossip.Prelude.{
  ℕ, suc, ◌+◌, ◌-◌, ◌*◌, ◌%◌, ◌^◌, ◌≤◌, ◌<◌, ◌≡◌, sym, ap, ◌∙◌, arith, Bool, true, false, leb,
  if◌then◌else◌, inl, inr, ◌⊎◌,
}
use xgossip.Poly.Xor.{pow_suc, bit_xor_bound, bit_xor_comm, bit_xor-zero, bit_xor_split}
use xgossip.Poly.Multiply.{pow_grows}
use xgossip.Division.Digits.{HasDegree, pow_pos, bit_or_joined}
use xgossip.Division.Long.{first_bits_cancel}
use xgossip.Modular.{Finding, find_bit}
use xgossip.Modular.Residues.{
  IsCongruent, IsCongruent-refl, IsCongruent-trans, IsCongruent-bit_xor, IsCongruent-double,
  IsCongruent-sum, double_mod_lem,
}

abbrev pub bit_of : Bool → ℕ
bit_of b = if b then 1 else 0

-- The variables when k bits with the number v are read, fewer than the degree d of z,
pub record Low (d z k v : ℕ) (s : Finding) : Type 0 where
  pub low : k < d
  pub counted : s.k ≡ k
  pub res_value : s.res ≡ v
  pub small_value : s.small_bits_mask ≡ 2 ^ k
  pub mask_value : s.res_mask ≡ bit_xor z (2 ^ d)

-- and when they are as many or more: both are residues.
pub record High (d z k v : ℕ) (s : Finding) : Type 0 where
  pub high : d ≤ k
  pub counted : s.k ≡ k
  pub res_bound : s.res < 2 ^ d
  pub res_congruent : IsCongruent z s.res v
  pub mask_bound : s.res_mask < 2 ^ d
  pub mask_congruent : IsCongruent z s.res_mask (2 ^ k)

-- At the degree of z the first turns into the second.
first_mask :
    (d z : ℕ)
    → HasDegree d z
    → (bit_xor z (2 ^ d) < 2 ^ d) × IsCongruent z (bit_xor z (2 ^ d)) (2 ^ d)
first_mask d z h = (
  first_bits_cancel d z (2 ^ d) h
      (record { above = omega arith; below = omega (arith, pow_suc d, pow_pos d) }),
  subst (λ a. IsCongruent z a (2 ^ d)) (bit_xor_comm (2 ^ d) z) (IsCongruent-sum z (2 ^ d)),
)

sum_high : (k v : ℕ) → v < 2 ^ k → bit_xor v (2 ^ k) ≡ v + 2 ^ k
sum_high k v l = omega (
  arith,
  bit_xor_split k 0 v 1 0 l (pow_pos k),
  bit_xor-zero v,
  ap (λ a. bit_xor a (1 * 2 ^ k + 0)) {x = 0 * 2 ^ k + v} {y = v} (omega arith),
  ap (bit_xor v) {x = 1 * 2 ^ k + 0} {y = 2 ^ k} (omega arith),
)

abbrev pub Inv : (d z k v : ℕ) (s : Finding) → Type 0
Inv d z k v s = Low d z k v s ⊎ High d z k v s

below_or_at : (k d : ℕ) → k ≤ d → (k < d) ⊎ (k ≡ d)
below_or_at k d l = omega arith

pub settle :
    (d z k v : ℕ) (s : Finding)
    → HasDegree d z
    → k ≤ d
    → v < 2 ^ k
    → s.k ≡ k
    → s.res ≡ v
    → s.small_bits_mask ≡ 2 ^ k
    → s.res_mask ≡ bit_xor z (2 ^ d)
    → Inv d z k v s
settle d z k v s h l b c r m n = elim (below_or_at k d l) [
  | inl e ↦ inl (record { low = e; counted = c; res_value = r; small_value = m; mask_value = n })
  | inr e ↦
      let (mb, mc) = first_mask d z h in
      let p : 2 ^ k ≡ 2 ^ d = ap (λ x. 2 ^ x) e in
      inr (record {
        high = omega (arith, e);
        counted = c;
        res_bound = omega (arith, r, b, p);
        res_congruent = subst (λ x. IsCongruent z x v) (sym r) (IsCongruent-refl z v);
        mask_bound = subst (λ x. x < 2 ^ d) (sym n) mb;
        mask_congruent =
            subst (λ x. IsCongruent z x (2 ^ k)) (sym n)
              (subst (IsCongruent z (bit_xor z (2 ^ d))) (sym p) mc);
      })
]

pub pow_next : (k : ℕ) → 2 ^ (k + 1) ≡ 2 ^ k * 2
pow_next k = ap (λ x. 2 ^ x) {x = k + 1} {y = suc k} (omega arith) ∙ pow_suc k

small_next : (k d : ℕ) → k < d → d < 32 → 2 ^ k * 2 % 2 ^ 32 ≡ 2 ^ (k + 1)
small_next k d l b = omega (
  arith,
  pow_next k,
  pow_grows (30 - k) (k + 1),
  ap (λ x. 2 ^ x) {x = 30 - k + (k + 1)} {y = 31} (omega (arith, l, b)),
)

pub next_bound : (t : Bool) (k v : ℕ) → v < 2 ^ k → v + bit_of t * 2 ^ k < 2 ^ (k + 1)
next_bound true k v l = omega (arith, l, pow_next k)
next_bound false k v l = omega (arith, l, pow_next k)

low_res :
    (t : Bool) (k v : ℕ) → v < 2 ^ k → (if t then bit_or v (2 ^ k) else v) ≡ v + bit_of t * 2 ^ k
low_res true k v l =
    ap (bit_or v) {x = 2 ^ k} {y = 1 * 2 ^ k} (omega arith) ∙ bit_or_joined k 1 v l ∙ omega arith
low_res false k v l = omega arith

Low-step :
    (d z k v : ℕ) (s : Finding) (t : Bool)
    → HasDegree d z
    → d < 32
    → v < 2 ^ k
    → Low d z k v s
    → Inv d z (k + 1) (v + bit_of t * 2 ^ k) (find_bit d (bit_xor z (2 ^ d)) t s)
unfolding find_bit
Low-step d z k v s t h l b x =
    let e : leb d s.k ≡ false = ground (arith, x.low, x.counted) in
    rw e (
      settle d z (k + 1) (v + bit_of t * 2 ^ k) _ h (omega (arith, x.low)) (next_bound t k v b)
        (omega (arith, x.counted))
        (ap (λ a. if t then bit_or a s.small_bits_mask else a) x.res_value
          ∙ ap (λ m. if t then bit_or v m else v) x.small_value
          ∙ low_res t k v b)
        (ap (λ m. m * 2 % 2 ^ 32) x.small_value ∙ small_next k d x.low l) x.mask_value)

High-res :
    (t : Bool) (d z k v : ℕ) (s : Finding)
    → v < 2 ^ k
    → High d z k v s
    → ((if t then bit_xor s.res s.res_mask else s.res) < 2 ^ d)
      × IsCongruent z (if t then bit_xor s.res s.res_mask else s.res) (v + bit_of t * 2 ^ k)
High-res true d z k v s b x = (
  bit_xor_bound d s.res s.res_mask x.res_bound x.mask_bound,
  subst (IsCongruent z (bit_xor s.res s.res_mask)) (sum_high k v b ∙ omega arith)
      (IsCongruent-bit_xor z _ _ _ _ x.res_congruent x.mask_congruent),
)
High-res false d z k v s b x = (
  x.res_bound,
  subst (IsCongruent z s.res) {x = v} {y = v + 0 * 2 ^ k} (omega arith) x.res_congruent,
)

High-step :
    (d z k v : ℕ) (s : Finding) (t : Bool)
    → HasDegree d z
    → d < 32
    → v < 2 ^ k
    → High d z k v s
    → Inv d z (k + 1) (v + bit_of t * 2 ^ k) (find_bit d (bit_xor z (2 ^ d)) t s)
unfolding find_bit
High-step d z k v s t h l b x =
    let e : leb d s.k ≡ true = ground (arith, x.high, x.counted) in
    let (rb, rc) = High-res t d z k v s b x in
    let (mb, mc) = double_mod_lem d z s.res_mask l h x.mask_bound in
    rw e (
      inr (record {
        high = omega (arith, x.high);
        counted = omega (arith, x.counted);
        res_bound = rb;
        res_congruent = rc;
        mask_bound = mb;
        mask_congruent = IsCongruent-trans z _ _ _ mc (
            subst (IsCongruent z (2 * s.res_mask)) {x = 2 * 2 ^ k} {y = 2 ^ (k + 1)}
              (omega (arith, pow_next k))
              (IsCongruent-double z s.res_mask (2 ^ k) x.mask_congruent));
      }))

pub find_bit-Inv :
    (d z k v : ℕ) (s : Finding) (t : Bool)
    → HasDegree d z
    → d < 32
    → v < 2 ^ k
    → Inv d z k v s
    → Inv d z (k + 1) (v + bit_of t * 2 ^ k) (find_bit d (bit_xor z (2 ^ d)) t s)
find_bit-Inv d z k v s t h l b (inl x) = Low-step d z k v s t h l b x
find_bit-Inv d z k v s t h l b (inr x) = High-step d z k v s t h l b x
