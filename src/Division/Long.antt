-- ===== src/Division/Long.antt =====
-- Long division of numbers whose digits are coefficients, which the loop on words carries out.
use Prim.Native.Nat.{bit_xor}
use xgossip.Prelude.{
  ℕ, zero, suc, ◌+◌, ◌-◌, ◌*◌, ◌/◌, ◌%◌, ◌^◌, ◌≤◌, ◌<◌, ◌≡◌, refl, sym, ap, ◌∙◌, arith, Bool, true,
  false, not, ◌==◌, if◌then◌else◌, Bool-cases, inl, inr, ltb, ◌⊎◌,
}
use xgossip.Poly.Xor.{
  bit_xor_split, bit_xor_bound, bit_xor_assoc, bit_xor_step, bit_xor_comm, bit_xor-zero,
  zero-bit_xor, pow_suc,
}
use xgossip.Poly.Multiply.{gf2_mul, pow_suc_add, pow_add, zero-gf2_mul}
use xgossip.Poly.Product.{gf2_mul_digits}
use xgossip.Division.Digits.{pow_pos, HasDegree, top_set, top_clear}

self_fuel : (n a : ℕ) → a ≤ n → bit_xor a a ≡ 0
self_fuel zero zero h = refl
self_fuel zero (suc a) h = absurd (omega arith)
self_fuel (suc n) a h = omega (arith, bit_xor_step a a, self_fuel n (a / 2) (omega arith))

pub one-gf2_mul : (g : ℕ) → gf2_mul 1 1 g ≡ g
unfolding gf2_mul
one-gf2_mul g = bit_xor-zero g

-- Equal numbers cancel, and so the first bit of two numbers of the same degree.
pub bit_xor_self : (a : ℕ) → bit_xor a a ≡ 0
bit_xor_self a = self_fuel a a (omega arith)

pub first_bits_cancel : (k a b : ℕ) → HasDegree k a → HasDegree k b → bit_xor a b < 2 ^ k
first_bits_cancel k a b p q =
    let x = a - 2 ^ k in
    let y = b - 2 ^ k in
    let lx : x < 2 ^ k = omega (arith, p.above, p.below, pow_suc k) in
    let ly : y < 2 ^ k = omega (arith, q.above, q.below, pow_suc k) in
    omega (
      arith,
      bit_xor_split k 1 x 1 y lx ly,
      bit_xor_bound k x y lx ly,
      ap (λ z. bit_xor z (1 * 2 ^ k + y)) {x = a} {y = 1 * 2 ^ k + x} (omega (arith, p.above)),
      ap (λ z. bit_xor a z) {x = b} {y = 1 * 2 ^ k + y} (omega (arith, q.above)),
    )

times_le : (a b m : ℕ) → a ≤ b → a * m ≤ b * m
times_le a b m h = grind arith

the_suc : (g m : ℕ) → suc g * m ≡ g * m + m
the_suc g m = grind arith

pub shift-HasDegree : (d s g : ℕ) → HasDegree d g → HasDegree (s + d) (g * 2 ^ s)
shift-HasDegree d s g h =
    let e : 2 ^ (s + d) ≡ 2 ^ d * 2 ^ s = pow_add s d ∙ grind arith in
    let e' : 2 ^ suc (s + d) ≡ 2 ^ suc d * 2 ^ s =
      pow_suc (s + d) ∙ ap (λ z. z * 2) e ∙ grind (arith, ap (λ z. z * 2 ^ s) (pow_suc d)) in
    record {
      above = omega (arith, e, times_le (2 ^ d) g (2 ^ s) h.above);
      below =
          omega
            (arith, e', times_le (suc g) (2 ^ suc d) (2 ^ s) h.below, pow_pos s, the_suc g (2 ^ s));
    }

-- The bit that the divisor's first bit stands under, and what is left after the round.
abbrev pub bit_at : ℕ → ℕ → Bool
bit_at k v = not (v / 2 ^ k % 2 == 0)

abbrev pub after_round : ℕ → ℕ → ℕ → ℕ → ℕ
after_round d g s v = if bit_at (s + d) v then bit_xor v (g * 2 ^ s) else v

-- The rounds for s bits of the quotient, of a divisor g of degree d: the quotient and the remainder.
unfoldable pub long_division : ℕ → ℕ → ℕ → ℕ → ℕ × ℕ
long_division d g zero v = (0, v)
long_division d g (suc s) v =
    let (q, r) = long_division d g s (after_round d g s v) in
    ((if bit_at (s + d) v then 2 ^ s else 0) + q, r)

pub bit_at-cases :
    (k v : ℕ)
    → v < 2 ^ suc k
    → ((bit_at k v ≡ true) × HasDegree k v) ⊎ ((bit_at k v ≡ false) × (v < 2 ^ k))
bit_at-cases k v l = elim (Bool-cases (ltb v (2 ^ k))) [
  | inl e ↦ inr (rw (top_clear k v (ground arith)) refl, ground arith)
  | inr e ↦
      let h : HasDegree k v = record { above = ground arith; below = l } in
      inl (rw (top_set k v h) refl, h)
]

pub after_round_bound :
    (d g s v : ℕ) → HasDegree d g → v < 2 ^ suc (s + d) → after_round d g s v < 2 ^ (s + d)
after_round_bound d g s v h l = elim (bit_at-cases (s + d) v l) [
  | inl (e, p) ↦ rw e (first_bits_cancel (s + d) v (g * 2 ^ s) p (shift-HasDegree d s g h))
  | inr (e, p) ↦ rw e p
]

next_bound : (s d v : ℕ) → v < 2 ^ (suc s + d) → v < 2 ^ suc (s + d)
next_bound s d v l = omega (arith, pow_suc_add s d, pow_suc (s + d))

bit_below : (t : Bool) (q m : ℕ) → q < m → (if t then m else 0) + q < m * 2
bit_below true q m l = omega arith
bit_below false q m l = omega arith

pub long_division_bound :
    (d g s v : ℕ)
    → HasDegree d g
    → v < 2 ^ (s + d)
    → ((long_division d g s v).0 < 2 ^ s) × ((long_division d g s v).1 < 2 ^ d)
unfolding long_division
long_division_bound d g zero v h l =
    (omega arith, omega (arith, ap (λ z. 2 ^ z) {x = 0 + d} {y = d} (omega arith)))
long_division_bound d g (suc s) v h l =
    let (a, b) =
      long_division_bound d g s (after_round d g s v) h
        (after_round_bound d g s v h (next_bound s d v l)) in
    (
      omega (
        arith,
        pow_suc s,
        bit_below (bit_at (s + d) v) (long_division d g s (after_round d g s v)).0 (2 ^ s) a,
      ),
      b,
    )

-- The bit s of a quotient adds the divisor, shifted by s.
add_shifted :
    (t : Bool) (s q g : ℕ)
    → q < 2 ^ s
    → gf2_mul (suc s) ((if t then 2 ^ s else 0) + q) g
      ≡ bit_xor (gf2_mul s q g) (if t then g * 2 ^ s else 0)
add_shifted true s q g l =
    ap (λ n. gf2_mul n (2 ^ s + q) g) {x = suc s} {y = s + 1} (omega arith)
    ∙ ap (λ z. gf2_mul (s + 1) z g) {x = 2 ^ s + q} {y = 1 * 2 ^ s + q} (omega arith)
    ∙ gf2_mul_digits 1 s 1 q g l
    ∙ ap (λ z. bit_xor (gf2_mul s q g) (z * 2 ^ s)) (one-gf2_mul g)
add_shifted false s q g l =
    ap (λ n. gf2_mul n (0 + q) g) {x = suc s} {y = s + 1} (omega arith)
    ∙ ap (λ z. gf2_mul (s + 1) z g) {x = 0 + q} {y = 0 * 2 ^ s + q} (omega arith)
    ∙ gf2_mul_digits 1 s 0 q g l
    ∙ ap (λ z. bit_xor (gf2_mul s q g) (z * 2 ^ s)) (zero-gf2_mul 1 g)
    ∙ ap (bit_xor (gf2_mul s q g)) {x = 0 * 2 ^ s} {y = 0} (omega arith)

restore :
    (t : Bool) (m r v x : ℕ)
    → bit_xor m r ≡ (if t then bit_xor v x else v)
    → bit_xor (bit_xor m (if t then x else 0)) r ≡ v
restore true m r v x e =
    bit_xor_assoc m x r
    ∙ ap (bit_xor m) (bit_xor_comm x r)
    ∙ sym (bit_xor_assoc m r x)
    ∙ ap (λ z. bit_xor z x) e
    ∙ bit_xor_assoc v x x
    ∙ ap (bit_xor v) (bit_xor_self x)
    ∙ bit_xor-zero v
restore false m r v x e = ap (λ z. bit_xor z r) (bit_xor-zero m) ∙ e

-- The quotient times the divisor, and the remainder, are together the dividend.
pub long_division_lem :
    (d g s v : ℕ)
    → HasDegree d g
    → v < 2 ^ (s + d)
    → bit_xor (gf2_mul s (long_division d g s v).0 g) (long_division d g s v).1 ≡ v
unfolding long_division gf2_mul
long_division_lem d g zero v h l = zero-bit_xor v
long_division_lem d g (suc s) v h l =
    let v' = after_round d g s v in
    let l' : v' < 2 ^ (s + d) = after_round_bound d g s v h (next_bound s d v l) in
    let q = (long_division d g s v').0 in
    let r = (long_division d g s v').1 in
    let t = bit_at (s + d) v in
    ap (λ z. bit_xor z r) (add_shifted t s q g (long_division_bound d g s v' h l').0)
    ∙ restore t (gf2_mul s q g) r v (g * 2 ^ s) (long_division_lem d g s v' h l')
