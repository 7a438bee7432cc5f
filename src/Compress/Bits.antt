-- ===== src/Compress/Bits.antt =====
-- The bits of a bitmap: marking one leaves the others.
use Prim.Native.Nat.{bit_and, bit_or}
use xgossip.Prelude.{
  ℕ, zero, suc, ◌+◌, ◌*◌, ◌/◌, ◌%◌, ◌≤◌, ◌<◌, ◌≡◌, refl, List, [], ◌∷◌, some, Bool, true, false,
  not, ◌&&◌, ◌||◌, ltb, ◌==◌, if◌then◌else◌, length, get_elem?, set, replicate, All, arith,
  length-set, get_elem?-set, get_elem?_lt, length-replicate,
}
use xgossip.Compress.{mask, set_bit, test_bit}

-- The eight bits and the 256 bytes are few enough to test a law at each.
every : (ℕ → Bool) → ℕ → Bool
every test zero = true
every test (suc k) = let rest = every test k in if test k then rest else false

every-at : (test : ℕ → Bool) (k i : ℕ) → i < k → every test k ≡ true → test i ≡ true
unfolding every
every-at test zero i l e = absurd (omega arith)
every-at test (suc k) i l e = ground (arith, every-at test k i)

abbrev is_set : ℕ → ℕ → Bool
is_set b j = not (bit_and b (mask j) == 0)

same : Bool → Bool → Bool
same true b = b
same false b = not b

same→eq : (a b : Bool) → same a b ≡ true → a ≡ b
unfolding same
same→eq a b h = ground arith

abbrev law : ℕ → ℕ → ℕ → Bool
law b i j = same (is_set (bit_or b (mask i)) j) ((i == j) || is_set b j)

table : every (λ b. every (λ i. ltb (bit_or b (mask i)) 256 && every (law b i) 8) 8) 256 ≡ true
unfolding every same
table = refl

row : (b i : ℕ) → b < 256 → i < 8 → (ltb (bit_or b (mask i)) 256 && every (law b i) 8) ≡ true
row b i hb hi = every-at _ 8 i hi (every-at _ 256 b hb table)

and_left : (a b : Bool) → (a && b) ≡ true → a ≡ true
and_left a b h = ground arith

and_right : (a b : Bool) → (a && b) ≡ true → b ≡ true
and_right a b h = ground arith

ltb→lt : (a b : ℕ) → ltb a b ≡ true → a < b
ltb→lt a b h = ground arith

or_mask_lt : (b i : ℕ) → b < 256 → i < 8 → bit_or b (mask i) < 256
or_mask_lt b i hb hi = ltb→lt _ _ (and_left _ (every (law b i) 8) (row b i hb hi))

is_set-or_mask :
    (b i j : ℕ) → b < 256 → i < 8 → j < 8 → is_set (bit_or b (mask i)) j ≡ ((i == j) || is_set b j)
is_set-or_mask b i j hb hi hj =
    same→eq _ _ (every-at (law b i) 8 j hj (and_right _ _ (row b i hb hi)))

All-get_elem? : (bm : List ℕ) (k b : ℕ) → All (λ x. x < 256) bm → get_elem? bm k ≡ some b → b < 256
All-get_elem? [] k b a h = cc
All-get_elem? (x ∷ bm) zero b a h = ground arith
All-get_elem? (x ∷ bm) (suc k) b a h = All-get_elem? bm k b a.1 h

All-set :
    (bm : List ℕ) (k b : ℕ) → All (λ x. x < 256) bm → b < 256 → All (λ x. x < 256) (set bm k b)
All-set [] k b a h = tt
All-set (x ∷ bm) zero b a h = (h, a.1)
All-set (x ∷ bm) (suc k) b a h = (a.0, All-set bm k b a.1 h)

-- A bitmap of bytes with room for the first n signatures.
pub record IsBitmap (n : ℕ) (bm : List ℕ) : Type 0 where
  pub bytes : All (λ x. x < 256) bm
  pub room : n ≤ 8 * length bm

module _ (n : ℕ) (bm : List ℕ) (w : IsBitmap n bm) (i : ℕ) (hi : i < n) where
  pub byte_at : (b : ℕ) × (get_elem? bm (i / 8) ≡ some b)
  byte_at = let r = w.room in get_elem?_lt bm (i / 8) (omega arith)

  pub set_bit-IsBitmap : IsBitmap n (set_bit bm i)
  unfolding set_bit
  set_bit-IsBitmap =
      let (b, e) = byte_at in
      rw (e, set_bit)
        (record {
          bytes =
              All-set bm (i / 8) _ w.bytes
                (or_mask_lt b (i % 8) (All-get_elem? bm (i / 8) b w.bytes e) (omega arith));
          room = let r = w.room in omega (arith, length-set bm (i / 8) (bit_or b (mask (i % 8))));
        })

  pub test_bit-set_bit :
      (j : ℕ) → test_bit (set_bit bm i) j ≡ (if i == j then some true else test_bit bm j)
  unfolding set_bit test_bit
  test_bit-set_bit j =
      let (b, e) = byte_at in
      let r = w.room in
      rw (e, set_bit)
        (ground (
          arith,
          get_elem?-set bm (i / 8) (j / 8) (bit_or b (mask (i % 8))),
          is_set-or_mask b (i % 8) (j % 8),
          All-get_elem? bm (i / 8) b w.bytes e,
        ))

  pub test_bit_total : (c : Bool) × (test_bit bm i ≡ some c)
  unfolding test_bit
  test_bit_total = let (b, e) = byte_at in (is_set b (i % 8), rw e)

All-replicate : (k : ℕ) → All (λ x. x < 256) (replicate k 0)
All-replicate zero = tt
All-replicate (suc k) = (omega arith, All-replicate k)

pub zeros-IsBitmap : (n : ℕ) → IsBitmap n (replicate ((n + 7) / 8) 0)
zeros-IsBitmap n = record {
  bytes = All-replicate ((n + 7) / 8);
  room = omega (arith, length-replicate {A = ℕ} ((n + 7) / 8) 0);
}

get_elem?-zeros : (k i : ℕ) → i < k → get_elem? {A = ℕ} (replicate k 0) i ≡ some 0
get_elem?-zeros zero i h = absurd (omega arith)
get_elem?-zeros (suc k) zero h = refl
get_elem?-zeros (suc k) (suc i) h = get_elem?-zeros k i (omega arith)

zero_table : every (λ j. not (is_set 0 j)) 8 ≡ true
unfolding every
zero_table = refl

pub test_bit-zeros : (n j : ℕ) → j < n → test_bit (replicate ((n + 7) / 8) 0) j ≡ some false
unfolding test_bit
test_bit-zeros n j h = ground (
  arith,
  get_elem?-zeros ((n + 7) / 8) (j / 8),
  every-at (λ k. not (is_set 0 k)) 8 (j % 8) (omega arith) zero_table,
)
