-- ===== src/Lsh/Groups.antt =====
-- `getHashCode`: signatures of the same values have the same identifiers, one for each group.
use xgossip.Prelude.{
  ℕ, zero, suc, ◌+◌, ◌*◌, ◌≤◌, ◌<◌, ◌≢◌, ◌≡◌, refl, ap, List, [], ◌∷◌, Option, none, some, map,
  Bool, true, false, ◌==◌, if◌then◌else◌, length, get_elem?, get_elem?_lt, arith,
}
use xgossip.Sig.{Sig}
use xgossip.Lsh.{
  Lsh, hash_value, hash_values, is_minimum, min_hash, min_hashes, pre_hashes, group_text, ◌>>=◌,
}
use xgossip.Lsh.Minimum.{SameSet, is_minimum-map, hash_values-map}

bind_ext {ℓ κ} :
    {A : Type ℓ} {B : Type κ} (o : Option A) (f g : A → Option B)
    → ((a : A) → f a ≡ g a)
    → (o >>= f) ≡ (o >>= g)
bind_ext none f g e = refl
bind_ext (some a) f g e = e a

under_if {ℓ κ} :
    {A : Type ℓ} {B : Type κ} (b : Bool) (o o' : Option A) (f : A → Option B)
    → (o >>= f) ≡ (o' >>= f)
    → ((if b then none else o) >>= f) ≡ ((if b then none else o') >>= f)
under_if true o o' f e = refl
under_if false o o' f e = e

is_minimum-some : (g : ℕ → ℕ) (s : List ℕ) → s ≢ [] → (x : ℕ) × (is_minimum (map g s) ≡ some x)
unfolding is_minimum
is_minimum-some g [] n = absurd (n refl)
is_minimum-some g (x ∷ s) n = (_, refl)

-- The hashes that `run_lsh` makes for a signature: one group after the other, of its own length.
module _ (l m highest : ℕ) (randa randb : List ℕ) where
  unfoldable pub lsh_of : Sig → Lsh
  lsh_of s = record {
    k = length s;
    l = l;
    m = m;
    col = 0;
    highest = highest;
    randa = randa;
    randb = randb;
  }

  module _ (s t : Sig) (e : SameSet s t) where
    same_values :
        (a b : ℕ)
        → (hash_values a b highest (length s) s >>= is_minimum)
          ≡ (hash_values a b highest (length t) t >>= is_minimum)
    same_values a b =
        rw (hash_values-map a b highest s, hash_values-map a b highest t)
          (is_minimum-map (hash_value a b highest) s t e)

    same_min : (f : ℕ) → min_hash (lsh_of s) s f ≡ min_hash (lsh_of t) t f
    unfolding min_hash lsh_of
    same_min f = bind_ext (get_elem? randa f) _ _ (λ a. bind_ext (get_elem? randb f) _ _ (λ b.
        under_if (highest == 0) (hash_values a b highest (length s) s)
          (hash_values a b highest (length t) t) is_minimum (same_values a b)))

    same_mins : (f n : ℕ) → min_hashes (lsh_of s) s f n ≡ min_hashes (lsh_of t) t f n
    unfolding min_hashes
    same_mins f zero = refl
    same_mins f (suc n) = rw (same_min f, same_mins (f + 1) n) refl

    pub same_pre : (f n : ℕ) → pre_hashes (lsh_of s) s f n ≡ pre_hashes (lsh_of t) t f n
    unfolding pre_hashes lsh_of
    same_pre f zero = refl
    same_pre f (suc n) = rw (same_mins f l, same_pre (f + l) n) refl

  -- Enough hash functions, and a modulus.
  module _ (s : Sig) (some_value : s ≢ []) (modulus : 0 < highest) where
    not_zero : (highest == 0) ≡ false
    not_zero = ground arith

    min_ends :
        (f : ℕ) → f < length randa → f < length randb → (x : ℕ) × (min_hash (lsh_of s) s f ≡ some x)
    unfolding min_hash lsh_of
    min_ends f la lb =
        let (a, p) = get_elem?_lt randa f la in
        let (b, q) = get_elem?_lt randb f lb in
        let (x, r) = is_minimum-some (hash_value a b highest) s some_value in
        (x, rw (p, q, not_zero, hash_values-map a b highest s) r)

    mins_end :
        (f n : ℕ)
        → f + n ≤ length randa
        → f + n ≤ length randb
        → (xs : List ℕ) × (min_hashes (lsh_of s) s f n ≡ some xs)
    unfolding min_hashes
    mins_end f zero la lb = ([], refl)
    mins_end f (suc n) la lb =
        let (x, p) = min_ends f (omega arith) (omega arith) in
        let (xs, q) = mins_end (f + 1) n (omega arith) (omega arith) in (x ∷ xs, rw (p, q) refl)

    pub pre_end :
        (f n : ℕ)
        → f + n * l ≤ length randa
        → f + n * l ≤ length randb
        → (ts : List (List ℕ)) × (pre_hashes (lsh_of s) s f n ≡ some ts) × (length ts ≡ n)
    unfolding pre_hashes lsh_of
    pre_end f zero la lb = ([], refl, refl)
    pre_end f (suc n) la lb =
        let (xs, p) = mins_end f l (omega arith) (omega arith) in
        let (ts, q, e) = pre_end (f + l) n (omega arith) (omega arith) in
        (group_text xs ∷ ts, rw (p, q) refl, ap suc e)
