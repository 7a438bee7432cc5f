-- ===== src/Lsh.antt =====
-- Locality-sensitive hashing of signatures: `getUniqueSet`, `isMinimum` and `getHashCode` of the class lsh in
-- chord-0.1-vasil/utils/utils.C, and `run_lsh` and `calcteamids` of chord-0.1-vasil/tools/gpsi.C.
-- An `int` is its 32-bit pattern; the SHA-1 hash of a text is a parameter.
pub mod Minimum
pub mod Groups
pub mod Teams
mod Examples
use mathlib.Core.Option
use xgossip.Prelude.{
  ℕ, zero, suc, ◌+◌, ◌*◌, ◌%◌, ◌^◌, List, [], ◌∷◌, ◌++◌, Option, none, some, map, Bool, ltb, ◌==◌,
  if◌then◌else◌, length, get_elem?,
}
use xgossip.Sig.{Sig}
use xgossip.Text.{Text, decimal}
use xgossip.Poly.{mult_polys}

infixl 10 ◌>>=◌
abbrev pub ◌>>=◌ {ℓ κ} : {A : Type ℓ} {B : Type κ} → Option A → (A → Option B) → Option B
none >>= f = none
some a >>= f = f a

-- The members of the class that hashing reads, and the arguments of the constructor for them.
pub record Lsh : Type 0 where
  pub k : ℕ
  pub l : ℕ
  pub m : ℕ
  pub col : ℕ
  pub highest : ℕ
  pub randa : List ℕ
  pub randb : List ℕ

unfoldable pub min_loop : ℕ → List ℕ → ℕ
min_loop v1 [] = v1
min_loop v1 (x ∷ v) = min_loop (if ltb x v1 then x else v1) v

-- `isMinimum`, which reads an empty vector out of bounds.
unfoldable pub is_minimum : List ℕ → Option ℕ
is_minimum [] = none
is_minimum (x ∷ v) = some (min_loop x (x ∷ v))

-- `htmp`, in the unsigned arithmetic of a POLY.
unfoldable pub hash_value : ℕ → ℕ → ℕ → ℕ → ℕ
hash_value a b highest x = (a * x + b) % 2 ^ 32 % highest

-- The vector h of one hash function: of the first k values.
unfoldable pub hash_values : ℕ → ℕ → ℕ → ℕ → Sig → Option (List ℕ)
hash_values a b highest zero s = some []
hash_values a b highest (suc k) [] = none
hash_values a b highest (suc k) (x ∷ s) =
    Option.map (λ h. hash_value a b highest x ∷ h) (hash_values a b highest k s)

-- The minimum under the hash function f; a remainder by 0 is undefined.
unfoldable pub min_hash : Lsh → Sig → ℕ → Option ℕ
min_hash h s f = do
  a ← get_elem? h.randa f
  b ← get_elem? h.randb f
  v ← if h.highest == 0 then none else hash_values a b h.highest h.k s
  is_minimum v

-- The vector min_hash of the n hash functions from f on.
unfoldable pub min_hashes : Lsh → Sig → ℕ → ℕ → Option (List ℕ)
min_hashes h s f zero = some []
min_hashes h s f (suc n) = do x ← min_hash h s f; rest ← min_hashes h s (f + 1) n; some (x ∷ rest)

-- The texts of a group's minima, one behind the other.
unfoldable pub group_text : List ℕ → Text
group_text [] = []
group_text (x ∷ xs) = decimal x ++ group_text xs

-- The vector pre_hash of n groups from the hash function f on; only the first, unless `col` is 0.
unfoldable pub pre_hashes : Lsh → Sig → ℕ → ℕ → Option (List Text)
pre_hashes h s f zero = some []
pre_hashes h s f (suc n) =
    let rest = pre_hashes h s (f + h.l) n in
    do
      xs ← min_hashes h s f h.l
      ts ← if h.col == 0 then rest else some []
      some (group_text xs ∷ ts)

-- `std::sort` of identifiers
unfoldable pub insert_id : ℕ → List ℕ → List ℕ
insert_id x [] = x ∷ []
insert_id x (y ∷ ys) = let rest = insert_id x ys in if ltb y x then y ∷ rest else x ∷ y ∷ ys

unfoldable pub sort_ids : List ℕ → List ℕ
sort_ids [] = []
sort_ids (x ∷ xs) = insert_id x (sort_ids xs)

-- `std::unique`
unfoldable pub unique : Sig → Sig
unique [] = []
unique (x ∷ []) = x ∷ []
unique (x ∷ y ∷ s) = let rest = unique (y ∷ s) in if x == y then rest else x ∷ rest

-- A value equal to `count` others before: all but the first are multiplied by another irreducible
-- polynomial each, and the first word of the product is kept.
unfoldable pub multiplied : List ℕ → ℕ → ℕ → Option ℕ
multiplied irrnums x zero = some x
multiplied irrnums x (suc count) =
    get_elem? irrnums count >>= λ q. get_elem? (mult_polys [] (x ∷ []) (q ∷ [])) 0

-- The inner loop of `getUniqueSet`, for the value p.
unfoldable pub spread_value : List ℕ → ℕ → ℕ → Sig → Option Sig
spread_value irrnums p count [] = some []
spread_value irrnums p count (x ∷ s) =
    let next = spread_value irrnums p (suc count) s in
    let same = spread_value irrnums p count s in
    if p == x
    then (multiplied irrnums x count >>= λ z. Option.map (λ rest. z ∷ rest) next)
    else Option.map (λ rest. x ∷ rest) same

-- The outer loop, on the values of `polNums`.
unfoldable pub spread_values : List ℕ → Sig → Sig → Option Sig
spread_values irrnums [] s = some s
spread_values irrnums (p ∷ ps) s = spread_value irrnums p 0 s >>= λ s'. spread_values irrnums ps s'

-- `getUniqueSet`
unfoldable pub get_unique_set : List ℕ → Sig → Option Sig
get_unique_set irrnums s = spread_values irrnums (unique s) s

module _ (compute_hash : Text → ℕ) where
  -- `getHashCode`
  unfoldable pub get_hash_code : Lsh → Sig → Option (List ℕ)
  get_hash_code h s = Option.map (map compute_hash) (pre_hashes h s 0 h.m)

  -- `run_lsh`
  unfoldable pub run_lsh : Bool → List ℕ → ℕ → ℕ → ℕ → List ℕ → List ℕ → Sig → Option (List ℕ)
  run_lsh uflag irrnums lfuncs mgroups lshseed hasha hashb sig =
      let h : Lsh = record {
        k = length sig;
        l = lfuncs;
        m = mgroups;
        col = 0;
        highest = lshseed;
        randa = hasha;
        randb = hashb;
      } in
      Option.map sort_ids
        (if uflag then (get_unique_set irrnums sig >>= get_hash_code h) else get_hash_code h sig)

-- `teamidminhash`, a `std::map` in the order of the identifiers; its counters are too small to wrap.
abbrev pub TeamFreqs : Type 0
TeamFreqs = List (ℕ × ℕ)

unfoldable pub team_freq : ℕ → TeamFreqs → Option ℕ
team_freq id [] = none
team_freq id ((t, n) ∷ m) = let rest = team_freq id m in if id == t then some n else rest

unfoldable pub set_freq : ℕ → ℕ → TeamFreqs → TeamFreqs
set_freq id n [] = (id, n) ∷ []
set_freq id n ((t, k) ∷ m) =
    let rest = set_freq id n m in
    if ltb id t then (id, n) ∷ (t, k) ∷ m else if id == t then (t, n) ∷ m else (t, k) ∷ rest

unfoldable pub count_id : ℕ → TeamFreqs → TeamFreqs
count_id id m = elim (team_freq id m) [ some n ↦ set_freq id (n + 1) m | none ↦ set_freq id 1 m ]

-- `calcteamids`
unfoldable pub calcteamids : List ℕ → TeamFreqs → TeamFreqs
calcteamids [] m = m
calcteamids (id ∷ ids) m = calcteamids ids (count_id id m)
