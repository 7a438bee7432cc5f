-- ===== src/Lsh/Minimum.antt =====
-- The minimum under a hash function depends on the set of values only.
use mathlib.Core.Option
use xgossip.Prelude.{
  ℕ, ◌≤◌, ◌≡◌, refl, sym, ap, ◌∙◌, List, [], ◌∷◌, some, map, true, ltb, ◌==◌, ◌||◌, if◌then◌else◌,
  length, arith, Bool-cases, inl, inr, ==_iff,
}
use xgossip.Sig.{Sig}
use xgossip.Sig.Count.{elem}
use xgossip.Lsh.{min_loop, is_minimum, hash_value, hash_values}

-- The minimum is below all values, and one of them.
min_loop_le : (v : ℕ) (xs : List ℕ) → min_loop v xs ≤ v
unfolding min_loop
min_loop_le v [] = omega arith
min_loop_le v (x ∷ xs) = ground (arith, min_loop_le (if ltb x v then x else v) xs)

min_loop_lower : (v y : ℕ) (xs : List ℕ) → elem y xs ≡ true → min_loop v xs ≤ y
unfolding min_loop elem
min_loop_lower v y [] h = cc
min_loop_lower v y (x ∷ xs) h = ground (
  arith,
  min_loop_le (if ltb x v then x else v) xs,
  min_loop_lower (if ltb x v then x else v) y xs,
)

min_loop-elem : (v : ℕ) (xs : List ℕ) → (v == min_loop v xs) || elem (min_loop v xs) xs ≡ true
unfolding min_loop elem
min_loop-elem v [] = ground arith
min_loop-elem v (x ∷ xs) = ground (arith, min_loop-elem (if ltb x v then x else v) xs)

-- Two lists of the same values, each as often as it may.
unfoldable pub SameSet : Sig → Sig → Type 0
SameSet s t = (y : ℕ) → elem y s ≡ elem y t

module _ (g : ℕ → ℕ) where
  elem-map : (y : ℕ) (s : List ℕ) → elem y s ≡ true → elem (g y) (map g s) ≡ true
  unfolding elem
  elem-map y [] h = cc
  elem-map y (x ∷ s) h = elim (Bool-cases (y == x)) [
    | inl e ↦ ground (arith, ap g ((==_iff y x).0 e))
    | inr e ↦ ground (arith, elem-map y s)
  ]

  map_source :
      (z : ℕ) (s : List ℕ) → elem z (map g s) ≡ true → (y : ℕ) × (elem y s ≡ true) × (z ≡ g y)
  unfolding elem
  map_source z [] h = cc
  map_source z (x ∷ s) h = elim (Bool-cases (z == g x)) [
    | inl e ↦ (x, ground arith, ground arith)
    | inr e ↦ let (y, m, q) = map_source z s (ground arith) in (y, ground arith, q)
  ]

  least_of : ℕ → List ℕ → ℕ
  least_of x s = min_loop (g x) (map g (x ∷ s))

  least_source : (x : ℕ) (s : List ℕ) → (y : ℕ) × (elem y (x ∷ s) ≡ true) × (least_of x s ≡ g y)
  unfolding least_of elem
  least_source x s =
      map_source (least_of x s) (x ∷ s) (ground (arith, min_loop-elem (g x) (map g (x ∷ s))))

  least_le :
      (x : ℕ) (s : List ℕ) (x' : ℕ) (s' : List ℕ)
      → SameSet (x ∷ s) (x' ∷ s')
      → least_of x s ≤ least_of x' s'
  unfolding SameSet least_of
  least_le x s x' s' e =
      let (y, m, q) = least_source x' s' in
      rw q (min_loop_lower (g x) (g y) (map g (x ∷ s)) (elem-map y (x ∷ s) (e y ∙ m)))

  pub is_minimum-map : (s t : List ℕ) → SameSet s t → is_minimum (map g s) ≡ is_minimum (map g t)
  unfolding SameSet elem is_minimum least_of
  is_minimum-map [] [] e = refl
  is_minimum-map [] (y ∷ t) e = absurd (ground (arith, e y))
  is_minimum-map (x ∷ s) [] e = absurd (ground (arith, e x))
  is_minimum-map (x ∷ s) (y ∷ t) e =
      ap some (omega (arith, least_le x s y t e, least_le y t x s (λ z. sym (e z))))

pub hash_values-map :
    (a b highest : ℕ) (s : Sig)
    → hash_values a b highest (length s) s ≡ some (map (hash_value a b highest) s)
unfolding hash_values
hash_values-map a b highest [] = refl
hash_values-map a b highest (x ∷ s) =
    ap (Option.map (λ h. hash_value a b highest x ∷ h)) (hash_values-map a b highest s)
