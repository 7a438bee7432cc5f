-- ===== src/Collect/Indices.antt =====
-- The indices of `teamindex` that `mergebyteamid` of chord-0.1-vasil/tools/gpsi.C keeps, and those whose
-- lists it unites there.
use mathlib.Core.Path.{subst}
use xgossip.Prelude.{
  ℕ, zero, suc, ◌≡◌, ◌≢◌, refl, List, [], ◌∷◌, ◌++◌, true, false, arith, ◌==◌, if◌then◌else◌, All,
  ◌⊎◌, inl, inr, Bool-cases,
}
use xgossip.Init.{TeamIndex}

-- The indices of a team that count: a `mergeix` of 0 stands for none, so those in front that are 0 are
-- passed over.
unfoldable pub counting : List ℕ → List ℕ
counting [] = []
counting (zero ∷ is) = counting is
counting (suc k ∷ is) = suc k ∷ is

-- The index that the team keeps.
unfoldable pub kept : List ℕ → ℕ
kept [] = 0
kept (k ∷ is) = k

unfoldable pub kept_entries : TeamIndex → TeamIndex
kept_entries [] = []
kept_entries ((team, is) ∷ index) = (team, kept (counting is) ∷ []) ∷ kept_entries index

unfoldable pub all_indices : TeamIndex → List ℕ
all_indices [] = []
all_indices ((team, is) ∷ index) = counting is ++ all_indices index

-- The other indices of the team that keeps j, if one does.
unfoldable pub others_of : ℕ → List ℕ → List ℕ → List ℕ
others_of j [] rest = rest
others_of j (k ∷ is) rest = if j == k then is else rest

unfoldable pub sources_of : ℕ → TeamIndex → List ℕ
sources_of j [] = []
sources_of j ((team, is) ∷ index) = let rest = sources_of j index in others_of j (counting is) rest

unfoldable pub IsDistinct : List ℕ → Type 0
IsDistinct [] = Unit
IsDistinct (x ∷ xs) = All (λ y. x ≢ y) xs × IsDistinct xs

pub All_left : (P : ℕ → Type 0) (xs ys : List ℕ) → All P (xs ++ ys) → All P xs
All_left P [] ys a = tt
All_left P (x ∷ xs) ys a = (a.0, All_left P xs ys a.1)

pub All_right : (P : ℕ → Type 0) (xs ys : List ℕ) → All P (xs ++ ys) → All P ys
All_right P [] ys a = a
All_right P (x ∷ xs) ys a = All_right P xs ys a.1

pub IsDistinct-right : (xs ys : List ℕ) → IsDistinct (xs ++ ys) → IsDistinct ys
unfolding IsDistinct
IsDistinct-right [] ys b = b
IsDistinct-right (x ∷ xs) ys b = IsDistinct-right xs ys b.1

pub counting_cases :
    (is : List ℕ) → (counting is ≡ []) ⊎ ((k : ℕ) × (js : List ℕ) × (counting is ≡ suc k ∷ js))
unfolding counting
counting_cases [] = inl refl
counting_cases (zero ∷ is) = counting_cases is
counting_cases (suc k ∷ is) = inr (k, is, refl)

pub same : (j k : ℕ) → (j == k) ≡ true → j ≡ k
same j k e = ground (arith, e)

pub itself : (j : ℕ) → (j == j) ≡ true
itself j = ground arith

pub not_same : (j k : ℕ) → j ≢ k → (j == k) ≡ false
not_same j k n = ground (arith, n)

-- An index that no team has is kept by none, and the sources are indices of teams.
pub sources_away :
    (k : ℕ) (index : TeamIndex) → All (λ y. k ≢ y) (all_indices index) → sources_of k index ≡ []
unfolding sources_of others_of all_indices
sources_away k [] a = refl
sources_away k ((team, is) ∷ index) a = elim (counting_cases is) [
  | inl z ↦ rw z (sources_away k index (All_right (λ y. k ≢ y) (counting is) (all_indices index) a))
  | inr (i, js, z) ↦
      let b = subst (λ s. All (λ y. k ≢ y) (s ++ all_indices index)) z a in
      rw (z, not_same k (suc i) b.0)
        (sources_away k index (All_right (λ y. k ≢ y) (counting is) (all_indices index) a))
]

pub sources-All :
    (P : ℕ → Type 0) (j : ℕ) (index : TeamIndex)
    → All P (all_indices index)
    → All P (sources_of j index)
unfolding sources_of others_of all_indices
sources-All P j [] a = tt
sources-All P j ((team, is) ∷ index) a = elim (counting_cases is) [
  | inl z ↦ rw z (sources-All P j index (All_right P (counting is) (all_indices index) a))
  | inr (i, js, z) ↦
      let b = subst (λ s. All P (s ++ all_indices index)) z a in
      elim (Bool-cases (j == suc i)) [
        | inl e ↦ rw (z, e) (All_left P js (all_indices index) b.1)
        | inr e ↦
            rw (z, e) (sources-All P j index (All_right P (counting is) (all_indices index) a))
      ]
]
