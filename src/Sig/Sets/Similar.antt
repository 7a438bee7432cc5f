-- ===== src/Sig/Sets/Similar.antt =====
-- `signcmp` is the Jaccard similarity of the sets of values of two signatures.
use xgossip.Prelude.{
  ℕ, ◌+◌, ◌≤◌, ◌<◌, ◌≡◌, refl, some, [], ◌∷◌, Bool, true, not, ◌&&◌, ◌||◌, ◌==◌, arith, All,
  Bool-cases, inl, inr,
}
use xgossip.Sig.{Sig}
use xgossip.Sig.Count.{elem, distinct, IsSorted, distinct_ext, distinct_without}
use xgossip.Sig.Sets.{set_inter, set_uni, signcmp}
use xgossip.Sig.Sets.Inter.{set_inter-distinct}
use xgossip.Sig.Sets.Union.{set_uni-distinct}

-- The distinct values of a list, those that both lists hold, and those of either.
abbrev pub size : Sig → ℕ
size s = distinct (λ v. true) s

abbrev pub common : Sig → Sig → ℕ
common s1 s2 = distinct (λ v. elem v s2) s1

distinct_split :
    (s1 s2 : Sig) → distinct (λ v. elem v s1) s2 + distinct (λ v. not (elem v s1)) s2 ≡ size s2
unfolding distinct
distinct_split s1 [] = omega arith
distinct_split s1 (y ∷ s2) = ground (arith, distinct_split s1 s2)

common_nil : (s2 : Sig) → distinct (λ v. elem v []) s2 ≡ 0
unfolding distinct elem
common_nil [] = refl
common_nil (y ∷ s2) = ground (arith, common_nil s2)

common_comm : (s1 s2 : Sig) → common s1 s2 ≡ common s2 s1
unfolding distinct elem
common_comm [] s2 = ground (arith, common_nil s2)
common_comm (x ∷ s1) s2 = elim (Bool-cases (elem x s1)) [
  | inl old ↦ ground (
    arith,
    common_comm s1 s2,
    distinct_ext (λ v. (v == x) || elem v s1) (λ v. elem v s1) s2 (λ v m. ground arith),
  )
  | inr new ↦ ground (
    arith,
    common_comm s1 s2,
    distinct_without (λ v. (v == x) || elem v s1) x s2,
    distinct_ext (λ v. ((v == x) || elem v s1) && not (v == x)) (λ v. elem v s1) s2
        (λ v m. ground arith),
  )
]

size_pos : (x : ℕ) (s : Sig) → 0 < size (x ∷ s)
unfolding distinct elem
size_pos x [] = omega arith
size_pos x (y ∷ s) = ground (arith, size_pos y s)

signcmp_value :
    (s1 s2 : Sig) {i u : ℕ} {m : Bool}
    → set_uni s1 s2 ≡ some (u, m)
    → (set_inter s1 s2).0 ≡ i
    → signcmp s1 s2 ≡ some (i, u, m)
unfolding signcmp
signcmp_value s1 s2 h k = cc

-- For sorted signatures that are not empty and hold no zero, `signcmp` returns a quotient: its
-- numerator is the number of distinct common values, numerator and denominator add up to the
-- numbers of distinct values of the two, and the numerator is at most the denominator, which is
-- positive. So the similarity is that of Jaccard, and lies between 0 and 1.
pub signcmp-jaccard :
    (x y : ℕ) (s1 s2 : Sig)
    → IsSorted (x ∷ s1)
    → IsSorted (y ∷ s2)
    → All (λ z. 0 < z) (x ∷ s1)
    → All (λ z. 0 < z) (y ∷ s2)
    → (ninter nunion : ℕ) × (multi : Bool) × (signcmp (x ∷ s1) (y ∷ s2)
        ≡ some (ninter, nunion, multi))
      × (ninter ≡ common (x ∷ s1) (y ∷ s2))
      × (ninter + nunion ≡ size (x ∷ s1) + size (y ∷ s2))
      × (ninter ≤ nunion)
      × (0 < nunion)
signcmp-jaccard x y s1 s2 o1 o2 z1 z2 =
    let u = set_uni-distinct x y s1 s2 o1 o2 z1 z2 in
    (
      common (x ∷ s1) (y ∷ s2),
      size (x ∷ s1) + distinct (λ v. not (elem v (x ∷ s1))) (y ∷ s2),
      u.0,
      signcmp_value (x ∷ s1) (y ∷ s2) u.1 (set_inter-distinct (x ∷ s1) (y ∷ s2) o1 o2 z1),
      refl,
      omega (arith, distinct_split (x ∷ s1) (y ∷ s2), common_comm (x ∷ s1) (y ∷ s2)),
      omega (arith, distinct_split (y ∷ s2) (x ∷ s1)),
      omega (arith, size_pos x s1),
    )
