-- ===== src/Collect/Teams.antt =====
-- `mergebyteamid` of chord-0.1-vasil/tools/gpsi.C: the lists of each team are united into one.
use xgossip.Prelude.{
  ℕ, zero, suc, ◌≡◌, ◌≢◌, refl, ap, ◌∙◌, List, [], ◌∷◌, some, arith, ◌==◌, if◌then◌else◌, get_elem?,
  set,
}
use xgossip.Doubles.{Doubles}
use xgossip.Scale.{Freqs, Vecomap}
use xgossip.Sig.{Sig}
use xgossip.Table.{find}
use xgossip.Collect.{Total, absorb_list, absorb_into, merge_indices}
use xgossip.Collect.Unions.{Ascending, united, find-absorb_list}

get_elem?-overwritten :
    {A : Type 0} (xs : List A) (i j : ℕ) (a b : A)
    → get_elem? xs i ≡ some a
    → get_elem? (set xs i b) j ≡ (if j == i then some b else get_elem? xs j)
get_elem?-overwritten [] i j a b e = ground arith
get_elem?-overwritten (x ∷ xs) zero zero a b e = ground arith
get_elem?-overwritten (x ∷ xs) zero (suc j) a b e = ground arith
get_elem?-overwritten (x ∷ xs) (suc i) zero a b e = ground arith
get_elem?-overwritten (x ∷ xs) (suc i) (suc j) a b e =
    ground (arith, get_elem?-overwritten xs i j a b e)

get_elem?-kept :
    {A : Type 0} (xs : List A) (i j : ℕ) (a : A)
    → get_elem? xs i ≡ some a
    → get_elem? xs j ≡ (if j == i then some a else get_elem? xs j)
get_elem?-kept [] i j a e = ground arith
get_elem?-kept (x ∷ xs) zero zero a e = ground arith
get_elem?-kept (x ∷ xs) zero (suc j) a e = ground arith
get_elem?-kept (x ∷ xs) (suc i) zero a e = ground arith
get_elem?-kept (x ∷ xs) (suc i) (suc j) a e = ground (arith, get_elem?-kept xs i j a e)

module _ (d : Doubles) where
  -- The indices of a team other than k, with the first lists that they have, which ascend.
  abbrev pub Sources : ℕ → Total d → List ℕ → List (Freqs d) → Type 0
  Sources k total [] [] = Unit
  Sources k total (i ∷ is) (l ∷ ls) =
      (i ≢ k)
      × ((rest : Vecomap d) × (get_elem? total i ≡ some (l ∷ rest)))
      × Ascending d l
      × Sources k total is ls
  Sources k total _ _ = ⊥

  -- A state that differs from another in the first list at k.
  abbrev pub Changed : ℕ → Freqs d → Vecomap d → Total d → Total d → Type 0
  Changed k m ms total total' =
      (j : ℕ) → get_elem? total' j ≡ (if j == k then some (m ∷ ms) else get_elem? total j)

  Sources-Changed :
      (k : ℕ) (m : Freqs d) (ms : Vecomap d) (total total' : Total d) (is : List ℕ)
      (ls : List (Freqs d))
      → Changed k m ms total total'
      → Sources k total is ls
      → Sources k total' is ls
  Sources-Changed k m ms total total' [] [] c s = tt
  Sources-Changed k m ms total total' (i ∷ is) [] c s = absurd s
  Sources-Changed k m ms total total' [] (l ∷ ls) c s = absurd s
  Sources-Changed k m ms total total' (i ∷ is) (l ∷ ls) c (ne, (rest, e), o, s) =
      (ne, (rest, ground (arith, c i)), o, Sources-Changed k m ms total total' is ls c s)

  absorb_into-Changed :
      (k : ℕ) (l m : Freqs d) (ms : Vecomap d) (total : Total d)
      → get_elem? total k ≡ some (m ∷ ms)
      → (total' : Total d) × (absorb_into d k l total ≡ some total')
        × Changed k (absorb_list d l m) ms total total'
  unfolding absorb_into absorb_list
  absorb_into-Changed k [] m ms total e = (total, refl, λ j. get_elem?-kept total k j (m ∷ ms) e)
  absorb_into-Changed k (x ∷ l) m ms total e = (
    set total k (absorb_list d (x ∷ l) m ∷ ms),
    rw (e, absorb_into) refl,
    λ j. get_elem?-overwritten total k j (m ∷ ms) (absorb_list d (x ∷ l) m ∷ ms) e,
  )

  Changed-trans :
      (k : ℕ) (m m' : Freqs d) (ms : Vecomap d) (t1 t2 t3 : Total d)
      → Changed k m ms t1 t2
      → Changed k m' ms t2 t3
      → Changed k m' ms t1 t3
  Changed-trans k m m' ms t1 t2 t3 c c' j = ground (arith, c j, c' j)

  -- The index k > 0 takes in the lists of the indices that follow.
  pub merge_indices_lem :
      (k : ℕ) (is : List ℕ) (ls : List (Freqs d)) (m : Freqs d) (ms : Vecomap d) (total : Total d)
      → get_elem? total (suc k) ≡ some (m ∷ ms)
      → Sources (suc k) total is ls
      → (total' : Total d) × (m' : Freqs d) × (merge_indices d is (suc k) total
          ≡ some (suc k, total'))
        × Changed (suc k) m' ms total total'
        × ((t : Sig) → find t m' ≡ united d t ls (find t m))
  unfolding merge_indices united
  merge_indices_lem k [] [] m ms total e s =
      (total, m, refl, (λ j. get_elem?-kept total (suc k) j (m ∷ ms) e), λ t. refl)
  merge_indices_lem k [] (l ∷ ls) m ms total e s = absurd s
  merge_indices_lem k (i ∷ is) [] m ms total e s = absurd s
  merge_indices_lem k (i ∷ is) (l ∷ ls) m ms total e (ne, (rest, g), o, s) =
      let (t1, a, c1) = absorb_into-Changed (suc k) l m ms total e in
      let m1 = absorb_list d l m in
      let (t2, m2, b, c2, f) =
        merge_indices_lem k is ls m1 ms t1 (ground (arith, c1 (suc k)))
          (Sources-Changed (suc k) m1 ms total t1 is ls c1 s) in
      (
        t2,
        m2,
        rw (g, merge_indices) (rw (a, merge_indices) b),
        Changed-trans (suc k) m1 m2 ms total t1 t2 c1 c2,
        λ t. f t ∙ ap (united d t ls) (find-absorb_list d t l m o),
      )
