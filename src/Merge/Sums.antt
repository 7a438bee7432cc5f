-- ===== src/Merge/Sums.antt =====
-- What a round sums and writes, against a description that reads whole lists: a list adds its entry
-- of a signature, or the entry of its dummy where it has none.
use mathlib.Core.Path.{subst}
use xgossip.Prelude.{
  ◌≤◌, ◌<◌, ◌≡◌, refl, [], ◌∷◌, none, some, Bool, true, false, List, All, arith, length, inl, inr,
  Bool-cases,
}
use xgossip.Doubles.{Doubles}
use xgossip.Scale.{Pair, Vecomap}
use xgossip.Sig.{Sig, dummysig, samesig}
use xgossip.Sig.Order.{sigcmp_total, samesig-iff_eq}
use xgossip.Table.{find, SortedAbove}
use xgossip.Merge.{at_min, sum_lists, add_pair, step_iters, dummy_weights, entries}
use xgossip.Merge.Rounds.{value_or, NotBelow, samesig_self, contribution_value, at_any}

module _ (d : Doubles) where
  -- The dummies' entries of the lists.
  abbrev pub HasDummies : List (Pair d) → Vecomap d → Type 0
  HasDummies [] [] = Unit
  HasDummies (p ∷ ps) (t ∷ ts) = (find dummysig t ≡ some p) × HasDummies ps ts
  HasDummies ps ts = ⊥

  -- Some list has an entry of the signature.
  unfoldable pub in_any : Sig → Vecomap d → Bool
  in_any s [] = false
  in_any s (c ∷ cs) = elim (find s c) [ none ↦ in_any s cs | some p ↦ true ]

  -- The sums of the entries of a signature, list by list.
  unfoldable pub sum_of : Sig → List (Pair d) → Vecomap d → Pair d → Pair d
  sum_of s (p ∷ ps) (c ∷ cs) acc = sum_of s ps cs (add_pair d acc (value_or (find s c) p))
  sum_of s ps cs acc = acc

  unfoldable pub weights_of : List (Pair d) → d.Double → d.Double
  weights_of [] acc = acc
  weights_of (p ∷ ps) acc = weights_of ps (d.add acc p.1)

  pub sum_lists-sum_of :
      (b m : Sig) (ps : List (Pair d)) (ts cs : Vecomap d) (acc : Pair d)
      → HasDummies ps ts
      → length cs ≡ length ts
      → All (SortedAbove b) cs
      → All (NotBelow m) cs
      → sum_lists d m ts cs acc ≡ some (sum_of m ps cs acc)
  unfolding sum_lists sum_of
  sum_lists-sum_of b m [] [] [] acc h e o l = refl
  sum_lists-sum_of b m [] [] (c ∷ cs) acc h e o l = absurd (omega arith)
  sum_lists-sum_of b m [] (t ∷ ts) cs acc h e o l = absurd h
  sum_lists-sum_of b m (p ∷ ps) [] cs acc h e o l = absurd h
  sum_lists-sum_of b m (p ∷ ps) (t ∷ ts) [] acc h e o l = absurd (omega arith)
  sum_lists-sum_of b m (p ∷ ps) (t ∷ ts) (c ∷ cs) acc h e o l =
      rw (contribution_value d b m t c p o.0 l.0 h.0, sum_lists)
        (sum_lists-sum_of b m ps ts cs (add_pair d acc (value_or (find m c) p)) h.1 (omega arith)
          o.1 l.1)

  pub dummy_weights-weights_of :
      (ps : List (Pair d)) (ts : Vecomap d) (acc : d.Double)
      → HasDummies ps ts
      → dummy_weights d ts acc ≡ some (weights_of ps acc)
  unfolding dummy_weights weights_of
  dummy_weights-weights_of [] [] acc h = refl
  dummy_weights-weights_of [] (t ∷ ts) acc h = absurd h
  dummy_weights-weights_of (p ∷ ps) [] acc h = absurd h
  dummy_weights-weights_of (p ∷ ps) (t ∷ ts) acc h =
      rw (h.0, dummy_weights) (dummy_weights-weights_of ps ts (d.add acc p.1) h.1)

  pub step-SortedAbove :
      (b m : Sig) (cs : Vecomap d)
      → All (SortedAbove b) cs
      → All (NotBelow m) cs
      → All (SortedAbove m) (step_iters d m cs)
  unfolding step_iters
  step-SortedAbove b m [] o l = tt
  step-SortedAbove b m ([] ∷ cs) o l = (tt, step-SortedAbove b m cs o.1 l.1)
  step-SortedAbove b m (((k, v) ∷ c) ∷ cs) o l = elim (Bool-cases (samesig k m)) [
    | inl e ↦ rw e (
      subst (λ u. SortedAbove u c) ((samesig-iff_eq k m).0 e) o.0.1,
      step-SortedAbove b m cs o.1 l.1,
    )
    | inr e ↦ rw e (
      (ground (arith, sigcmp_total k m, (samesig-iff_eq k m).1, samesig_self m), o.0.1),
      step-SortedAbove b m cs o.1 l.1,
    )
  ]

  entries-step_le : (m : Sig) (cs : Vecomap d) → entries d (step_iters d m cs) ≤ entries d cs
  unfolding entries step_iters
  entries-step_le m [] = omega arith
  entries-step_le m ([] ∷ cs) = omega (arith, entries-step_le m cs)
  entries-step_le m (((k, v) ∷ c) ∷ cs) = ground (arith, entries-step_le m cs)

  pub entries-step_lt :
      (m : Sig) (cs : Vecomap d)
      → at_any d m cs ≡ true
      → entries d (step_iters d m cs) < entries d cs
  unfolding entries step_iters at_any at_min
  entries-step_lt m [] h = cc
  entries-step_lt m ([] ∷ cs) h = omega (arith, entries-step_lt m cs h)
  entries-step_lt m (((k, v) ∷ c) ∷ cs) h =
      ground (arith, entries-step_le m cs, entries-step_lt m cs)
