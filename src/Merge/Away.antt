-- ===== src/Merge/Away.antt =====
-- The signatures other than the least one, in a round of the merge.
use xgossip.Prelude.{◌≡◌, refl, ap, ◌∙◌, [], ◌∷◌, true, false, List, All, arith}
use xgossip.Doubles.{Doubles}
use xgossip.Scale.{Pair, Vecomap}
use xgossip.Sig.{Sig, sigcmp}
use xgossip.Sig.Order.{samesig-iff_eq}
use xgossip.Table.{same_key, find, SortedAbove}
use xgossip.Table.Laws.{same_key_refl, find-SortedAbove}
use xgossip.Merge.{at_min, add_pair, step_iters, first_iter}
use xgossip.Merge.Rounds.{value_or, at_any, step-find}
use xgossip.Merge.Sums.{in_any, sum_of}

module _ (d : Doubles) where
  -- Away from the least signature a round changes nothing that is left to be read.
  pub in_any-step :
      (m s : Sig) (cs : Vecomap d)
      → same_key s m ≡ false
      → in_any d s (step_iters d m cs) ≡ in_any d s cs
  unfolding in_any step_iters first_iter find
  in_any-step m s [] h = refl
  in_any-step m s ([] ∷ cs) h = in_any-step m s cs h
  in_any-step m s (((k, v) ∷ c) ∷ cs) h =
      ground (arith, in_any-step m s cs h, step-find d m s ((k, v) ∷ c) cs h)

  pub sum_of-step :
      (m s : Sig) (ps : List (Pair d)) (cs : Vecomap d) (acc : Pair d)
      → same_key s m ≡ false
      → sum_of d s ps (step_iters d m cs) acc ≡ sum_of d s ps cs acc
  unfolding sum_of step_iters first_iter find
  sum_of-step m s [] cs acc h = refl
  sum_of-step m s (p ∷ ps) [] acc h = refl
  sum_of-step m s (p ∷ ps) ([] ∷ cs) acc h =
      sum_of-step m s ps cs (add_pair d acc (value_or (find s []) p)) h
  sum_of-step m s (p ∷ ps) (((k, v) ∷ c) ∷ cs) acc h =
      ap (λ o. sum_of d s ps (step_iters d m cs) (add_pair d acc (value_or o p)))
        (step-find d m s ((k, v) ∷ c) cs h)
      ∙ sum_of-step m s ps cs (add_pair d acc (value_or (find s ((k, v) ∷ c)) p)) h

  pub in_any-SortedAbove :
      (b s : Sig) (cs : Vecomap d)
      → All (SortedAbove b) cs
      → sigcmp b s ≡ false
      → in_any d s cs ≡ false
  unfolding in_any
  in_any-SortedAbove b s [] o h = refl
  in_any-SortedAbove b s (c ∷ cs) o h =
      rw (find-SortedAbove b s c o.0 h, in_any) (in_any-SortedAbove b s cs o.1 h)

  pub in_any-at_any : (m : Sig) (cs : Vecomap d) → at_any d m cs ≡ true → in_any d m cs ≡ true
  unfolding in_any at_any at_min find
  in_any-at_any m [] h = cc
  in_any-at_any m ([] ∷ cs) h = in_any-at_any m cs h
  in_any-at_any m (((k, v) ∷ c) ∷ cs) h =
      ground (arith, in_any-at_any m cs, (samesig-iff_eq k m).0, same_key_refl m)
