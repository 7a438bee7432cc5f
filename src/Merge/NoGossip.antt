-- ===== src/Merge/NoGossip.antt =====
-- `mergelists_nogossip`: it walks the lists as `mergelists` does, and keeps the first as it was.
use xgossip.Prelude.{
  ℕ, zero, suc, ◌<◌, ◌≡◌, ◌∙◌, [], ◌∷◌, some, Bool, List, All, arith, length, inl, inr, Bool-cases,
}
use xgossip.Doubles.{Doubles}
use xgossip.Scale.{Pair, Freqs, Vecomap}
use xgossip.Sig.{Sig, dummysig}
use xgossip.Table.{SortedAbove}
use xgossip.Merge.{all_done, step_iters, entries, nogossip_loop, mergelists_nogossip}
use xgossip.Merge.Rounds.{find_min_lem}
use xgossip.Merge.Sums.{
  HasDummies, sum_lists-sum_of, dummy_weights-weights_of, step-SortedAbove, entries-step_lt,
}
use xgossip.Merge.Ready.{length-step}
use xgossip.Merge.Lookup.{
  Listed, dummies, rests, start-rests, dummies-HasDummies, rests-SortedAbove, length-rests,
}

module _ (d : Doubles) where
  nogossip_loop_lem :
      (fuel : ℕ) (b : Sig) (ps : List (Pair d)) (ts cs : Vecomap d)
      → HasDummies d ps ts
      → All (SortedAbove b) cs
      → length cs ≡ length ts
      → entries d cs < fuel
      → nogossip_loop d fuel ts cs ≡ some tt
  unfolding nogossip_loop
  nogossip_loop_lem zero b ps ts cs h o e f = absurd (omega arith)
  nogossip_loop_lem (suc fuel) b ps ts cs h o e f = elim (Bool-cases (all_done d cs)) [
    | inl stop ↦
        rw (stop, nogossip_loop) (rw (dummy_weights-weights_of d ps ts d.zero h, nogossip_loop))
    | inr more ↦
        let (m, found, low, here) = find_min_lem d cs more in
        rw (more, nogossip_loop)
          (rw (found, nogossip_loop)
            (rw (sum_lists-sum_of d b m ps ts cs (d.zero, d.zero) h e o low, nogossip_loop)
              (nogossip_loop_lem fuel m ps ts (step_iters d m cs) h
                (step-SortedAbove d b m cs o low) (length-step d m cs ∙ e)
                (omega (arith, entries-step_lt d m cs here)))))
  ]

-- For two or more well-formed lists `mergelists_nogossip` ends, leaves the first list as it was
-- and drops the others with all that they hold.
pub mergelists_nogossip_drops :
    (d : Doubles) (vanilla : Bool) (t0 t1 : Freqs d) (ts : Vecomap d)
    → All (Listed d vanilla) (t0 ∷ t1 ∷ ts)
    → mergelists_nogossip d vanilla (t0 ∷ t1 ∷ ts) ≡ some (t0 ∷ [])
unfolding mergelists_nogossip
mergelists_nogossip_drops d vanilla t0 t1 ts l =
    let all : Vecomap d = t0 ∷ t1 ∷ ts in
    rw (start-rests d vanilla all l, mergelists_nogossip)
      (rw (
        nogossip_loop_lem d (suc (entries d (rests d vanilla all))) dummysig (dummies d vanilla all)
          all (rests d vanilla all) (dummies-HasDummies d vanilla all l)
          (rests-SortedAbove d vanilla all l) (length-rests d vanilla all) (omega arith)))
