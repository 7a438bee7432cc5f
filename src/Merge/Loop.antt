-- ===== src/Merge/Loop.antt =====
-- The whole loop of `mergelists`: it ends, and its result reads as the description says.
use xgossip.Prelude.{
  ℕ, zero, suc, ◌<◌, ◌≡◌, refl, ◌∙◌, [], ◌∷◌, Option, none, some, true, false, List, All, arith,
  if◌then◌else◌, inl, inr, Bool-cases,
}
use xgossip.Doubles.{Doubles}
use xgossip.Scale.{Pair, Freqs, Vecomap}
use xgossip.Sig.{Sig, dummysig}
use xgossip.Sig.Order.{sigcmp_irrefl}
use xgossip.Table.{same_key, find, assign}
use xgossip.Table.Laws.{same_key→eq, find-assign}
use xgossip.Merge.{
  all_done, find_min, sum_lists, step_iters, write_min, write_dummy, entries, first_iter, halve,
  merge_loop,
}
use xgossip.Merge.Rounds.{NotBelow, at_any, find_min_lem}
use xgossip.Merge.Sums.{
  HasDummies, in_any, sum_of, weights_of, sum_lists-sum_of, dummy_weights-weights_of,
  step-SortedAbove, entries-step_lt,
}
use xgossip.Merge.Away.{in_any-step, sum_of-step, in_any-SortedAbove, in_any-at_any}
use xgossip.Merge.Ready.{Ready, write_min-find, Ready-step}

module _ (d : Doubles) where
  -- The merged list, as a function of the signature: the dummy keeps the frequency of the first
  -- list and gets half the sum of the dummies' weights; a signature that some list holds gets half
  -- the sums, to which a list without it adds its dummy; any other entry stays.
  abbrev pub merged : Pair d → List (Pair d) → Freqs d → Vecomap d → Sig → Option (Pair d)
  merged p0 ps t0 cs s =
      if same_key s dummysig
      then some (p0.0, d.div_int (weights_of d (p0 ∷ ps) d.zero) 2)
      else if in_any d s cs
      then some (halve d (sum_of d s (p0 ∷ ps) cs (d.zero, d.zero)))
      else find s t0

  all_done-in_any : (s : Sig) (cs : Vecomap d) → all_done d cs ≡ true → in_any d s cs ≡ false
  unfolding all_done in_any find
  all_done-in_any s [] h = refl
  all_done-in_any s ([] ∷ cs) h = all_done-in_any s cs h
  all_done-in_any s (((k, v) ∷ c) ∷ cs) h = cc

  merge_end :
      (p0 : Pair d) (ps : List (Pair d)) (t0 : Freqs d) (ts cs : Vecomap d) (fuel : ℕ)
      → HasDummies d (p0 ∷ ps) (t0 ∷ ts)
      → all_done d cs ≡ true
      → (t' : Freqs d) × (merge_loop d (suc fuel) t0 ts cs ≡ some t')
        × ((s : Sig) → find s t' ≡ merged p0 ps t0 cs s)
  unfolding merge_loop write_dummy
  merge_end p0 ps t0 ts cs fuel h e = (
    assign dummysig (p0.0, d.div_int (weights_of d (p0 ∷ ps) d.zero) 2) t0,
    rw (e, merge_loop)
        (rw (dummy_weights-weights_of d (p0 ∷ ps) (t0 ∷ ts) d.zero h, merge_loop) (rw (h.0))),
    λ s. ground (
      arith,
      find-assign dummysig s (p0.0, d.div_int (weights_of d (p0 ∷ ps) d.zero) 2) t0,
      all_done-in_any s cs e,
    ),
  )

  pub merge_round :
      (fuel : ℕ) (t0 : Freqs d) (ts cs : Vecomap d) {m : Sig} {acc : Pair d}
      → all_done d cs ≡ false
      → find_min d none cs ≡ some m
      → sum_lists d m (t0 ∷ ts) cs (d.zero, d.zero) ≡ some acc
      → merge_loop d (suc fuel) t0 ts cs
        ≡ merge_loop d fuel
            (write_min d m (halve d acc) t0 (first_iter d cs))
            ts
            (step_iters d m cs)
  unfolding merge_loop
  merge_round fuel t0 ts cs e f g = rw (e, merge_loop) (rw (f, merge_loop) (rw (g, merge_loop)))

  -- A round leaves the description of the result as it was.
  merged-step :
      (b m : Sig) (p0 : Pair d) (ps : List (Pair d)) (t0 : Freqs d) (ts cs : Vecomap d)
      (r : Ready d b (p0 ∷ ps) t0 ts cs) (low : All (NotBelow m) cs) (here : at_any d m cs ≡ true)
      (s : Sig)
      → merged p0 ps
          (write_min d m (halve d (sum_of d m (p0 ∷ ps) cs (d.zero, d.zero))) t0 (first_iter d cs))
          (step_iters d m cs)
          s
        ≡ merged p0 ps t0 cs s
  merged-step b m p0 ps t0 ts cs r low here s =
      let zz : Pair d = (d.zero, d.zero) in
      let p = halve d (sum_of d m (p0 ∷ ps) cs zz) in
      elim (Bool-cases (same_key s m)) [
        | inl same ↦ ground (
          arith,
          same_key→eq s m same,
          write_min-find d b m (p0 ∷ ps) t0 ts cs r low here s p,
          in_any-SortedAbove d m s (step_iters d m cs) (step-SortedAbove d b m cs r.sorted low),
          sigcmp_irrefl m,
          in_any-at_any d m cs here,
        )
        | inr other ↦ ground (
          arith,
          write_min-find d b m (p0 ∷ ps) t0 ts cs r low here s p,
          in_any-step d m s cs other,
          sum_of-step d m s (p0 ∷ ps) cs zz other,
        )
      ]

  pub merge_loop_lem :
      (fuel : ℕ) (b : Sig) (p0 : Pair d) (ps : List (Pair d)) (t0 : Freqs d) (ts cs : Vecomap d)
      → Ready d b (p0 ∷ ps) t0 ts cs
      → entries d cs < fuel
      → (t' : Freqs d) × (merge_loop d fuel t0 ts cs ≡ some t')
        × ((s : Sig) → find s t' ≡ merged p0 ps t0 cs s)
  merge_loop_lem zero b p0 ps t0 ts cs r f = absurd (omega arith)
  merge_loop_lem (suc fuel) b p0 ps t0 ts cs r f = elim (Bool-cases (all_done d cs)) [
    | inl e ↦ merge_end p0 ps t0 ts cs fuel r.dummies e
    | inr e ↦
        let (m, found, low, here) = find_min_lem d cs e in
        let acc = sum_of d m (p0 ∷ ps) cs (d.zero, d.zero) in
        let p = halve d acc in
        let (t', c, same) =
          merge_loop_lem fuel m p0 ps (write_min d m p t0 (first_iter d cs)) ts (step_iters d m cs)
            (Ready-step d b m (p0 ∷ ps) t0 ts cs r low here p)
            (omega (arith, entries-step_lt d m cs here)) in
        (
          t',
          merge_round fuel t0 ts cs e found (
                sum_lists-sum_of d b m (p0 ∷ ps) (t0 ∷ ts) cs (d.zero, d.zero) r.dummies r.lens
                  r.sorted low)
              ∙ c,
          λ s. same s ∙ merged-step b m p0 ps t0 ts cs r low here s,
        )
  ]
