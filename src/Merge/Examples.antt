-- ===== src/Merge/Examples.antt =====
-- Runs of the merge, and its theorems at concrete lists.
use xgossip.Prelude.{◌≡◌, [], ◌∷◌, some, false, refl, All}
use xgossip.Numbers.{num, eights}
use xgossip.Scale.{Freqs}
use xgossip.Sig.{Sig, dummysig, hldsig, sigcmp, samesig}
use xgossip.Table.{find, assign, push_pair, same_key}
use xgossip.Merge.{
  skip, skip_dummies, start_iters, all_done, find_min, at_min, add_pair, contribution, sum_lists,
  step_iters, halve, write_min, dummy_weights, write_dummy, entries, first_iter, merge_loop,
  mergelists, mergelists_nogossip,
}
use xgossip.Merge.Loop.{merged}
use xgossip.Merge.Lookup.{Listed, rests, dummies, dummy_of, mergelists-lookup}
use xgossip.Merge.Kept.{mergelists-Listed}
use xgossip.Merge.NoGossip.{mergelists_nogossip_drops}

abbrev t0 : Freqs eights
t0 = (hldsig, (num 0, num 2)) ∷ (dummysig, (num 0, num 8)) ∷ (5 ∷ 6 ∷ [], (num 4, num 2)) ∷ []

abbrev t1 : Freqs eights
t1 =
    (hldsig, (num 0, num 2))
    ∷ (dummysig, (num 0, num 6))
    ∷ (3 ∷ 9 ∷ [], (num 10, num 4))
    ∷ (5 ∷ 6 ∷ [], (num 6, num 2))
    ∷ []

Listed-both : All (Listed eights false) (t0 ∷ t1 ∷ [])
unfolding sigcmp
Listed-both = ((refl, refl, (refl, tt)), ((refl, refl, (refl, (refl, tt))), tt))

-- The signature of both lists gets half the sums; the other one takes the first list's dummy.
abbrev halved : Freqs eights
halved =
    (hldsig, (num 0, num 2))
    ∷ (dummysig, (num 0, num 7))
    ∷ (3 ∷ 9 ∷ [], (num 5, num 6))
    ∷ (5 ∷ 6 ∷ [], (num 5, num 2))
    ∷ []

merge_run : mergelists eights false (t0 ∷ t1 ∷ []) ≡ some (halved ∷ [])
unfolding mergelists start_iters skip_dummies skip merge_loop all_done find_min sum_lists
    contribution add_pair step_iters write_min at_min halve dummy_weights write_dummy entries
    first_iter find assign push_pair samesig sigcmp same_key
merge_run = refl

mergelists-lookup_example :
    (t' : Freqs eights) × (mergelists eights false (t0 ∷ t1 ∷ []) ≡ some (t' ∷ []))
    × ((s : Sig)
        → find s t'
          ≡ merged eights
              (dummy_of eights false t0)
              (dummies eights false (t1 ∷ []))
              t0
              (rests eights false (t0 ∷ t1 ∷ []))
              s)
mergelists-lookup_example = mergelists-lookup eights false t0 t1 [] Listed-both

mergelists_nogossip_drops_example : mergelists_nogossip eights false (t0 ∷ t1 ∷ []) ≡ some (t0 ∷ [])
mergelists_nogossip_drops_example = mergelists_nogossip_drops eights false t0 t1 [] Listed-both

mergelists-Listed_example :
    (t' : Freqs eights) × (mergelists eights false (t0 ∷ t1 ∷ []) ≡ some (t' ∷ []))
    × Listed eights false t'
mergelists-Listed_example = mergelists-Listed eights false t0 t1 [] Listed-both
