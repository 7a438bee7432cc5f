-- ===== src/Collect/Examples.antt =====
-- Runs of the gathering of signatures, and its theorems at concrete lists.
use xgossip.Prelude.{
  ℕ, arith, set, get_elem?, ◌≡◌, List, ◌∷◌, [], ◌++◌, map, some, none, true, false, refl, All,
}
use xgossip.Numbers.{num, eights}
use xgossip.Scale.{Freqs, Vecomap}
use xgossip.Sig.{Sig, sigcmp, dummysig}
use xgossip.Table.{find}
use xgossip.Init.{TeamIndex, find_team}
use xgossip.Collect.{
  Total, Entries, vecomap2vec, add2vecomapx, calcfreq, mergeinit, merge_indices, merge_teams,
  mergebyteamid,
}
use xgossip.Collect.Counts.{HasDummy, lists_before, expected, calcfreq-occurrences}
use xgossip.Collect.Indices.{counting, kept, kept_entries, all_indices, sources_of, IsDistinct}
use xgossip.Collect.Merging.{HasFirst, first_at, Unites, mergebyteamid-united}
use xgossip.Collect.Transport.{add2vecomapx-vecomap2vec}
use xgossip.Collect.Unions.{AscendingFirst, first_of, united, mergeinit-united}

abbrev five : Sig
five = 5 ∷ 6 ∷ []

abbrev three : Sig
three = 3 ∷ 9 ∷ []

abbrev sigs : List Sig
sigs = five ∷ three ∷ five ∷ []

abbrev one_list : Freqs eights
one_list = (three, (num 2, num 1)) ∷ (five, (num 4, num 1)) ∷ []

abbrev other_list : Freqs eights
other_list = (five, (num 3, num 7)) ∷ []

abbrev teams : List (Vecomap eights)
teams = (one_list ∷ []) ∷ (other_list ∷ []) ∷ []

-- Of a team with the indices 0 and 1 the list 0 is not united with the list 1.
merge_run : mergebyteamid eights ((40, 0 ∷ 1 ∷ []) ∷ []) teams ≡ some ((40, 1 ∷ []) ∷ [], teams)
unfolding mergebyteamid merge_teams merge_indices
merge_run = refl

sigs-HasDummy : HasDummy true (dummysig ∷ sigs)
unfolding HasDummy
sigs-HasDummy = tt

calcfreq-occurrences_example :
    (u : Freqs eights) × (calcfreq eights (one_list ∷ []) (dummysig ∷ sigs) true false
      ≡ some (lists_before eights false (one_list ∷ []) ++ u ∷ []))
    × ((t : Sig) → find t u ≡ expected eights true (dummysig ∷ sigs) t)
calcfreq-occurrences_example =
    calcfreq-occurrences eights (one_list ∷ []) (dummysig ∷ sigs) true false sigs-HasDummy

teams-Ascending : All (AscendingFirst eights) teams
unfolding sigcmp
teams-Ascending = ((refl, tt), (tt, tt))

mergeinit-united_example :
    (m : Freqs eights) × (mergeinit eights teams ≡ some (m ∷ []))
    × ((t : Sig) → find t m ≡ united eights t (map (first_of eights) teams) none)
mergeinit-united_example = mergeinit-united eights teams teams-Ascending

abbrev one_team : TeamIndex
one_team = (40, 1 ∷ []) ∷ []

add2vecomapx-vecomap2vec_example :
    (es : Entries eights) × (vecomap2vec eights (one_list ∷ []) 0 [] ≡ some es)
    × (add2vecomapx eights false es 40 one_team teams
        ≡ some (one_team, set teams 1 ((other_list ∷ []) ++ one_list ∷ [])))
unfolding find_team sigcmp
add2vecomapx-vecomap2vec_example =
    add2vecomapx-vecomap2vec eights false (one_list ∷ []) 0 one_list 40 1 [] one_team teams
      (other_list ∷ []) refl (refl, tt) refl refl

-- Two teams, of which the first has an index 0 in front.
abbrev two_teams : TeamIndex
two_teams = (40, 0 ∷ 1 ∷ 2 ∷ []) ∷ (41, 3 ∷ 4 ∷ []) ∷ []

abbrev five_lists : Total eights
five_lists =
    (one_list ∷ []) ∷ (other_list ∷ []) ∷ (one_list ∷ []) ∷ (one_list ∷ []) ∷ (other_list ∷ []) ∷ []

one-HasFirst :
    (i : ℕ) → get_elem? five_lists i ≡ some (one_list ∷ []) → HasFirst eights five_lists i
unfolding sigcmp
one-HasFirst i e = record { first = one_list; rest = []; there = e; ascending = (refl, tt) }

other-HasFirst :
    (i : ℕ) → get_elem? five_lists i ≡ some (other_list ∷ []) → HasFirst eights five_lists i
other-HasFirst i e = record { first = other_list; rest = []; there = e; ascending = tt }

lists-HasFirst : All (HasFirst eights five_lists) (all_indices two_teams)
unfolding all_indices counting
lists-HasFirst = (
  other-HasFirst 1 refl,
  (one-HasFirst 2 refl, (one-HasFirst 3 refl, (other-HasFirst 4 refl, tt))),
)

teams-IsDistinct : IsDistinct (all_indices two_teams)
unfolding all_indices counting IsDistinct
teams-IsDistinct = (
  (omega arith, (omega arith, (omega arith, tt))),
  ((omega arith, (omega arith, tt)), ((omega arith, tt), (tt, tt))),
)

mergebyteamid-united_example :
    (total' : Total eights) × (mergebyteamid eights two_teams five_lists
      ≡ some (kept_entries two_teams, total'))
    × ((j : ℕ)
        → Unites eights
            (map (first_at eights five_lists) (sources_of j two_teams))
            (get_elem? five_lists j)
            (get_elem? total' j))
mergebyteamid-united_example =
    mergebyteamid-united eights two_teams five_lists lists-HasFirst teams-IsDistinct

-- Each team starts anew.
teams_kept : kept_entries two_teams ≡ (40, 1 ∷ []) ∷ (41, 3 ∷ []) ∷ []
unfolding kept_entries counting kept
teams_kept = refl
