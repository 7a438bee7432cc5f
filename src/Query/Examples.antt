-- ===== src/Query/Examples.antt =====
-- A run of a query, and its theorem at a concrete list.
use xgossip.Prelude.{false, ◌+◌, ◌≡◌, List, ◌∷◌, [], some, true, refl, length, arith}
use xgossip.Numbers.{num, eights}
use xgossip.Scale.{Pair, Freqs, Vecomap}
use xgossip.Wire.{queryx, queryxp}
use xgossip.Sig.Sets.{set_inter_noskip, signcmp, set_inter, set_uni}
use xgossip.Query.{
  Results, reset, add_match, add_similarity, similarity, add_superset, query_loop,
  divide_similarities, first_list, superset_query, run_query,
}
use xgossip.Query.Matches.{Selects, add_averages, KeysSorted, run_query-Selects}

abbrev lists : Freqs eights
lists =
    (3 ∷ 9 ∷ [], (num 8, num 2))
    ∷ (3 ∷ 5 ∷ 9 ∷ [], (num 6, num 2))
    ∷ (5 ∷ 9 ∷ 9 ∷ [], (num 1, num 1))
    ∷ []

abbrev total : List (Vecomap eights)
total = (lists ∷ []) ∷ []

abbrev before : Results eights
before = record {
  sigmatches = 0;
  totalavg = num 0;
  minsim = num 0;
  avgsim = num 0;
  proxyminsim = num 0;
  proxyavgsim = num 0;
}

abbrev after : Results eights
after = record {
  sigmatches = 2;
  totalavg = num 7;
  minsim = num 1;
  avgsim = num 83;
  proxyminsim = num 1;
  proxyavgsim = num 0;
}

lists-KeysSorted : KeysSorted eights lists
lists-KeysSorted = omega arith

run_query_run :
    run_query eights 0 total (3 ∷ 9 ∷ []) (3 ∷ []) false queryx before ≡ some (true, after)
unfolding run_query superset_query first_list reset query_loop set_inter_noskip add_superset
    similarity signcmp set_inter set_uni add_match add_similarity divide_similarities
run_query_run = refl

run_query-Selects_example :
    (r' : Results eights) × (hits : List (Pair eights)) × (run_query eights 0 total
        (3 ∷ 9 ∷ [])
        (3 ∷ [])
        true
        queryx
        before
      ≡ some (true, r'))
    × (run_query eights 0 total (3 ∷ 9 ∷ []) (3 ∷ []) true queryxp before ≡ some (true, r'))
    × Selects eights (3 ∷ 9 ∷ []) lists hits
    × (r'.sigmatches ≡ 0 + length hits)
    × (r'.totalavg ≡ add_averages eights (num 0) hits)
run_query-Selects_example =
    run_query-Selects eights 0 total lists [] 3 3 (9 ∷ []) [] true before refl (omega arith)
      lists-KeysSorted
