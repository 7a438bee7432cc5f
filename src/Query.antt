-- ===== src/Query.antt =====
-- `run_query` of chord-0.1-vasil/tools/gpsi.C: a query is answered from the first list of a team,
-- by its one entry of the same signature or by all the entries that hold the query.
pub mod Matches
mod Examples
use xgossip.Prelude.{
  ℕ, ◌+◌, List, [], ◌∷◌, Option, none, some, Bool, true, false, ◌==◌, if◌then◌else◌, length,
  get_elem?,
}
use xgossip.Doubles.{Doubles}
use xgossip.Scale.{Pair, Freqs, Vecomap}
use xgossip.Sig.{Sig}
use xgossip.Sig.Sets.{set_inter_noskip, signcmp}
use xgossip.Table.{find}
use xgossip.Wire.{InsertType, querys, queryx, queryxp}

-- The arguments that `run_query` writes, and the globals `proxyminsim` and `proxyavgsim`.
pub record Results (d : Doubles) : Type 0 where
  pub sigmatches : ℕ
  pub totalavg : d.Double
  pub minsim : d.Double
  pub avgsim : d.Double
  pub proxyminsim : d.Double
  pub proxyavgsim : d.Double

module _ (d : Doubles) where
  -- What is reset; `sigmatches` and `totalavg` are not.
  unfoldable pub reset : Results d → Results d
  reset r = record r { minsim = d.one; avgsim = d.zero; proxyminsim = d.one; proxyavgsim = d.zero }

  abbrev pub average : Pair d → d.Double
  average (f, w) = d.div f w

  -- An entry that matches exactly.
  unfoldable pub add_match : Pair d → Results d → Results d
  add_match p r = record r {
    sigmatches = r.sigmatches + 1;
    totalavg = d.add r.totalavg (average p);
  }

  unfoldable pub add_similarity : d.Double → Results d → Results d
  add_similarity cursim r = record r {
    avgsim = d.add r.avgsim cursim;
    minsim = if d.less cursim r.minsim then cursim else r.minsim;
  }

  unfoldable pub add_proxy_similarity : d.Double → Results d → Results d
  add_proxy_similarity cursim r = record r {
    proxyavgsim = d.add r.proxyavgsim cursim;
    proxyminsim = if d.less cursim r.proxyminsim then cursim else r.proxyminsim;
  }

  -- `signcmp`, as the `double` that it returns
  unfoldable pub similarity : Sig → Sig → Option d.Double
  similarity s t = elim (signcmp s t) [
    | none ↦ none
    | some (ninter, nunion, multi) ↦ some (d.ratio ninter nunion)
  ]

  -- An entry that holds the query, with the global `gproxysig`.
  unfoldable pub add_superset : Sig → Sig → Bool → Sig → Pair d → Results d → Option (Results d)
  add_superset querysig gproxysig useproxy s p r = elim (similarity querysig s) [
    | none ↦ none
    | some cursim ↦ elim useproxy [
      | false ↦ some (add_similarity cursim (add_match p r))
      | true ↦ elim (similarity gproxysig s) [
        | none ↦ none
        | some proxysim ↦
            some (add_proxy_similarity proxysim (add_similarity cursim (add_match p r)))
      ]
    ]
  ]

  unfoldable pub query_loop : Sig → Sig → Bool → Freqs d → Results d → Option (Results d)
  query_loop querysig gproxysig useproxy [] r = some r
  query_loop querysig gproxysig useproxy ((s, p) ∷ m) r =
      elim ((set_inter_noskip querysig s).0 == length querysig) [
        | false ↦ query_loop querysig gproxysig useproxy m r
        | true ↦ elim (add_superset querysig gproxysig useproxy s p r) [
          | none ↦ none
          | some r' ↦ query_loop querysig gproxysig useproxy m r'
        ]
      ]

  unfoldable pub exact_match : Sig → Freqs d → Results d → Results d
  exact_match querysig m r = elim (find querysig m) [ none ↦ r | some p ↦ add_match p r ]

  unfoldable pub divide_similarities : Results d → Results d
  divide_similarities r = record r {
    avgsim = d.div_int r.avgsim r.sigmatches;
    proxyavgsim = d.div_int r.proxyavgsim r.sigmatches;
  }

  -- `totalT[tind][0]`
  unfoldable pub first_list : ℕ → List (Vecomap d) → Option (Freqs d)
  first_list tind total = elim (get_elem? total tind) [ some (m ∷ ms) ↦ some m | _ ↦ none ]

  unfoldable pub superset_query :
      ℕ → List (Vecomap d) → Sig → Sig → Bool → Results d → Option (Bool × Results d)
  superset_query tind total querysig gproxysig useproxy r = elim (first_list tind total) [
    | none ↦ none
    | some m ↦ elim (query_loop querysig gproxysig useproxy m r) [
      | none ↦ none
      | some r' ↦ some (true, divide_similarities r')
    ]
  ]

  -- `run_query`: false is the result -1, for a message that is no query.
  unfoldable pub run_query :
      ℕ → List (Vecomap d) → Sig → Sig → Bool → InsertType → Results d → Option (Bool × Results d)
  unfolding superset_query
  run_query tind total querysig gproxysig useproxy querys r = elim (first_list tind total) [
    | none ↦ none
    | some m ↦ some (true, divide_similarities (exact_match querysig m (reset r)))
  ]
  run_query tind total querysig gproxysig useproxy queryx r =
      superset_query tind total querysig gproxysig useproxy (reset r)
  run_query tind total querysig gproxysig useproxy queryxp r =
      superset_query tind total querysig gproxysig useproxy (reset r)
  run_query tind total querysig gproxysig useproxy _ r = some (false, reset r)
