-- ===== src/Receive/Queries.antt =====
-- What `readgossip` of chord-0.1-vasil/tools/gpsi.C does with queries.
use mathlib.Core.Option
use xgossip.Prelude.{Bool, true, false, ℕ, ◌+◌, [], ◌∷◌, Option, none, some}
use xgossip.Doubles.{Doubles}
use xgossip.Sig.{Sig}
use xgossip.Init.{find_team}
use xgossip.Collect.{Total}
use xgossip.Query.{Results, run_query}
use xgossip.Wire.{Bytes, DoubleBytes, InsertType, querys}
use xgossip.Wire.Read.{Decoded, decoded, bad_length, overrun}
use xgossip.Wire.Init.{InitMsg}
use xgossip.Wire.Query.{QueryMsg}
use xgossip.Receive.{Globals, id_of, Node, Done, quiet}

module _ (d : Doubles) where
  -- The outputs before a query; `minsim` and `avgsim` were set at the top of the run.
  unfoldable pub no_results : Node d → Results d
  no_results node = record {
    sigmatches = 0;
    totalavg = d.zero;
    minsim = d.zero;
    avgsim = d.zero;
    proxyminsim = node.proxyminsim;
    proxyavgsim = node.proxyavgsim;
  }

  -- The loop over `totalT` for a team that the node does not know, from index i on.
  unfoldable pub query_lists :
      Globals → InsertType → Sig → Total d → ℕ → Total d → Results d → Option (Results d)
  query_lists g t sig total i [] r = some r
  query_lists g t sig total i (v ∷ vs) r = elim (run_query d i total sig g.gproxysig false t r) [
    | none ↦ none
    | some (ok, r') ↦ query_lists g t sig total (i + 1) vs r'
  ]

  unfoldable pub query_one :
      Globals → InsertType → Sig → Total d → ℕ → Results d → Option (Results d)
  query_one g t sig total i r =
      Option.map (λ (ok, r'). r') (run_query d i total sig g.gproxysig false t r)

  -- Which lists are asked: the first one for Vanilla, else the team's, or all.
  unfoldable pub ask_lists : Bool → Globals → InsertType → Sig → Bytes → Node d → Option (Results d)
  ask_lists true g t sig teamid node = query_one g t sig node.lists.total 0 (no_results node)
  ask_lists false g t sig teamid node = elim (find_team (id_of teamid) node.lists.teamindex) [
    | some [] ↦ none
    | some (i ∷ is) ↦ query_one g t sig node.lists.total i (no_results node)
    | none ↦ query_lists g t sig node.lists.total 0 node.lists.total (no_results node)
  ]

  unfoldable pub ask : Globals → InsertType → Sig → Bytes → Node d → Option (Results d)
  ask g t sig teamid node = ask_lists g.vanilla g t sig teamid node

  unfoldable pub take_query : Globals → InsertType → Sig → Bytes → Node d → Option (Done d)
  take_query g t sig teamid node =
      Option.map
        (λ r. record {
          node = record {
            lists = node.lists;
            rxseq = node.rxseq;
            rxqseq = node.rxqseq + 1;
            proxyminsim = r.proxyminsim;
            proxyavgsim = r.proxyavgsim;
          };
          informs = [];
          result = some r;
          closed = true;
        })
        (ask g t sig teamid node)

  module _ (r : DoubleBytes d) where
    unfoldable pub take_querys : Globals → Decoded (InitMsg d r) → Node d → Option (Done d)
    take_querys g (decoded m) node = take_query g querys m.sig m.teamid node
    take_querys g bad_length node = some (quiet d node true)
    take_querys g overrun node = none

    unfoldable pub take_queryx : Globals → InsertType → Decoded QueryMsg → Node d → Option (Done d)
    take_queryx g t (decoded m) node = take_query g t m.sig m.teamid node
    take_queryx g t bad_length node = some (quiet d node true)
    take_queryx g t overrun node = none
