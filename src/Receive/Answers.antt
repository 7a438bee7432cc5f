-- ===== src/Receive/Answers.antt =====
-- `readgossip` of chord-0.1-vasil/tools/gpsi.C on queries.
use mathlib.Core.Option
use xgossip.Prelude.{
  ℕ, ◌+◌, ◌≡◌, ◌≢◌, ◌<◌, ◌⊎◌, refl, ap, ◌∙◌, List, [], ◌∷◌, Option, none, some, true, false, length,
  map, get_elem?, All, Bool-cases, Option-cases, inl, inr, ◌==◌,
}
use native.Mathlib.Nat.{zero-add}
use xgossip.Doubles.{Doubles}
use xgossip.Scale.{Pair, Freqs, Vecomap}
use xgossip.Sig.{Sig}
use xgossip.Sig.Sets.{set_inter_noskip}
use xgossip.Sig.Count.{IsSorted}
use xgossip.Init.{find_team}
use xgossip.Collect.{Total}
use xgossip.Query.{Results, run_query, query_loop, add_superset, superset_query, first_list, reset}
use xgossip.Query.Matches.{KeysSorted, Selects, add_averages, run_query-Selects}
use xgossip.Wire.{Bytes, DoubleBytes, InsertType, type_code, queryx, queryxp}
use xgossip.Wire.Laws.{IsWord}
use xgossip.Wire.Query.{
  QueryMsg, make_query, query_len, put_query_body, get_query, get_query-make_query,
}
use xgossip.Receive.{kind_of, Globals, id_of, Node, Done}
use xgossip.Receive.Socket.{Parts, read_bytes}
use xgossip.Receive.Queries.{query_one, ask_lists, ask, take_query, take_queryx, no_results}
use xgossip.Receive.Handle.{by_kind, readgossip}
use xgossip.Receive.Accepts.{readgossip-by_kind}

by_type :
    {A : Type 0} (f : InsertType → A) (b : A) (t : InsertType)
    → (t ≡ queryx) ⊎ (t ≡ queryxp)
    → (f queryx ≡ b) × (f queryxp ≡ b)
    → f t ≡ b
by_type f b t (inl e) h = ap f e ∙ h.0
by_type f b t (inr e) h = ap f e ∙ h.1

module _ (d : Doubles) where
  -- Without the proxy's similarities, the proxy is not looked at.
  query_loop_proxy :
      (q g h : Sig) (m : Freqs d) (r : Results d)
      → query_loop d q g false m r ≡ query_loop d q h false m r
  unfolding query_loop add_superset
  query_loop_proxy q g h [] r = refl
  query_loop_proxy q g h ((s, p) ∷ m) r = elim (Bool-cases ((set_inter_noskip q s).0 == length q)) [
    | inl e ↦
        rw (e, query_loop)
          (hit (add_superset d q g false s p r) (λ r'. query_loop_proxy q g h m r'))
    | inr e ↦ rw (e, query_loop) (query_loop_proxy q g h m r)
  ]
    where
      hit :
          (o : Option (Results d))
          → ((r' : Results d) → query_loop d q g false m r' ≡ query_loop d q h false m r')
          → elim o [ none ↦ none | some r' ↦ query_loop d q g false m r' ]
            ≡ elim o [ none ↦ none | some r' ↦ query_loop d q h false m r' ]
      hit none k = refl
      hit (some r') k = k r'

  superset_query_proxy :
      (i : ℕ) (total : Total d) (q g h : Sig) (r : Results d)
      → superset_query d i total q g false r ≡ superset_query d i total q h false r
  unfolding superset_query
  superset_query_proxy i total q g h r = elim (Option-cases (first_list d i total)) [
    | inl e ↦ rw (e, superset_query) refl
    | inr (m, e) ↦ rw (e, superset_query, query_loop_proxy q g h m r) refl
  ]

  pub run_query_proxy :
      (i : ℕ) (total : Total d) (q g h : Sig) (t : InsertType) (r : Results d)
      → run_query d i total q g false t r ≡ run_query d i total q h false t r
  unfolding run_query
  run_query_proxy i total q g h queryx r = superset_query_proxy i total q g h (reset d r)
  run_query_proxy i total q g h queryxp r = superset_query_proxy i total q g h (reset d r)
  run_query_proxy i total q g h _ r = refl

  module _ (r : DoubleBytes d) where
    readgossip-query :
        (g : Globals) (t : InsertType) (m : QueryMsg) (c : Bytes) (cs : List Bytes) (node : Node d)
        → (t ≡ queryx) ⊎ (t ≡ queryxp)
        → Parts c cs (make_query t m)
        → query_len m < 0x80000000
        → All IsWord m.sig
        → IsWord m.qid
        → readgossip d r g (map read_bytes (c ∷ cs)) node ≡ take_query d g t m.sig m.teamid node
    unfolding make_query by_kind take_queryx kind_of type_code
    readgossip-query g t m c cs node k p l w q =
        let (fits, read) = get_query-make_query t m l w q in
        readgossip-by_kind d r g t (query_len m) (put_query_body m) c cs node p fits l
        ∙ of_type k
        ∙ ap (λ z. take_queryx d r g t z node) read
      where
        of_type :
            (t ≡ queryx) ⊎ (t ≡ queryxp)
            → by_kind d r g (kind_of (type_code t)) (make_query t m) (length (make_query t m)) node
              ≡ take_queryx d r g t (get_query (make_query t m) (length (make_query t m))) node
        of_type (inl e) = rw e refl
        of_type (inr e) = rw e refl

    -- What a query leaves: the lists as they were, and its result.
    pub record Answered (m : QueryMsg) (list : Freqs d) (node : Node d) (out : Option (Done d))
        : Type 0 where
      pub answer : Results d
      pub hits : List (Pair d)
      pub done :
          out
          ≡ some (record {
            node = record node {
              rxqseq = node.rxqseq + 1;
              proxyminsim = answer.proxyminsim;
              proxyavgsim = answer.proxyavgsim;
            };
            informs = [];
            result = some answer;
            closed = true;
          })
      pub selects : Selects d m.sig list hits
      pub counted : answer.sigmatches ≡ length hits
      pub averaged : answer.totalavg ≡ add_averages d d.zero hits

    asked :
        (g : Globals) (t : InsertType) (sig : Sig) (teamid : Bytes) (node : Node d) (i : ℕ)
        (is : List ℕ) (answer : Results d)
        → g.vanilla ≡ false
        → find_team (id_of teamid) node.lists.teamindex ≡ some (i ∷ is)
        → run_query d i node.lists.total sig g.gproxysig false t (no_results d node)
          ≡ some (true, answer)
        → ask d g t sig teamid node ≡ some answer
    unfolding ask ask_lists query_one
    asked g t sig teamid node i is answer v f e =
        ap (λ b. ask_lists d b g t sig teamid node) v ∙ rw (f, ask_lists) (rw e refl)

    answered :
        (g : Globals) (t : InsertType) (sig : Sig) (node : Node d) (i : ℕ) (list : Freqs d)
        (ls : Vecomap d)
        → (t ≡ queryx) ⊎ (t ≡ queryxp)
        → sig ≢ []
        → get_elem? node.lists.total i ≡ some (list ∷ ls)
        → IsSorted sig
        → KeysSorted d list
        → (answer : Results d) × (hits : List (Pair d)) × (run_query d i node.lists.total sig
              g.gproxysig false t
              (no_results d node)
            ≡ some (true, answer))
          × Selects d sig list hits
          × (answer.sigmatches ≡ length hits)
          × (answer.totalavg ≡ add_averages d d.zero hits)
    unfolding no_results
    answered g t [] node i list ls k h e o s = absurd (h refl)
    answered g t (x ∷ q) node i list ls k h e o s =
        let total = node.lists.total in
        let (answer, hits, runx, runxp, sel, n, a) =
          run_query-Selects d i total list ls x 0 q [] false (no_results d node) e o s in
        let run =
          λ (t' : InsertType). run_query d i total (x ∷ q) (0 ∷ []) false t' (no_results d node) in
        (
          answer,
          hits,
          run_query_proxy i total (x ∷ q) g.gproxysig (0 ∷ []) t (no_results d node)
              ∙ by_type run (some (true, answer)) t k (runx, runxp),
          sel,
          n ∙ zero-add (length hits),
          a,
        )

-- A query of the kind QUERYX or QUERYXP made by `makeKeyValue` and read in parts that are not
-- empty and of which the first has at least eight bytes, in any phase,
-- on a node that does not run Vanilla: where the node knows the team, has a first list of sorted
-- signatures for it, and the query is sorted and not empty, the query is answered without fault
-- from that list, by exactly the entries that hold it, with their number and the sum of their
-- averages; the lists stay as they were, `rxqseq` goes up by one, and the socket is closed.
pub readgossip-make_query :
    (d : Doubles) (r : DoubleBytes d) (g : Globals) (t : InsertType) (m : QueryMsg) (c : Bytes)
    (cs : List Bytes) (node : Node d) (i : ℕ) (is : List ℕ) (list : Freqs d) (ls : Vecomap d)
    → (t ≡ queryx) ⊎ (t ≡ queryxp)
    → Parts c cs (make_query t m)
    → query_len m < 0x80000000
    → All IsWord m.sig
    → IsWord m.qid
    → g.vanilla ≡ false
    → find_team (id_of m.teamid) node.lists.teamindex ≡ some (i ∷ is)
    → get_elem? node.lists.total i ≡ some (list ∷ ls)
    → m.sig ≢ []
    → IsSorted m.sig
    → KeysSorted d list
    → Answered d r m list node (readgossip d r g (map read_bytes (c ∷ cs)) node)
unfolding take_query
readgossip-make_query d r g t m c cs node i is list ls k p l w b v f e h o s =
    let (answer, hits, run, sel, n, a) = answered d r g t m.sig node i list ls k h e o s in
    record {
      answer = answer;
      hits = hits;
      done =
          readgossip-query d r g t m c cs node k p l w b
          ∙ ap (Option.map _) (asked d r g t m.sig m.teamid node i is answer v f run);
      selects = sel;
      counted = n;
      averaged = a;
    }
