-- ===== src/Query/Matches.antt =====
-- The answer of `run_query`, chord-0.1-vasil/tools/gpsi.C, to a query for supersets.
use xgossip.Prelude.{
  ℕ, ◌+◌, ◌≡◌, refl, ap, ◌∙◌, List, [], ◌∷◌, Option, none, some, Bool, true, false, ◌==◌, ==_iff,
  length, get_elem?, Bool-cases, inl, inr, arith,
}
use xgossip.Doubles.{Doubles}
use xgossip.Scale.{Pair, Freqs, Vecomap}
use xgossip.Sig.{Sig}
use xgossip.Sig.Count.{IsSorted}
use xgossip.Sig.Sets.{set_inter_noskip, set_uni, signcmp}
use xgossip.Sig.Sets.Subset.{Submultiset, Submultiset-nil, set_inter_noskip-Submultiset}
use xgossip.Wire.{queryx, queryxp}
use xgossip.Query.{
  Results, reset, average, add_match, add_similarity, add_proxy_similarity, similarity,
  add_superset, query_loop, divide_similarities, first_list, superset_query, run_query,
}

-- The entries of a list that hold a query, in the list's order.
pub data Selects (d : Doubles) (q : Sig) : Freqs d → List (Pair d) → Type 0 where
  nothing : Selects d q [] []
  hit :
      (s : Sig) (p : Pair d) (m : Freqs d) (hits : List (Pair d))
      → Submultiset q s
      → Selects d q m hits
      → Selects d q ((s, p) ∷ m) (p ∷ hits)
  miss :
      (s : Sig) (p : Pair d) (m : Freqs d) (hits : List (Pair d))
      → (Submultiset q s → ⊥)
      → Selects d q m hits
      → Selects d q ((s, p) ∷ m) hits

module _ (d : Doubles) where
  -- The averages of some entries added to a sum.
  unfoldable pub add_averages : d.Double → List (Pair d) → d.Double
  add_averages x [] = x
  add_averages x (p ∷ hits) = add_averages (d.add x (average d p)) hits

  abbrev pub KeysSorted : Freqs d → Type 0
  KeysSorted [] = Unit
  KeysSorted ((s, p) ∷ m) = IsSorted s × KeysSorted m

  similarity_total :
      (x y : ℕ) (q s : Sig) → (c : d.Double) × (similarity d (x ∷ q) (y ∷ s) ≡ some c)
  unfolding similarity signcmp set_uni
  similarity_total x y q s = (_, refl)

  -- A matching entry raises the count by one and the sum by its average.
  add_superset_lem :
      (x y z : ℕ) (q g s : Sig) (useproxy : Bool) (p : Pair d) (r : Results d)
      → (r' : Results d) × (add_superset d (x ∷ q) (z ∷ g) useproxy (y ∷ s) p r ≡ some r')
        × (r'.sigmatches ≡ r.sigmatches + 1)
        × (r'.totalavg ≡ d.add r.totalavg (average d p))
  unfolding add_superset add_match add_similarity add_proxy_similarity
  add_superset_lem x y z q g s false p r =
      let (c, e) = similarity_total x y q s in
      (add_similarity d c (add_match d p r), rw (e, add_superset) refl, refl, refl)
  add_superset_lem x y z q g s true p r =
      let (c, e) = similarity_total x y q s in
      let (c', e') = similarity_total z y g s in
      (
        add_proxy_similarity d c' (add_similarity d c (add_match d p r)),
        rw (e, add_superset) (rw e' refl),
        refl,
        refl,
      )

  -- What the loop returns on a list, with the entries that it counted.
  Answers : Sig → Freqs d → Results d → Option (Results d) → Type 0
  Answers q m r o =
      (r' : Results d) × (hits : List (Pair d)) × (o ≡ some r')
      × Selects d q m hits
      × (r'.sigmatches ≡ r.sigmatches + length hits)
      × (r'.totalavg ≡ add_averages r.totalavg hits)

  query_hit :
      (x z y : ℕ) (q g s : Sig) (useproxy : Bool) (p : Pair d) (m : Freqs d) (r : Results d)
      → Submultiset (x ∷ q) (y ∷ s)
      → ((r' : Results d) → Answers (x ∷ q) m r' (query_loop d (x ∷ q) (z ∷ g) useproxy m r'))
      → Answers
          (x ∷ q)
          ((y ∷ s, p) ∷ m)
          r
          (elim (add_superset d (x ∷ q) (z ∷ g) useproxy (y ∷ s) p r) [
            | none ↦ none
            | some r' ↦ query_loop d (x ∷ q) (z ∷ g) useproxy m r'
          ])
  unfolding Answers add_averages
  query_hit x z y q g s useproxy p m r h rec =
      let (r1, e, n, t) = add_superset_lem x y z q g s useproxy p r in
      let (r', hits, e', sel, n', t') = rec r1 in
      (
        r',
        p ∷ hits,
        rw e e',
        hit (y ∷ s) p m hits h sel,
        omega (arith, n, n'),
        t' ∙ ap (λ a. add_averages a hits) t,
      )

  query_hit_any :
      (x z : ℕ) (q g s : Sig) (useproxy : Bool) (p : Pair d) (m : Freqs d) (r : Results d)
      → Submultiset (x ∷ q) s
      → ((r' : Results d) → Answers (x ∷ q) m r' (query_loop d (x ∷ q) (z ∷ g) useproxy m r'))
      → Answers (x ∷ q) ((s, p) ∷ m) r (elim (add_superset d (x ∷ q) (z ∷ g) useproxy s p r) [
        | none ↦ none
        | some r' ↦ query_loop d (x ∷ q) (z ∷ g) useproxy m r'
      ])
  query_hit_any x z q g [] useproxy p m r h rec = absurd (Submultiset-nil x q h)
  query_hit_any x z q g (y ∷ s) useproxy p m r h rec = query_hit x z y q g s useproxy p m r h rec

  query_miss :
      (q s : Sig) (p : Pair d) (m : Freqs d) (r : Results d) (o : Option (Results d))
      → (Submultiset q s → ⊥)
      → Answers q m r o
      → Answers q ((s, p) ∷ m) r o
  unfolding Answers
  query_miss q s p m r o h (r', hits, e, sel, n, t) = (r', hits, e, miss s p m hits h sel, n, t)

  query_loop_lem :
      (x z : ℕ) (q g : Sig) (useproxy : Bool) (m : Freqs d) (r : Results d)
      → IsSorted (x ∷ q)
      → KeysSorted m
      → Answers (x ∷ q) m r (query_loop d (x ∷ q) (z ∷ g) useproxy m r)
  unfolding query_loop Answers add_averages
  query_loop_lem x z q g useproxy [] r o k = (r, [], refl, nothing, omega arith, refl)
  query_loop_lem x z q g useproxy ((s, p) ∷ m) r o k =
      let sub = set_inter_noskip-Submultiset (x ∷ q) s o k.0 in
      elim (Bool-cases ((set_inter_noskip (x ∷ q) s).0 == length (x ∷ q))) [
        | inl e ↦
            rw (e, query_loop)
              (query_hit_any x z q g s useproxy p m r
                (sub.1.0 ((==_iff (set_inter_noskip (x ∷ q) s).0 (length (x ∷ q))).0 e))
                (λ r'. query_loop_lem x z q g useproxy m r' o k.1))
        | inr e ↦
            rw (e, query_loop)
              (query_miss (x ∷ q) s p m r (query_loop d (x ∷ q) (z ∷ g) useproxy m r)
                (λ h. ground (arith, e, sub.1.1 h)) (query_loop_lem x z q g useproxy m r o k.1))
      ]

  superset_query_lem :
      (tind : ℕ) (total : List (Vecomap d)) (m : Freqs d) (ms : Vecomap d) (q g : Sig)
      (useproxy : Bool) (r r' : Results d)
      → get_elem? total tind ≡ some (m ∷ ms)
      → query_loop d q g useproxy m r ≡ some r'
      → superset_query d tind total q g useproxy r ≡ some (true, divide_similarities d r')
  unfolding superset_query first_list
  superset_query_lem tind total m ms q g useproxy r r' e f =
      rw (e, superset_query, first_list) (rw (f, superset_query) refl)

-- On a team whose first list has sorted signatures, a sorted query that is not empty, of the kind
-- QUERYX or QUERYXP, and with a proxy signature that is not empty, `run_query` does not fault and
-- returns 0. It counts, on top of the old count, exactly the entries whose signature has every value
-- at least as often as the query, and adds the averages frequency / weight of just these, in the
-- list's order, to the old sum.
pub run_query-Selects :
    (d : Doubles) (tind : ℕ) (total : List (Vecomap d)) (m : Freqs d) (ms : Vecomap d) (x z : ℕ)
    (q g : Sig) (useproxy : Bool) (r : Results d)
    → get_elem? total tind ≡ some (m ∷ ms)
    → IsSorted (x ∷ q)
    → KeysSorted d m
    → (r' : Results d) × (hits : List (Pair d)) × (run_query d tind total
          (x ∷ q)
          (z ∷ g)
          useproxy
          queryx
          r
        ≡ some (true, r'))
      × (run_query d tind total (x ∷ q) (z ∷ g) useproxy queryxp r ≡ some (true, r'))
      × Selects d (x ∷ q) m hits
      × (r'.sigmatches ≡ r.sigmatches + length hits)
      × (r'.totalavg ≡ add_averages d r.totalavg hits)
unfolding run_query Answers reset divide_similarities
run_query-Selects d tind total m ms x z q g useproxy r e o k =
    let (r', hits, f, sel, n, t) = query_loop_lem d x z q g useproxy m (reset d r) o k in
    let c = superset_query_lem d tind total m ms (x ∷ q) (z ∷ g) useproxy (reset d r) r' e f in
    (divide_similarities d r', hits, c, c, sel, n, t)
