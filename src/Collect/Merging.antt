-- ===== src/Collect/Merging.antt =====
-- `mergebyteamid` of chord-0.1-vasil/tools/gpsi.C over all teams.
use mathlib.Core.Path.{subst}
use xgossip.Prelude.{
  Option, ℕ, zero, suc, ◌≡◌, ◌≢◌, refl, sym, ap, ◌∙◌, List, [], ◌∷◌, ◌++◌, map, some, none, false,
  ◌==◌, get_elem?, All, inl, inr, Bool-cases,
}
use xgossip.Doubles.{Doubles}
use xgossip.Init.{TeamIndex}
use xgossip.Scale.{Freqs, Vecomap}
use xgossip.Sig.{Sig}
use xgossip.Table.{find}
use xgossip.Collect.{Total, merge_indices, merge_teams, mergebyteamid}
use xgossip.Collect.Unions.{Ascending, united}
use xgossip.Collect.Teams.{Sources, merge_indices_lem}
use xgossip.Collect.Indices.{
  counting, kept, kept_entries, all_indices, others_of, sources_of, IsDistinct, All_left, All_right,
  IsDistinct-right, counting_cases, same, itself, not_same, sources_away, sources-All,
}

module _ (d : Doubles) where
  unfoldable pub first_in : Option (Vecomap d) → Freqs d
  first_in none = []
  first_in (some []) = []
  first_in (some (l ∷ ls)) = l

  -- The first list at an index of `totalT`.
  unfoldable pub first_at : Total d → ℕ → Freqs d
  first_at total i = first_in (get_elem? total i)

  -- There is one, and it ascends.
  pub record HasFirst (total : Total d) (i : ℕ) : Type 0 where
    pub first : Freqs d
    pub rest : Vecomap d
    pub there : get_elem? total i ≡ some (first ∷ rest)
    pub ascending : Ascending d first

  -- What `mergebyteamid` makes of the lists at an index, given the first lists that are united there:
  -- without any it is what it was.
  unfoldable pub Unites : List (Freqs d) → Option (Vecomap d) → Option (Vecomap d) → Type 0
  Unites [] o o' = o' ≡ o
  Unites (l ∷ ls) (some (m ∷ ms)) o' =
      (m' : Freqs d) × (o' ≡ some (m' ∷ ms))
      × ((t : Sig) → find t m' ≡ united d t (l ∷ ls) (find t m))
  Unites (l ∷ ls) _ o' = ⊥

  first_there : (total : Total d) (i : ℕ) (h : HasFirst total i) → first_at total i ≡ h.first
  unfolding first_at first_in
  first_there total i h = ap first_in h.there

  Sources-others :
      (k : ℕ) (total : Total d) (js : List ℕ)
      → All (HasFirst total) js
      → All (λ i. k ≢ i) js
      → Sources d k total js (map (first_at total) js)
  Sources-others k total [] a b = tt
  Sources-others k total (i ∷ js) a b = (
    (λ e. b.0 (sym e)),
    (a.0.rest, a.0.there ∙ ap (λ l. some (l ∷ a.0.rest)) (sym (first_there total i a.0))),
    subst (Ascending d) (sym (first_there total i a.0)) a.0.ascending,
    Sources-others k total js a.1 b.1,
  )

  -- One team, with the index k + 1 first.
  record Merged (k : ℕ) (js : List ℕ) (total : Total d) : Type 0 where
    total' : Total d
    runs : merge_indices d js (suc k) total ≡ some (suc k, total')
    here : Unites (map (first_at total) js) (get_elem? total (suc k)) (get_elem? total' (suc k))
    elsewhere : (j : ℕ) → (j == suc k) ≡ false → get_elem? total' j ≡ get_elem? total j

  no_others : (k : ℕ) (total : Total d) → merge_indices d [] (suc k) total ≡ some (suc k, total)
  unfolding merge_indices
  no_others k total = refl

  merge_team :
      (k : ℕ) (js : List ℕ) (total : Total d)
      → HasFirst total (suc k)
      → All (HasFirst total) js
      → All (λ i. suc k ≢ i) js
      → Merged k js total
  unfolding Unites
  merge_team k [] total h a b = record {
    total' = total;
    runs = no_others k total;
    here = refl;
    elsewhere = λ j e. refl;
  }
  merge_team k (i ∷ js) total h a b =
      let (t', m', c, ch, f) =
        merge_indices_lem d k (i ∷ js) (map (first_at total) (i ∷ js)) h.first h.rest total h.there
          (Sources-others (suc k) total (i ∷ js) a b) in
      record {
        total' = t';
        runs = c;
        here =
            subst (λ o. Unites (map (first_at total) (i ∷ js)) o (get_elem? t' (suc k)))
              (sym h.there) (m', ch (suc k) ∙ rw (itself (suc k)) refl, f);
        elsewhere = λ j e. ch j ∙ rw e refl;
      }

  -- The indices in front that are 0.
  merge_counting : List ℕ → Total d → Option (ℕ × Total d)
  merge_counting [] total = some (0, total)
  merge_counting (k ∷ js) total = merge_indices d js k total

  merge_indices-counting :
      (is : List ℕ) (total : Total d)
      → merge_indices d is 0 total ≡ merge_counting (counting is) total
  unfolding merge_indices counting merge_counting
  merge_indices-counting [] total = refl
  merge_indices-counting (zero ∷ is) total = merge_indices-counting is total
  merge_indices-counting (suc k ∷ is) total = refl

  -- The other teams find their lists as they were.
  still_first :
      (k : ℕ) (js is : List ℕ) (total : Total d) (x : Merged k js total)
      → All (HasFirst total) is
      → All (λ y. suc k ≢ y) is
      → All (HasFirst x.total') is
  still_first k js [] total x a b = tt
  still_first k js (i ∷ is) total x a b = (
    record {
      first = a.0.first;
      rest = a.0.rest;
      there = x.elsewhere i (not_same i (suc k) (λ e. b.0 (sym e))) ∙ a.0.there;
      ascending = a.0.ascending;
    },
    still_first k js is total x a.1 b.1,
  )

  same_firsts :
      (k : ℕ) (js is : List ℕ) (total : Total d) (x : Merged k js total)
      → All (λ y. suc k ≢ y) is
      → map (first_at x.total') is ≡ map (first_at total) is
  unfolding first_at
  same_firsts k js [] total x b = refl
  same_firsts k js (i ∷ is) total x b =
      let e = ap first_in (x.elsewhere i (not_same i (suc k) (λ e. b.0 (sym e)))) in
      let r = same_firsts k js is total x b.1 in rw (e, r) refl

  -- What the run over the teams gives.
  record Done (index : TeamIndex) (total : Total d) : Type 0 where
    total' : Total d
    runs : merge_teams d 0 index total ≡ some (kept_entries index, total')
    united_at :
        (j : ℕ)
        → Unites
            (map (first_at total) (sources_of j index))
            (get_elem? total j)
            (get_elem? total' j)

  team_runs :
      (team : ℕ) (is : List ℕ) (index : TeamIndex) (total : Total d) (mergeix : ℕ) (t1 : Total d)
      (ix : TeamIndex) (t2 : Total d)
      → merge_indices d is 0 total ≡ some (mergeix, t1)
      → merge_teams d 0 index t1 ≡ some (ix, t2)
      → merge_teams d 0 ((team, is) ∷ index) total ≡ some ((team, mergeix ∷ []) ∷ ix, t2)
  unfolding merge_teams
  team_runs team is index total mergeix t1 ix t2 p q = rw (merge_teams, p, q) refl

  team_without :
      (team : ℕ) (is : List ℕ) (index : TeamIndex) (total : Total d)
      → counting is ≡ []
      → Done index total
      → Done ((team, is) ∷ index) total
  unfolding kept_entries kept sources_of others_of merge_counting
  team_without team is index total z y = record {
    total' = y.total';
    runs = rw z (
        team_runs team is index total 0 total (kept_entries index) y.total'
          (merge_indices-counting is total ∙ ap (λ s. merge_counting s total) z) y.runs);
    united_at = λ j. rw z (y.united_at j);
  }

  -- The index that a team keeps is of no team behind it.
  unread :
      (index : TeamIndex) (i : ℕ) (total : Total d)
      → All (λ y. i ≢ y) (all_indices index)
      → (y : Done index total) → get_elem? y.total' i ≡ get_elem? total i
  unfolding Unites
  unread index i total b y =
      subst (λ s. Unites (map (first_at total) s) (get_elem? total i) (get_elem? y.total' i))
        (sources_away i index b) (y.united_at i)

  team_with :
      (team : ℕ) (is : List ℕ) (index : TeamIndex) (total : Total d) (k : ℕ) (js : List ℕ)
      → counting is ≡ suc k ∷ js
      → All (λ y. suc k ≢ y) (all_indices index)
      → (x : Merged k js total) → Done index x.total'
      → Done ((team, is) ∷ index) total
  unfolding kept_entries kept sources_of others_of merge_counting Unites
  team_with team is index total k js z b x y = record {
    total' = y.total';
    runs = rw z (
        team_runs team is index total (suc k) x.total' (kept_entries index) y.total'
          (merge_indices-counting is total ∙ ap (λ s. merge_counting s total) z ∙ x.runs) y.runs);
    united_at = λ j. elim (Bool-cases (j == suc k)) [
      | inl e ↦
          subst
            (λ i.
              Unites (map (first_at total) (others_of i (counting is) (sources_of i index)))
                (get_elem? total i) (get_elem? y.total' i))
            (sym (same j (suc k) e))
            (rw (z, itself (suc k))
              (subst (Unites (map (first_at total) js) (get_elem? total (suc k)))
                (sym (unread index (suc k) x.total' b y)) x.here))
      | inr e ↦
          rw (z, e)
            (subst (λ ls. Unites ls (get_elem? total j) (get_elem? y.total' j))
              (same_firsts k js (sources_of j index) total x
                (sources-All (λ y. suc k ≢ y) j index b))
              (subst
                (λ o.
                  Unites (map (first_at x.total') (sources_of j index)) o (get_elem? y.total' j))
                (x.elsewhere j e) (y.united_at j)))
    ];
  }

  no_teams : (total : Total d) → merge_teams d 0 [] total ≡ some (kept_entries [], total)
  unfolding merge_teams kept_entries
  no_teams total = refl

  unchanged :
      (total : Total d) (j : ℕ)
      → Unites (map (first_at total) (sources_of j [])) (get_elem? total j) (get_elem? total j)
  unfolding Unites sources_of
  unchanged total j = refl

  merge_teams-Done :
      (index : TeamIndex) (total : Total d)
      → All (HasFirst total) (all_indices index)
      → IsDistinct (all_indices index)
      → Done index total
  unfolding all_indices IsDistinct
  merge_teams-Done [] total a b = record {
    total' = total;
    runs = no_teams total;
    united_at = λ j. unchanged total j;
  }
  merge_teams-Done ((team, is) ∷ index) total a b = elim (counting_cases is) [
    | inl z ↦ team_without team is index total z (
        merge_teams-Done index total
          (All_right (HasFirst total) (counting is) (all_indices index) a)
          (IsDistinct-right (counting is) (all_indices index) b))
    | inr (k, js, z) ↦
        let a' = subst (λ s. All (HasFirst total) (s ++ all_indices index)) z a in
        let b' = subst (λ s. IsDistinct (s ++ all_indices index)) z b in
        let apart = All_right (λ y. suc k ≢ y) js (all_indices index) b'.0 in
        let x =
          merge_team k js total a'.0 (All_left (HasFirst total) js (all_indices index) a'.1)
            (All_left (λ y. suc k ≢ y) js (all_indices index) b'.0) in
        team_with team is index total k js z apart x (
          merge_teams-Done index x.total'
            (still_first k js (all_indices index) total x
              (All_right (HasFirst total) js (all_indices index) a'.1) apart)
            (IsDistinct-right js (all_indices index) b'.1))
  ]

-- Indices 0 in front of a team's others are passed over. For any number of teams, of which no other
-- index is in two of them or twice in one, and each has an ascending first list, `mergebyteamid` ends.
-- Each team then has one index, the first that is not passed over, or 0 if there is none. The first
-- list there has every signature with the sum of its frequencies over the team's lists, added in the
-- order of the indices; its weight is the one of the first of these lists, or 1 where that does not
-- have the signature. A list that none is united with, and the lists behind the first ones, are what
-- they were.
pub mergebyteamid-united :
    (d : Doubles) (index : TeamIndex) (total : Total d)
    → All (HasFirst d total) (all_indices index)
    → IsDistinct (all_indices index)
    → (total' : Total d) × (mergebyteamid d index total ≡ some (kept_entries index, total'))
      × ((j : ℕ)
          → Unites d
              (map (first_at d total) (sources_of j index))
              (get_elem? total j)
              (get_elem? total' j))
unfolding mergebyteamid
mergebyteamid-united d index total a b =
    let x = merge_teams-Done d index total a b in (x.total', x.runs, x.united_at)
