-- ===== src/Collect.antt =====
-- The functions of chord-0.1-vasil/tools/gpsi.C that gather signatures into lists: `calcfreq` and
-- `calcfreqM` on `allT`, `add2vecomapx` and `add2vecomapv` on `totalT`, `mergeinit` and
-- `mergebyteamid`, which unite the lists of the teams, and `vecomap2vec`. The globals that a
-- function writes are its arguments and results; `none` is a read out of bounds.
pub mod Counts
pub mod Teams
pub mod Indices
pub mod Merging
pub mod Transport
pub mod Unions
mod Examples
use mathlib.Core.Option
use xgossip.Prelude.{
  ℕ, zero, suc, List, [], ◌∷◌, ◌++◌, Option, none, some, Bool, true, false, ◌==◌, if◌then◌else◌,
  length, get_elem?, set,
}
use xgossip.Doubles.{Doubles}
use xgossip.Init.{TeamIndex, find_team, push_index}
use xgossip.Scale.{Pair, Freqs, Vecomap, at_list}
use xgossip.Sig.{Sig}
use xgossip.Table.{find, assign, push_pair}

module _ (d : Doubles) where
  -- One round of the loop of `calcfreq`.
  pub count_sig : Sig → Freqs d → Freqs d
  count_sig s m = elim (find s m) [
    | some (f, w) ↦ assign s (d.add f d.one, w) m
    | none ↦ assign s (d.one, d.one) m
  ]

  pub count_sigs : List Sig → Freqs d → Freqs d
  count_sigs [] m = m
  count_sigs (s ∷ ss) m = count_sigs ss (count_sig s m)

  -- `uniqueSigList`; with `usedummy` the first signature is the dummy, which is not counted.
  pub unique_sigs : Bool → List Sig → Option (Freqs d)
  unique_sigs false ss = some (count_sigs ss [])
  unique_sigs true [] = none
  unique_sigs true (s ∷ ss) = some (count_sigs ss (assign s (d.zero, d.one) []))

  -- `calcfreq` on `allT`: the proxy signatures come second.
  pub calcfreq : Vecomap d → List Sig → Bool → Bool → Option (Vecomap d)
  calcfreq all sigs usedummy false = Option.map (λ u. all ++ u ∷ []) (unique_sigs usedummy sigs)
  calcfreq [] sigs usedummy true = Option.map (λ u. [] ∷ u ∷ []) (unique_sigs usedummy sigs)
  calcfreq (m ∷ ms) sigs usedummy true =
      Option.map (λ u. (m ∷ ms) ++ u ∷ []) (unique_sigs usedummy sigs)

  -- The three vectors of a message, read at one index each, as one list of entries.
  abbrev pub Entries : Type 0
  Entries = List (Sig × Pair d)

  -- The loop of `calcfreqM` behind the dummy.
  pub add_entries : Entries → Freqs d → Freqs d
  add_entries [] m = m
  add_entries ((s, (f, w)) ∷ es) m = elim (find s m) [
    | some (g, v) ↦ add_entries es (assign s (d.add g f, d.add v w) m)
    | none ↦ add_entries es (assign s (f, w) m)
  ]

  -- `calcfreqM`, which reads `allT[0]` in any case
  pub calcfreq_m : Vecomap d → Entries → Option (Vecomap d)
  calcfreq_m [] es = none
  calcfreq_m (m ∷ ms) [] = some (m ∷ ms)
  calcfreq_m (m ∷ ms) (e ∷ es) = some (add_entries es m ∷ ms)

  -- The loop that `add2vecomapx` and `add2vecomapv` share.
  unfoldable pub push_entries : Entries → Freqs d → Freqs d
  push_entries [] m = m
  push_entries ((s, p) ∷ es) m = push_entries es (push_pair s p m)

  abbrev pub Total : Type 0
  Total = List (Vecomap d)

  -- `totalT[i].push_back(m)`
  pub push_list : ℕ → Freqs d → Total → Option Total
  push_list i m total = elim (get_elem? total i) [
    | none ↦ none
    | some v ↦ some (set total i (v ++ m ∷ []))
  ]

  -- `add2vecomapx`, with the global `bcast`: a list of an unknown team is dropped, but in Broadcast.
  pub add2vecomapx : Bool → Entries → ℕ → TeamIndex → Total → Option (TeamIndex × Total)
  add2vecomapx bcast es team index total = elim (find_team team index) [
    | some [] ↦ none
    | some (i ∷ is) ↦ Option.map (λ t. (index, t)) (push_list i (push_entries es []) total)
    | none ↦
        if bcast
        then some (push_index team (length total) index, total ++ (push_entries es [] ∷ []) ∷ [])
        else some (index, total)
  ]

  -- `add2vecomapv`
  pub add2vecomapv : Entries → Total → Option Total
  add2vecomapv es total = push_list 0 (push_entries es []) total

  -- One round of the inner loops of `mergeinit` and `mergebyteamid`.
  pub absorb : Sig → Pair d → Freqs d → Freqs d
  absorb s (f, w) m = elim (find s m) [
    | some (g, v) ↦ assign s (d.add g f, v) m
    | none ↦ assign s (f, d.one) m
  ]

  pub absorb_list : Freqs d → Freqs d → Freqs d
  absorb_list [] m = m
  absorb_list ((s, p) ∷ l) m = absorb_list l (absorb s p m)

  -- The outer loop of `mergeinit`.
  pub absorb_firsts : Total → Freqs d → Option (Freqs d)
  absorb_firsts [] m = some m
  absorb_firsts ([] ∷ vs) m = none
  absorb_firsts ((l ∷ ls) ∷ vs) m = absorb_firsts vs (absorb_list l m)

  -- `mergeinit`: the new `allT`.
  pub mergeinit : Total → Option (Vecomap d)
  mergeinit total = Option.map (λ m. m ∷ []) (absorb_firsts total [])

  -- `totalT[mergeix][listnum]` is looked at only if there is an entry to merge.
  pub absorb_into : ℕ → Freqs d → Total → Option Total
  absorb_into mergeix [] total = some total
  absorb_into mergeix (e ∷ l) total = elim (get_elem? total mergeix) [
    | some (m ∷ ms) ↦ some (set total mergeix (absorb_list (e ∷ l) m ∷ ms))
    | _ ↦ none
  ]

  -- The loop of `mergebyteamid` over the indices of a team, where a `mergeix` of 0 stands for none.
  pub merge_indices : List ℕ → ℕ → Total → Option (ℕ × Total)
  merge_indices [] mergeix total = some (mergeix, total)
  merge_indices (tix ∷ is) zero total = merge_indices is tix total
  merge_indices (tix ∷ is) (suc k) total = elim (get_elem? total tix) [
    | some (l ∷ ls) ↦ elim (absorb_into (suc k) l total) [
      | none ↦ none
      | some total' ↦ merge_indices is (suc k) total'
    ]
    | _ ↦ none
  ]

  -- The loop of `mergebyteamid` over the teams: `mergeix` is 0 again behind each.
  pub merge_teams : ℕ → TeamIndex → Total → Option (TeamIndex × Total)
  merge_teams mergeix [] total = some ([], total)
  merge_teams mergeix ((team, is) ∷ index) total = elim (merge_indices is mergeix total) [
    | none ↦ none
    | some (mergeix', total') ↦
        Option.map (λ (ix, t). ((team, mergeix' ∷ []) ∷ ix, t)) (merge_teams 0 index total')
  ]

  -- `mergebyteamid`: every team keeps one index.
  pub mergebyteamid : TeamIndex → Total → Option (TeamIndex × Total)
  mergebyteamid index total = merge_teams 0 index total

  -- `vecomap2vec`: the three vectors, as their entries.
  unfoldable pub vecomap2vec : Vecomap d → ℕ → Entries → Option Entries
  vecomap2vec v listnum out = Option.map (λ m. out ++ m) (get_elem? v listnum)
