-- ===== src/Init.antt =====
-- The initialisation phase of chord-0.1-vasil/tools/gpsi.C: `initgossiprecv`, the handler of the
-- messages that bring a node the signatures of its teams, on the globals `teamindex` and `totalT`.
-- The INFORMTEAM messages that it has `informteam` send are returned, each as its destination and
-- its signature.
pub mod Lists
pub mod Step
pub mod Runs
mod Examples
use xgossip.Prelude.{
  ℕ, List, [], ◌∷◌, ◌++◌, Option, none, some, true, false, ltb, ◌==◌, if◌then◌else◌, length,
  get_elem?, set,
}
use xgossip.Doubles.{Doubles}
use xgossip.Scale.{Freqs, Vecomap}
use xgossip.Sig.{Sig, dummysig, hldsig, samesig}
use xgossip.Table.{find, assign}
use xgossip.Team.{inform_next}

-- `teamid2totalT`, a `std::map` in the order of the identifiers.
abbrev pub TeamIndex : Type 0
TeamIndex = List (ℕ × List ℕ)

-- `teamindex.find(teamID)`
unfoldable pub find_team : ℕ → TeamIndex → Option (List ℕ)
find_team team [] = none
find_team team ((t, is) ∷ m) = let rest = find_team team m in if team == t then some is else rest

-- `teamindex[teamID].push_back(i)`
pub push_index : ℕ → ℕ → TeamIndex → TeamIndex
push_index team i [] = (team, i ∷ []) ∷ []
push_index team i ((t, is) ∷ m) =
    let rest = push_index team i m in
    if ltb team t
    then (team, i ∷ []) ∷ (t, is) ∷ m
    else if team == t
    then (t, is ++ i ∷ []) ∷ m
    else (t, is) ∷ rest

pub record InitState (d : Doubles) : Type 0 where
  pub teamindex : TeamIndex
  pub total : List (Vecomap d)

module _ (d : Doubles) where
  -- The index of the team's lists, which are made empty for a team that has none; a team without
  -- an index is read out of bounds.
  pub locate : ℕ → InitState d → Option (ℕ × InitState d)
  locate team st = elim (find_team team st.teamindex) [
    | some [] ↦ none
    | some (i ∷ is) ↦ some (i, st)
    | none ↦ some (
      length st.total,
      record {
        teamindex = push_index team (length st.total) st.teamindex;
        total = st.total ++ [] ∷ [];
      },
    )
  ]

  -- The three cases of a signature on the team's first list, and the signature to inform of.
  pub recv_list : Sig → d.Double → d.Double → Freqs d → Freqs d × Option Sig
  recv_list sig freq weight m = elim (samesig sig dummysig) [
    | false ↦ elim (find sig m) [
      | some (f, w) ↦ (assign sig (d.add f freq, w) m, none)
      | none ↦ elim (find dummysig m) [
        | none ↦ (assign dummysig (d.zero, d.one) (assign sig (freq, weight) m), some dummysig)
        | some _ ↦ (assign sig (freq, weight) m, none)
      ]
    ]
    | true ↦ elim (find sig m) [
      | none ↦ (assign sig (freq, weight) m, some sig)
      | some _ ↦ (m, none)
    ]
  ]

  -- The first list, started with its first dummy.
  pub start_list : Vecomap d → Freqs d × Vecomap d
  start_list [] = (assign hldsig (d.zero, d.one) [], [])
  start_list (m ∷ ms) = (m, ms)

  pub recv_vecomap : Sig → d.Double → d.Double → Vecomap d → Vecomap d × Option Sig
  recv_vecomap sig freq weight v =
      let (m, ms) = start_list v in let (m', msg) = recv_list sig freq weight m in (m' ∷ ms, msg)

  -- `informteam(ID, teamID, sig)`
  pub inform : ℕ → ℕ → ℕ → Option Sig → List (ℕ × Sig)
  inform teamsize id team none = []
  inform teamsize id team (some sig) = elim (inform_next teamsize id team) [
    | none ↦ []
    | some next ↦ (next, sig) ∷ []
  ]

  -- `initgossiprecv`, with the global `teamsize`
  pub initgossiprecv :
      ℕ → ℕ → ℕ → Sig → d.Double → d.Double → InitState d → Option (InitState d × List (ℕ × Sig))
  initgossiprecv teamsize id team sig freq weight st = elim (locate team st) [
    | none ↦ none
    | some (i, st1) ↦ elim (get_elem? st1.total i) [
      | none ↦ none
      | some v ↦
          let (v', msg) = recv_vecomap sig freq weight v in
          some (
            record { teamindex = st1.teamindex; total = set st1.total i v' },
            inform teamsize id team msg,
          )
    ]
  ]
