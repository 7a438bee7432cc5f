-- ===== src/Team.antt =====
-- `make_team` and `informteam` of chord-0.1-vasil/tools/gpsi.C: the team of an identifier is spread
-- evenly along the circle, and its members pass word of a new signature around. `teamsize` is the
-- global of that name, which the source divides by; the message that `informteam` sends is made by
-- the Wire modules and stored by the DHT, so that only its destination is computed here.
pub mod Spread
pub mod Cycle
mod Examples
use xgossip.Prelude.{
  ℕ, zero, suc, ◌+◌, ◌-◌, ◌/◌, List, [], ◌∷◌, Option, none, some, ◌==◌, leb, if◌then◌else◌, length,
  get_elem?,
}
use xgossip.Ring.{ring_size}

-- `rngmax / teamsize`
pub arclen : ℕ → ℕ
arclen teamsize = (ring_size - 1) / teamsize

-- `curID += arclen; if (curID >= b) curID -= b;`
unfoldable pub step : ℕ → ℕ → ℕ
step arc cur = let c = cur + arc in if leb ring_size c then c - ring_size else c

-- The loop of `make_team` from member j on, with the rounds that are left: the index of the asking
-- node, the last one that matches, and the members.
pub team_loop : ℕ → ℕ → ℕ → ℕ → ℕ → Option ℕ → Option ℕ × List ℕ
team_loop my arc zero j cur found = (found, [])
team_loop my arc (suc n) j cur found =
    let cur' = step arc cur in
    let (index, members) = team_loop my arc n (suc j) cur' (if my == cur' then some j else found) in
    (index, cur' ∷ members)

-- `make_team`; an index of -1 is `none`.
pub make_team : ℕ → ℕ → ℕ → Option ℕ × List ℕ
make_team teamsize my team =
    let (index, members) =
      team_loop my (arclen teamsize) (teamsize - 1) 1 team (if my == team then some 0 else none) in
    (index, team ∷ members)

-- `nextID` of `informteam`: no message is sent by a node outside the team.
pub inform_next : ℕ → ℕ → ℕ → Option ℕ
inform_next teamsize my team =
    let (index, members) = make_team teamsize my team in
    elim index [
      | none ↦ none
      | some i ↦ if i == length members - 1 then get_elem? members 0 else get_elem? members (i + 1)
    ]
