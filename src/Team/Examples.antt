-- ===== src/Team/Examples.antt =====
-- Runs and instances of the theorems on teams.
use xgossip.Prelude.{ℕ, ◌%◌, ◌+◌, ◌<◌, ◌≡◌, ◌↔◌, some, refl, arith, length, get_elem?}
use xgossip.Ring.{ring_size}
use xgossip.Team.{arclen, step, team_loop, make_team, inform_next}
use xgossip.Team.Spread.{slot}
use xgossip.Team.Cycle.{make_team-slots, inform_next-cycle}

small : (n : ℕ) → n < 1000 → n < ring_size
unfolding ring_size
small n h = omega arith

-- A node is the first member of its own team.
make_team_run : (make_team 2 7 7).0 ≡ some 0
unfolding make_team team_loop step arclen ring_size
make_team_run = refl

abbrev fifth : ℕ
fifth = 5

abbrev first : ℕ
first = 0

make_team-slots_example :
    (length (make_team 8 7 100).1 ≡ 8)
    × (get_elem? (make_team 8 7 100).1 0 ≡ some (slot (arclen 8) 100 0))
    × ((slot (arclen 8) 100 5 ≡ slot (arclen 8) 100 0) ↔ (fifth ≡ first))
    × (((make_team 8 7 100).0 ≡ some 0) ↔ (7 ≡ slot (arclen 8) 100 0))
make_team-slots_example =
    make_team-slots 8 100 (omega arith) (small 8 (omega arith)) (small 100 (omega arith)) 7 5 0
      (omega arith) (omega arith)

inform_next-cycle_example :
    inform_next 8 (slot (arclen 8) 100 7) 100 ≡ some (slot (arclen 8) 100 ((7 + 1) % 8))
inform_next-cycle_example =
    inform_next-cycle 8 100 (omega arith) (small 8 (omega arith)) (small 100 (omega arith)) 7
      (omega arith)
