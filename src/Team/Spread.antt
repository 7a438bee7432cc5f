-- ===== src/Team/Spread.antt =====
-- The members of a team, chord-0.1-vasil/tools/gpsi.C: make_team.
use native.Mathlib.Nat.{
  suc-mul, mul-le-mul_right, mul-lt-mul_of_pos_right, mul-div-le, le-div_iff_mul-le,
}
use xgossip.Prelude.{ℕ, suc, ◌+◌, ◌-◌, ◌*◌, ◌/◌, ◌%◌, ◌≤◌, ◌<◌, ◌≡◌, ◌≢◌, arith}
use xgossip.Ring.{ring_size}
use xgossip.Team.{arclen, step}

-- The j-th of the points that divide the circle from the team's identifier on.
unfoldable pub slot : ℕ → ℕ → ℕ → ℕ
slot arc team j = (team + j * arc) % ring_size

pub ring_pos : 0 < ring_size
unfolding ring_size
ring_pos = omega arith

pub slot_lt : (arc team j : ℕ) → slot arc team j < ring_size
unfolding slot ring_size
slot_lt arc team j = omega arith

pub slot_zero : (arc team : ℕ) → team < ring_size → slot arc team 0 ≡ team
unfolding slot ring_size
slot_zero arc team h = omega arith

pub step-slot :
    (arc team j : ℕ) → arc < ring_size → step arc (slot arc team j) ≡ slot arc team (suc j)
unfolding slot step ring_size
step-slot arc team j h = ground (arith, suc-mul j arc)

pub arclen_lt : (n : ℕ) → 0 < n → arclen n < ring_size
unfolding arclen ring_size
arclen_lt n h =
    omega (arith, mul-div-le (ring_size - 1) n, mul-le-mul_right ((ring_size - 1) / n) h)

pub arclen_pos : (n : ℕ) → 0 < n → n < ring_size → 0 < arclen n
unfolding arclen
arclen_pos n h l = (le-div_iff_mul-le h).1 (omega arith)

-- Fewer steps than the team has members stay short of a full turn.
pub arc_short : (n j : ℕ) → 0 < n → j ≤ n → j * arclen n < ring_size
unfolding arclen
arc_short n j h l =
    omega (arith, mul-div-le (ring_size - 1) n, mul-le-mul_right ((ring_size - 1) / n) l, ring_pos)

pub slot_inj :
    (n team i j : ℕ)
    → 0 < n
    → n < ring_size
    → i < j
    → j ≤ n
    → slot (arclen n) team i ≢ slot (arclen n) team j
unfolding slot ring_size
slot_inj n team i j h l ij jn e =
    omega (arith, e, arc_short n j h jn, mul-lt-mul_of_pos_right ij (arclen_pos n h l))
