-- ===== src/Ring/Examples.antt =====
-- Runs and instances of the theorems on the identifier circle.
use xgossip.Prelude.{ℕ, ◌-◌, ◌<◌, ◌≤◌, ◌≡◌, ◌↔◌, ◌⊎◌, ◌+◌, true, [], ◌∷◌, refl, arith}
use xgossip.Ring.{
  betweenleftincl, betweenbothincl, ring_size, successor_id, between, betweenrightincl, diff,
}
use xgossip.Ring.Arcs.{arcs-iff_clockwise, clockwise, diff_wraps}
use xgossip.Ring.Hex.{str2chord_id, read_hex, hex_value}

abbrev last : ℕ
last = 250

abbrev first : ℕ
first = 5

-- An arc over the origin of the circle.
between_wraps : between 250 5 2 ≡ true
unfolding between
between_wraps = refl

-- The finger of step 3 from the last identifier but one.
successor_id_wraps : successor_id (ring_size - 2) 3 ≡ 6
unfolding successor_id ring_size
successor_id_wraps = refl

small_lt : (n : ℕ) → n < 1000 → n < ring_size
unfolding ring_size
small_lt n h = omega arith

diff_wraps_example :
    (ring_size < diff 250 5)
    × (clockwise 250 5 < diff 250 5)
    × (diff 250 5 + clockwise 250 5 ≡ ring_size + ring_size)
diff_wraps_example =
    diff_wraps 250 5 (small_lt 250 (omega arith)) (small_lt 5 (omega arith)) (omega arith)

upper_run : str2chord_id (b'F' ∷ b'f' ∷ []) 7 ≡ (true, 255)
unfolding str2chord_id read_hex hex_value
upper_run = refl

arcs-iff_clockwise_example :
    ((between 250 5 2 ≡ true)
      ↔ ((0 < clockwise 250 2) × ((last ≡ first) ⊎ (clockwise 250 2 < clockwise 250 5))))
    × ((betweenrightincl 250 5 2 ≡ true)
        ↔ ((last ≡ first) ⊎ ((0 < clockwise 250 2) × (clockwise 250 2 ≤ clockwise 250 5))))
    × ((betweenleftincl 250 5 2 ≡ true) ↔ ((last ≡ first) ⊎ (clockwise 250 2 < clockwise 250 5)))
    × ((betweenbothincl 250 5 2 ≡ true) ↔ ((last ≡ first) ⊎ (clockwise 250 2 ≤ clockwise 250 5)))
arcs-iff_clockwise_example =
    arcs-iff_clockwise 250 5 2 (small_lt 250 (omega arith)) (small_lt 5 (omega arith))
      (small_lt 2 (omega arith))
