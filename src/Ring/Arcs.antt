-- ===== src/Ring/Arcs.antt =====
-- The interval tests of chord-0.1-vasil/utils/id_utils.C against clockwise distance.
use xgossip.Prelude.{
  ℕ, ◌+◌, ◌-◌, ◌%◌, ◌≤◌, ◌<◌, ◌≡◌, ◌≢◌, ◌↔◌, ◌⊎◌, true, ◌&&◌, not, arith, leb, if◌then◌else◌,
}
use xgossip.Ring.{
  ring_size, between, betweenleftincl, betweenrightincl, betweenbothincl, distance, diff,
}

-- How far one goes clockwise from `a` to reach `n`.
unfoldable pub clockwise : ℕ → ℕ → ℕ
clockwise a n = (n + ring_size - a) % ring_size

pub clockwise_lem :
    (a n : ℕ)
    → a < ring_size
    → n < ring_size
    → clockwise a n ≡ (if leb a n then n - a else ring_size - a + n)
unfolding clockwise ring_size
clockwise_lem a n ha hn = ground arith

module _ (a b n : ℕ) (ha : a < ring_size) (hb : b < ring_size) (hn : n < ring_size) where
  between-iff_clockwise :
      (between a b n ≡ true) ↔ ((0 < clockwise a n) × ((a ≡ b) ⊎ (clockwise a n < clockwise a b)))
  unfolding between
  between-iff_clockwise = (
    λ h. ground (arith, clockwise_lem a n ha hn, clockwise_lem a b ha hb),
    λ h. ground (arith, clockwise_lem a n ha hn, clockwise_lem a b ha hb),
  )

  betweenrightincl-iff_clockwise :
      (betweenrightincl a b n ≡ true)
      ↔ ((a ≡ b) ⊎ ((0 < clockwise a n) × (clockwise a n ≤ clockwise a b)))
  unfolding betweenrightincl
  betweenrightincl-iff_clockwise = (
    λ h. ground (arith, clockwise_lem a n ha hn, clockwise_lem a b ha hb),
    λ h. ground (arith, clockwise_lem a n ha hn, clockwise_lem a b ha hb),
  )

  betweenleftincl-iff_clockwise :
      (betweenleftincl a b n ≡ true) ↔ ((a ≡ b) ⊎ (clockwise a n < clockwise a b))
  unfolding betweenleftincl
  betweenleftincl-iff_clockwise = (
    λ h. ground (arith, clockwise_lem a n ha hn, clockwise_lem a b ha hb),
    λ h. ground (arith, clockwise_lem a n ha hn, clockwise_lem a b ha hb),
  )

  betweenbothincl-iff_clockwise :
      (betweenbothincl a b n ≡ true) ↔ ((a ≡ b) ⊎ (clockwise a n ≤ clockwise a b))
  unfolding betweenbothincl
  betweenbothincl-iff_clockwise = (
    λ h. ground (arith, clockwise_lem a n ha hn, clockwise_lem a b ha hb),
    λ h. ground (arith, clockwise_lem a n ha hn, clockwise_lem a b ha hb),
  )

-- On identifiers a, b and n of the circle the four tests speak of clockwise distances. `between`
-- holds exactly when going clockwise from a one meets n after at least one step and strictly before
-- b, and from a back to a itself, that is for every n but a. The others hold when a and b are the
-- same, and else for an n that is met: `betweenrightincl` after at least one step and no later than
-- b, `betweenleftincl` strictly before b, `betweenbothincl` no later than b.
pub arcs-iff_clockwise :
    (a b n : ℕ)
    → a < ring_size
    → b < ring_size
    → n < ring_size
    → ((between a b n ≡ true) ↔ ((0 < clockwise a n) × ((a ≡ b) ⊎ (clockwise a n < clockwise a b))))
      × ((betweenrightincl a b n ≡ true)
          ↔ ((a ≡ b) ⊎ ((0 < clockwise a n) × (clockwise a n ≤ clockwise a b))))
      × ((betweenleftincl a b n ≡ true) ↔ ((a ≡ b) ⊎ (clockwise a n < clockwise a b)))
      × ((betweenbothincl a b n ≡ true) ↔ ((a ≡ b) ⊎ (clockwise a n ≤ clockwise a b)))
arcs-iff_clockwise a b n ha hb hn = (
  between-iff_clockwise a b n ha hb hn,
  betweenrightincl-iff_clockwise a b n ha hb hn,
  betweenleftincl-iff_clockwise a b n ha hb hn,
  betweenbothincl-iff_clockwise a b n ha hb hn,
)

-- Two distinct nodes split the circle: every n lies in exactly one of (a, b] and (b, a].
pub betweenrightincl_split :
    (a b n : ℕ) → a ≢ b → betweenrightincl b a n ≡ not (betweenrightincl a b n)
unfolding betweenrightincl
betweenrightincl_split a b n d = ground arith

-- For distinct identifiers a and b of the circle, `distance` is the clockwise distance; from an
-- identifier to itself it is the whole circle, 2 ^ NBIT.
pub distance-clockwise :
    (a b : ℕ)
    → a < ring_size
    → b < ring_size
    → distance a b ≡ (if leb b a && leb a b then ring_size else clockwise a b)
unfolding distance
distance-clockwise a b ha hb = ground (arith, clockwise_lem a b ha hb)

-- For identifiers a and b of the circle with b < a, `diff a b` leaves the circle: it exceeds
-- 2 ^ NBIT, and so is not the clockwise distance from a to b, but it and that distance add up to
-- twice 2 ^ NBIT.
pub diff_wraps :
    (a b : ℕ)
    → a < ring_size
    → b < ring_size
    → b < a
    → (ring_size < diff a b)
      × (clockwise a b < diff a b)
      × (diff a b + clockwise a b ≡ ring_size + ring_size)
unfolding diff
diff_wraps a b ha hb h = ground (arith, clockwise_lem a b ha hb)
