-- ===== src/Ring/Steps.antt =====
-- The steps along the circle of chord-0.1-vasil/utils/id_utils.C: incID, incIDby, decID,
-- successorID and predecessorID.
use native.Mathlib.Nat.{pow-le-pow_right}
use xgossip.Prelude.{ℕ, ◌+◌, ◌%◌, ◌^◌, ◌≤◌, ◌<◌, ◌≡◌, arith}
use xgossip.Ring.{
  nbit, ring_size, inc_id, inc_id_by, dec_id, successor_id, predecessor_id, distance,
}

-- For an identifier n of the circle and a step of at most 2 ^ NBIT, `incIDby` adds modulo
-- 2 ^ NBIT, and `incID` is its case for a step of one.
pub inc_id_by-mod :
    (n by : ℕ)
    → n < ring_size
    → by ≤ ring_size
    → (inc_id_by n by ≡ (n + by) % ring_size) × (inc_id n ≡ inc_id_by n 1)
unfolding inc_id_by inc_id ring_size
inc_id_by-mod n by hn hb = ground arith

-- On the identifiers of the circle `decID` and `incID` undo one another.
pub dec_id-inc_id : (n : ℕ) → n < ring_size → (dec_id (inc_id n) ≡ n) × (inc_id (dec_id n) ≡ n)
unfolding inc_id dec_id ring_size
dec_id-inc_id n h = ground arith

pow_le_ring : (p : ℕ) → p ≤ nbit → 2 ^ p ≤ ring_size
unfolding ring_size
pow_le_ring p h = pow-le-pow_right (omega arith) h

-- For an identifier n and p up to NBIT, `predecessorID` takes `successorID n p` back to n, and the
-- other way round.
pub predecessor_id-successor_id :
    (n p : ℕ)
    → n < ring_size
    → p ≤ nbit
    → (predecessor_id (successor_id n p) p ≡ n) × (successor_id (predecessor_id n p) p ≡ n)
unfolding predecessor_id successor_id ring_size
predecessor_id-successor_id n p hn hp = ground (arith, pow_le_ring p hp)

-- Walking `distance a b` clockwise from a ends at b.
pub inc_id_by-distance : (a b : ℕ) → a < ring_size → b < ring_size → inc_id_by a (distance a b) ≡ b
unfolding inc_id_by distance
inc_id_by-distance a b ha hb = ground arith
