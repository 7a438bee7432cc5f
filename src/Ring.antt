-- ===== src/Ring.antt =====
-- The Chord identifier circle of chord-0.1-vasil/utils/id_utils.C: a `chordID` is a bigint below
-- 2 ^ NBIT, read here as a native number. Results of `bigint` subtraction that the source keeps
-- non-negative are native subtractions; where the source masks a possibly negative difference,
-- the modulus is added first, which is what the two's complement mask of `operator&` amounts to.
pub mod Arcs
pub mod Steps
pub mod Hex
mod Examples
use xgossip.Prelude.{
  ℕ, ◌+◌, ◌-◌, ◌*◌, ◌%◌, ◌^◌, Bool, true, ◌&&◌, ◌||◌, not, ltb, leb, ◌==◌, if◌then◌else◌,
}

-- `NBIT`
abbrev pub nbit : ℕ
nbit = 160

-- `b = 1; b <<= NBIT`: the number of identifiers.
unfoldable pub ring_size : ℕ
ring_size = 2 ^ nbit

pub inc_id_by : ℕ → ℕ → ℕ
inc_id_by n by = let s = n + by in if leb ring_size s then s - ring_size else s

pub inc_id : ℕ → ℕ
inc_id n = let s = n + 1 in if leb ring_size s then s - ring_size else s

-- `p & (b - 1)` of `n - 1`
pub dec_id : ℕ → ℕ
dec_id n = (n + ring_size - 1) % ring_size

pub successor_id : ℕ → ℕ → ℕ
successor_id n p = (n + 2 ^ p) % ring_size

-- `t = 1 << p` is at most the modulus for the fingers p <= NBIT.
pub predecessor_id : ℕ → ℕ → ℕ
predecessor_id n p = (n + ring_size - 2 ^ p) % ring_size

pub double_id : ℕ → ℕ → ℕ
double_id n logbase = (n * 2 ^ logbase) % ring_size

-- n in (a, b) on the circle
pub between : ℕ → ℕ → ℕ → Bool
between a b n =
    if a == b then not (n == a) else if ltb a b then ltb a n && ltb n b else ltb a n || ltb n b

-- n in [a, b)
pub betweenleftincl : ℕ → ℕ → ℕ → Bool
betweenleftincl a b n =
    if (a == b) && (n == a)
    then true
    else if ltb a b
    then leb a n && ltb n b
    else leb a n || ltb n b

-- n in (a, b]
pub betweenrightincl : ℕ → ℕ → ℕ → Bool
betweenrightincl a b n =
    if (a == b) && (n == a)
    then true
    else if ltb a b
    then ltb a n && leb n b
    else ltb a n || leb n b

-- n in [a, b]
pub betweenbothincl : ℕ → ℕ → ℕ → Bool
betweenbothincl a b n =
    if (a == b) && (n == a)
    then true
    else if ltb a b
    then leb a n && leb n b
    else leb a n || leb n b

pub distance : ℕ → ℕ → ℕ
distance a b = if ltb a b then b - a else ring_size - a + b

-- `chordID diff = b - a` may be negative, and the other branch subtracts it from 2 ^ NBIT.
pub diff : ℕ → ℕ → ℕ
diff a b = if ltb a b then b - a else ring_size + (a - b)
