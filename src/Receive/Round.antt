-- ===== src/Receive/Round.antt =====
-- The rounds that a node takes lists of, chord-0.1-vasil/tools/gpsi.C: readgossip.
use xgossip.Prelude.{
  ℕ, ◌+◌, ◌-◌, ◌%◌, ◌^◌, ◌<◌, ◌≤◌, ◌≡◌, ◌⊎◌, true, false, leb, if◌then◌else◌, arith,
}
use xgossip.Receive.{Globals, in_round}

-- The message's round is the node's or one beside it, or any is accepted; both numbers are `int`s
-- that are not negative.
abbrev pub Near : Globals → ℕ → Type 0
Near g seq =
    (seq < 2 ^ 31)
    × (g.txseq < 2 ^ 31)
    × ((g.accept_anyround ≡ true) ⊎ ((seq ≤ g.txseq + 1) × (g.txseq ≤ seq + 1)))

abbrev pub Far : Globals → ℕ → Type 0
Far g seq =
    (seq < 2 ^ 31)
    × (g.txseq < 2 ^ 31)
    × (g.accept_anyround ≡ false)
    × ((g.txseq + 1 < seq) ⊎ (seq + 1 < g.txseq))

difference :
    (m n : ℕ)
    → m < 2 ^ 31
    → n < 2 ^ 31
    → ((m + (2 ^ 32 - n)) % 2 ^ 32 ≡ (if leb n m then m - n else 2 ^ 32 - (n - m)))
difference m n a b = ground arith

pub in_round-Near : (g : Globals) (seq : ℕ) → Near g seq → in_round g seq ≡ true
unfolding in_round
in_round-Near g seq h = ground (arith, difference seq g.txseq h.0 h.1)

pub in_round-Far : (g : Globals) (seq : ℕ) → Far g seq → in_round g seq ≡ false
unfolding in_round
in_round-Far g seq h = ground (arith, difference seq g.txseq h.0 h.1)
