-- ===== src/Scale.antt =====
-- `dividefreq` and `multiplyfreq` of chord-0.1-vasil/tools/gpsi.C, and the types of the gossip
-- state: `mapType`, of which a signature has a frequency and a weight, and `vecomap`, a vector of
-- such maps.
use mathlib.Core.Option
use xgossip.Prelude.{
  ℕ, zero, suc, List, [], ◌∷◌, Option, none, some, not, ◌&&◌, ◌==◌, if◌then◌else◌,
}
use xgossip.Doubles.{Doubles}
use xgossip.Sig.{dummysig, samesig}
use xgossip.Table.{Table}

abbrev pub Pair : Doubles → Type 0
Pair d = d.Double × d.Double

-- `mapType` and `vecomap`
abbrev pub Freqs : Doubles → Type 0
Freqs d = Table (Pair d)

abbrev pub Vecomap : Doubles → Type 0
Vecomap d = List (Freqs d)

module _ (d : Doubles) where
  -- The loop of `dividefreq` over one list.
  unfoldable pub divide_all : ℕ → ℕ → Freqs d → Freqs d
  divide_all fby wby [] = []
  divide_all fby wby ((s, p) ∷ m) =
      (s, (d.div_int p.0 fby, d.div_int p.1 wby)) ∷ divide_all fby wby m

  unfoldable pub multiply_all : ℕ → ℕ → Freqs d → Freqs d
  multiply_all fby wby [] = []
  multiply_all fby wby ((s, p) ∷ m) =
      (s, (d.mul_int p.0 fby, d.mul_int p.1 wby)) ∷ multiply_all fby wby m

  -- `teamvecomap[listnum]` is written; an index out of range is a fault.
  unfoldable pub at_list : ℕ → (Freqs d → Option (Freqs d)) → Vecomap d → Option (Vecomap d)
  at_list i f [] = none
  at_list zero f (m ∷ ms) = Option.map (λ m'. m' ∷ ms) (f m)
  at_list (suc i) f (m ∷ ms) = Option.map (◌∷◌ m) (at_list i f ms)

  unfoldable pub dividefreq : Vecomap d → ℕ → ℕ → ℕ → Option (Vecomap d)
  dividefreq t listnum fby wby = at_list listnum (λ m. some (divide_all fby wby m)) t

  -- The first entry is passed over if it is the dummy and the factors differ; an empty list has no
  -- first entry to look at.
  unfoldable pub multiply_list : ℕ → ℕ → Freqs d → Option (Freqs d)
  multiply_list fby wby [] = none
  multiply_list fby wby ((s, p) ∷ m) =
      if samesig s dummysig && not (fby == wby)
      then some ((s, p) ∷ multiply_all fby wby m)
      else some (multiply_all fby wby ((s, p) ∷ m))

  unfoldable pub multiplyfreq : Vecomap d → ℕ → ℕ → ℕ → Option (Vecomap d)
  multiplyfreq t listnum fby wby = at_list listnum (multiply_list fby wby) t
