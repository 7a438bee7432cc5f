-- ===== src/Gossip/Safety.antt =====
-- What holds in every state that a gossiping team reaches, chord-0.1-vasil/tools/gpsi.C:
-- `xgossip exec` of `main`.
use mathlib.Core.Option
use xgossip.Prelude.{Option, Bool}
use xgossip.Doubles.{Doubles}
use xgossip.Scale.{Freqs}
use xgossip.Merge.Lookup.{Listed}
use xgossip.Gossip.{Net, Reach, start, later}
use xgossip.Gossip.Healthy.{Keeps, Listed-Keeps, Healthy, Step-Healthy}

module _ (d : Doubles) where
  pub Reach-Keeps :
      (vanilla consume : Bool) (P : Freqs d → Type 0) (k : Keeps d vanilla P) (n : Net d)
      {m : Net d}
      → Healthy d P n
      → Reach d vanilla consume n m
      → Healthy d P m
  Reach-Keeps vanilla consume P k n h start = h
  Reach-Keeps vanilla consume P k n h (later {m = m} {k = m'} r s) =
      Step-Healthy d vanilla consume P k m m' s (Reach-Keeps vanilla consume P k n h r)

  -- Where all lists of a team have their dummies in front and ascend behind them, and every peer
  -- has a list, this is so after any steps of the peers, in any order, messages lost or taken back.
  pub Reach-Healthy :
      (vanilla consume : Bool) (n m : Net d)
      → Healthy d (Listed d vanilla) n
      → Reach d vanilla consume n m
      → Healthy d (Listed d vanilla) m
  Reach-Healthy vanilla consume n m h r =
      Reach-Keeps vanilla consume (Listed d vanilla) (Listed-Keeps d vanilla) n h r
