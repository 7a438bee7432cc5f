-- ===== src/Receive/Lists.antt =====
-- What `readgossip` of chord-0.1-vasil/tools/gpsi.C does with lists of signatures and with the
-- signatures of the initialisation.
use mathlib.Core.Option
use xgossip.Prelude.{
  ℕ, List, [], ◌∷◌, ◌++◌, Option, none, some, true, false, if◌then◌else◌, length, map,
}
use xgossip.Doubles.{Doubles}
use xgossip.Sig.{Sig}
use xgossip.Init.{InitState, initgossiprecv}
use xgossip.Compress.{uncompress_signatures}
use xgossip.Collect.{Entries, add2vecomapx, add2vecomapv}
use xgossip.Wire.{Bytes, DoubleBytes}
use xgossip.Wire.Read.{Decoded, decoded, bad_length, overrun}
use xgossip.Wire.Gossip.{GossipMsg}
use xgossip.Wire.Compressed.{CompressedMsg}
use xgossip.Wire.Init.{InitMsg}
use xgossip.Receive.{
  Target, to_first, to_team, to_none, Globals, in_round, id_of, Node, Done, quiet,
}

module _ (d : Doubles) where
  -- The lists are handed on; a list for nowhere is dropped.
  unfoldable pub store : Globals → Target → Bytes → Entries d → InitState d → Option (InitState d)
  store g to_first teamid es st =
      Option.map (λ t. record { teamindex = st.teamindex; total = t }) (add2vecomapv d es st.total)
  store g to_team teamid es st =
      Option.map (λ (index, t). record { teamindex = index; total = t })
        (add2vecomapx d g.bcast es (id_of teamid) st.teamindex st.total)
  store g to_none teamid es st = some st

  -- A message out of the round is discarded, and its socket stays open.
  unfoldable pub take_list : Globals → Target → Bytes → ℕ → Entries d → Node d → Option (Done d)
  take_list g target teamid seq es node =
      if in_round g seq
      then Option.map
          (λ st. quiet d (record node { lists = st; rxseq = node.rxseq ++ seq ∷ [] }) true)
          (store g target teamid es node.lists)
      else some (quiet d node false)

  unfoldable pub pair_up : List Sig → List (d.Double × d.Double) → Entries d
  pair_up (s ∷ ss) (p ∷ ps) = (s, p) ∷ pair_up ss ps
  pair_up _ _ = []

  module _ (r : DoubleBytes d) where
    unfoldable pub take_gossip :
        Globals → Target → Decoded (GossipMsg d r) → Node d → Option (Done d)
    take_gossip g target (decoded m) node = take_list g target m.teamid m.seq m.entries node
    take_gossip g target bad_length node = some (quiet d node true)
    take_gossip g target overrun node = none

    -- Where `getKeyValue` fails, `numSigs` is not set and `uncompressSignatures` makes some number of
    -- empty signatures, which are dropped.
    unfoldable pub take_compressed :
        Globals → Target → Decoded (CompressedMsg d r) → Node d → Option (Done d)
    take_compressed g target (decoded m) node =
        elim (uncompress_signatures (map (λ x. x.0) m.rows) (map (λ x. x.1) m.rows)
          (length m.numbers)) [
            | none ↦ none
            | some (ok, sigs) ↦ take_list g target m.teamid m.seq (pair_up sigs m.numbers) node
          ]
    take_compressed g target bad_length node = some (quiet d node true)
    take_compressed g target overrun node = none

    unfoldable pub take_init : Globals → Decoded (InitMsg d r) → Node d → Option (Done d)
    take_init g (decoded m) node =
        Option.map
          (λ (st, informs). record {
            node = record node { lists = st };
            informs = informs;
            result = none;
            closed = true;
          })
          (initgossiprecv d g.teamsize (id_of m.key) (id_of m.teamid) m.sig m.freq m.weight
            node.lists)
    take_init g bad_length node = some (quiet d node true)
    take_init g overrun node = none
