-- ===== src/Receive/Handle.antt =====
-- `readgossip` of chord-0.1-vasil/tools/gpsi.C: a message by its type.
use xgossip.Prelude.{Option, List, length, ℕ, none, some, true, false, if◌then◌else◌}
use xgossip.Doubles.{Doubles}
use xgossip.Wire.{Bytes, DoubleBytes, querys}
use xgossip.Wire.Read.{get_int}
use xgossip.Wire.Gossip.{get_gossip}
use xgossip.Wire.Compressed.{get_compressed}
use xgossip.Wire.Init.{get_init}
use xgossip.Wire.Query.{get_query}
use xgossip.Receive.{
  Kind, list_kind, init_kind, query_kind, other_kind, kind_of, Globals, Node, Done, quiet,
}
use xgossip.Receive.Socket.{Input, arrived, broken, ended, read_message}
use xgossip.Receive.Lists.{take_gossip, take_compressed, take_init}
use xgossip.Receive.Queries.{take_querys, take_queryx}

module _ (d : Doubles) (r : DoubleBytes d) where
  -- The message is handled by its kind, of which a list is for the phase of execution and a
  -- signature for the initialisation; one of the other phase is discarded with its socket open.
  unfoldable pub by_kind : Globals → Kind → Bytes → ℕ → Node d → Option (Done d)
  by_kind g (list_kind compressed target) msg recvlen node =
      if g.initphase
      then some (quiet d node false)
      else if compressed
      then take_compressed d r g target (get_compressed d r msg recvlen) node
      else take_gossip d r g target (get_gossip d r msg recvlen) node
  by_kind g init_kind msg recvlen node =
      if g.initphase
      then take_init d r g (get_init d r msg recvlen) node
      else some (quiet d node false)
  by_kind g (query_kind t) msg recvlen node = elim t [
    | querys ↦ take_querys d r g (get_init d r msg recvlen) node
    | t' ↦ take_queryx d r g t' (get_query msg recvlen) node
  ]
  by_kind g other_kind msg recvlen node = some (quiet d node true)

  -- The message is whole.
  unfoldable pub handle : Globals → Bytes → Node d → Option (Done d)
  handle g msg node = elim (get_int msg) [
    | none ↦ none
    | some (c, rest) ↦ by_kind g (kind_of c) msg (length msg) node
  ]

  -- `readgossip`: a read that fails closes the socket, and the end of the file leaves it open. A
  -- result of `none` is a read out of bounds, or inputs that are too few.
  unfoldable pub readgossip : Globals → List Input → Node d → Option (Done d)
  readgossip g ins node = elim (read_message ins) [
    | some (arrived msg) ↦ handle g msg node
    | some broken ↦ some (quiet d node true)
    | some ended ↦ some (quiet d node false)
    | _ ↦ none
  ]
