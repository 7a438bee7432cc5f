-- ===== src/Receive.antt =====
-- The receiving side of chord-0.1-vasil/tools/gpsi.C: `readgossip`, which reads a message from a
-- socket, checks it against the phase and the round of the node, and hands it to the operation of
-- its type.
pub mod Socket
pub mod Lists
pub mod Queries
pub mod Handle
pub mod Round
pub mod Accepts
pub mod Compressed
pub mod Signatures
pub mod Answers
mod Examples
use mathlib.Core.Option
use xgossip.Prelude.{
  ℕ, ◌+◌, ◌-◌, ◌%◌, ◌^◌, List, [], ◌∷◌, ◌++◌, Option, none, some, Bool, true, false, ◌||◌, ltb,
  ◌==◌, if◌then◌else◌, length, map,
}
use xgossip.Doubles.{Doubles}
use xgossip.Scale.{Vecomap}
use xgossip.Sig.{Sig}
use xgossip.Ring.Hex.{str2chord_id}
use xgossip.Init.{InitState, TeamIndex, find_team, initgossiprecv}
use xgossip.Compress.{uncompress_signatures}
use xgossip.Collect.{Entries, Total, add2vecomapx, add2vecomapv}
use xgossip.Query.{Results, run_query}
use xgossip.Wire.{
  Bytes, DoubleBytes, InsertType, type_code, vxgossip, vxgossipc, xgossip_msg, xgossipc, bcast,
  bcastc, initgossip, informteam, querys, queryx, queryxp,
}
use xgossip.Wire.Read.{Decoded, decoded, bad_length, overrun, get_int}
use xgossip.Wire.Gossip.{GossipMsg, get_gossip}
use xgossip.Wire.Compressed.{CompressedMsg, get_compressed}
use xgossip.Wire.Init.{InitMsg, get_init}
use xgossip.Wire.Query.{QueryMsg, get_query}

-- Where a list of signatures goes: to the first vecomap, to that of its team, or nowhere.
pub data Target : Type 0 where
  to_first to_team to_none : Target

-- The cases of `readgossip` on `msgtype`; true is for compressed signatures.
pub data Kind : Type 0 where
  list_kind : Bool → Target → Kind
  init_kind : Kind
  query_kind : InsertType → Kind
  other_kind : Kind

unfoldable pub kind_of : ℕ → Kind
kind_of c =
    if c == type_code vxgossip
    then list_kind false to_first
    else if c == type_code vxgossipc
    then list_kind true to_first
    else if c == type_code xgossip_msg
    then list_kind false to_team
    else if c == type_code xgossipc
    then list_kind true to_team
    else if c == type_code bcast
    then list_kind false to_none
    else if c == type_code bcastc
    then list_kind true to_none
    else if (c == type_code initgossip) || (c == type_code informteam)
    then init_kind
    else if c == type_code querys
    then query_kind querys
    else if c == type_code queryx
    then query_kind queryx
    else if c == type_code queryxp
    then query_kind queryxp
    else other_kind

-- The globals that a run reads only; `txseq` is `txseq.back()`.
pub record Globals : Type 0 where
  pub initphase : Bool
  pub vanilla : Bool
  pub bcast : Bool
  pub accept_anyround : Bool
  pub teamsize : ℕ
  pub txseq : ℕ
  pub gproxysig : Sig

-- `n = seq - txseq.back()` is -1, 0 or 1, if it matters; an `int` is its 32-bit pattern.
unfoldable pub in_round : Globals → ℕ → Bool
in_round g seq =
    let n = (seq + (2 ^ 32 - g.txseq)) % 2 ^ 32 in
    g.accept_anyround || (n == 0) || (n == 1) || (n == 2 ^ 32 - 1)

-- The identifier of a key, which starts as 0.
abbrev pub id_of : Bytes → ℕ
id_of s = (str2chord_id s 0).1

module _ (d : Doubles) where
  -- The globals that a run writes; of `rxqseq` the last one counts.
  pub record Node : Type 0 where
    pub lists : InitState d
    pub rxseq : List ℕ
    pub rxqseq : ℕ
    pub proxyminsim : d.Double
    pub proxyavgsim : d.Double

  -- What a run leaves: the INFORMTEAM messages that were sent, the result of a query, and whether
  -- the socket was closed.
  pub record Done : Type 0 where
    pub node : Node
    pub informs : List (ℕ × Sig)
    pub result : Option (Results d)
    pub closed : Bool

  -- Nothing has changed.
  abbrev pub quiet : Node → Bool → Done
  quiet node closed = record { node = node; informs = []; result = none; closed = closed }
