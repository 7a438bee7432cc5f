-- ===== src/Gossip.antt =====
-- A team that gossips: the peers of chord-0.1-vasil/tools/gpsi.C in the loop `xgossip exec` of
-- `main` and the messages between them, for the lists of one team. Merging, sending and receiving
-- interleave in any order, and so do the peers; a message is delivered once or not at all.
pub mod Exact
pub mod Mass
pub mod Scaled
pub mod Healthy
pub mod Weights
pub mod Safety
pub mod Conserved
mod Examples
use mathlib.Core.Option
use xgossip.Prelude.{
  ℕ, ◌≡◌, List, [], ◌∷◌, ◌++◌, Option, none, some, Bool, true, false, get_elem?, set, if◌then◌else◌,
}
use xgossip.Doubles.{Doubles}
use xgossip.Scale.{Freqs, Vecomap, multiplyfreq}
use xgossip.Merge.{mergelists}
use xgossip.Collect.{Entries, push_entries, vecomap2vec}

module _ (d : Doubles) where
  -- A peer's `totalT[i]`; it is `pending` when it has merged and not yet sent in its round.
  pub record Peer : Type 0 where
    pub lists : Vecomap d
    pub pending : Bool

  -- `mergelists(totalT[i])`
  unfoldable pub merge_peer : Bool → Peer → Option Peer
  merge_peer vanilla p =
      Option.map (λ v. record { lists = v; pending = true }) (mergelists d vanilla p.lists)

  -- What is put in the message, `totalT[i][0]`.
  unfoldable pub message : Peer → Option (Entries d)
  message p = vecomap2vec d p.lists 0 []

  -- The insert succeeded.
  unfoldable pub after_success : Peer → Peer
  after_success p = record p { pending = false }

  -- The insert failed: the list is multiplied, if `consume_failed_msgs` is set.
  unfoldable pub after_failure : Bool → Peer → Option Peer
  after_failure consume p =
      if consume
      then Option.map (λ v. record { lists = v; pending = false }) (multiplyfreq d p.lists 0 2 2)
      else some (record p { pending = false })

  -- `add2vecomapx`, for a team that the peer knows
  unfoldable pub receive : Entries d → Peer → Peer
  receive es p = record p { lists = p.lists ++ push_entries d es [] ∷ [] }

  pub record Net : Type 0 where
    pub peers : List Peer
    pub flying : List (Entries d)

  pub data Step (vanilla consume : Bool) (n : Net) : Net → Type 0 where
    merges :
        (i : ℕ) (p q : Peer)
        → get_elem? n.peers i ≡ some p
        → p.pending ≡ false
        → merge_peer vanilla p ≡ some q
        → Step vanilla consume n (record { peers = set n.peers i q; flying = n.flying })
    sends :
        (i : ℕ) (p : Peer) (es : Entries d)
        → get_elem? n.peers i ≡ some p
        → p.pending ≡ true
        → message p ≡ some es
        → Step vanilla consume n
            (record { peers = set n.peers i (after_success p); flying = es ∷ n.flying })
    fails :
        (i : ℕ) (p q : Peer)
        → get_elem? n.peers i ≡ some p
        → p.pending ≡ true
        → after_failure consume p ≡ some q
        → Step vanilla consume n (record { peers = set n.peers i q; flying = n.flying })
    delivers :
        (i : ℕ) (p : Peer) (xs : List (Entries d)) (es : Entries d) (ys : List (Entries d))
        → get_elem? n.peers i ≡ some p
        → n.flying ≡ xs ++ es ∷ ys
        → Step vanilla consume n
            (record { peers = set n.peers i (receive es p); flying = xs ++ ys })

  pub data Reach (vanilla consume : Bool) (n : Net) : Net → Type 0 where
    start : Reach vanilla consume n n
    later :
        {m k : Net}
        → Reach vanilla consume n m
        → Step vanilla consume m k
        → Reach vanilla consume n k
