-- ===== src/Gossip/Weights.antt =====
-- The mass of a signature in a team that gossips, chord-0.1-vasil/tools/gpsi.C: `xgossip exec` of
-- `main`: what the peers have and what is on its way.
use mathlib.Core.List.{append-nil}
use mathlib.Core.Option.{some-injective}
use xgossip.Prelude.{
  ℕ, zero, suc, ◌≡◌, refl, sym, ap, ◌∙◌, List, [], ◌∷◌, ◌++◌, some, Bool, get_elem?, set,
  if◌then◌else◌,
}
use xgossip.Doubles.{Doubles}
use xgossip.Scale.{Pair, Freqs, Vecomap}
use xgossip.Sig.{Sig}
use xgossip.Merge.{add_pair}
use xgossip.Collect.{Entries}
use xgossip.Gossip.{Peer, Net}
use xgossip.Gossip.Exact.{Exact, zeros, pair_assoc, pair_left_comm, zeros_add}
use xgossip.Gossip.Mass.{share, shares}

module _ (d : Doubles) (vanilla : Bool) (s : Sig) where
  -- The share of the list that a peer has to send.
  unfoldable pub first_share : Vecomap d → Pair d
  first_share [] = zeros d
  first_share (t ∷ ts) = share d vanilla s t

  -- A list that is halved and not sent yet stands for both halves.
  unfoldable pub peer_mass : Peer d → Pair d
  unfolding first_share
  peer_mass p =
      let all = shares d vanilla s p.lists in
      if p.pending then add_pair d (first_share p.lists) all else all

  unfoldable pub peers_mass : List (Peer d) → Pair d
  peers_mass [] = zeros d
  peers_mass (p ∷ ps) = add_pair d (peer_mass p) (peers_mass ps)

  -- The frequency and the weight of a signature in the whole team and in what is on its way.
  unfoldable pub net_mass : Net d → Pair d
  net_mass n = add_pair d (peers_mass n.peers) (shares d vanilla s n.flying)

  module _ (e : Exact d) where
    -- A peer that changes its mass changes the team's by as much.
    peers_mass-set :
        (ps : List (Peer d)) (i : ℕ) (p q : Peer d) (x y : Pair d)
        → get_elem? ps i ≡ some p
        → add_pair d y (peer_mass q) ≡ add_pair d x (peer_mass p)
        → add_pair d y (peers_mass (set ps i q)) ≡ add_pair d x (peers_mass ps)
    unfolding peers_mass
    peers_mass-set [] i p q x y g h = cc
    peers_mass-set (r ∷ rs) zero p q x y g h =
        sym (pair_assoc d e y (peer_mass q) (peers_mass rs))
        ∙ ap (λ z. add_pair d z (peers_mass rs)) h
        ∙ pair_assoc d e x (peer_mass p) (peers_mass rs)
        ∙ ap (λ z. add_pair d x (add_pair d (peer_mass z) (peers_mass rs)))
            (sym (some-injective r p g))
    peers_mass-set (r ∷ rs) (suc i) p q x y g h =
        pair_left_comm d e y (peer_mass r) (peers_mass (set rs i q))
        ∙ ap (add_pair d (peer_mass r)) (peers_mass-set rs i p q x y g h)
        ∙ pair_left_comm d e (peer_mass r) x (peers_mass rs)

    pub shares-middle :
        (xs : Vecomap d) (t : Freqs d) (ys : Vecomap d)
        → shares d vanilla s (xs ++ t ∷ ys)
          ≡ add_pair d (share d vanilla s t) (shares d vanilla s (xs ++ ys))
    unfolding shares
    shares-middle [] t ys = refl
    shares-middle (x ∷ xs) t ys =
        ap (add_pair d (share d vanilla s x)) (shares-middle xs t ys)
        ∙ pair_left_comm d e (share d vanilla s x) (share d vanilla s t)
            (shares d vanilla s (xs ++ ys))

    pub shares-snoc :
        (xs : Vecomap d) (t : Freqs d)
        → shares d vanilla s (xs ++ t ∷ [])
          ≡ add_pair d (share d vanilla s t) (shares d vanilla s xs)
    shares-snoc xs t =
        shares-middle xs t []
        ∙ ap (λ z. add_pair d (share d vanilla s t) (shares d vanilla s z)) (append-nil xs)

    -- The team's mass, where a peer puts a share in a message,
    pub gives :
        (n : Net d) (i : ℕ) (p q : Peer d) (es : List (Entries d)) (x : Pair d)
        → get_elem? n.peers i ≡ some p
        → peer_mass p ≡ add_pair d x (peer_mass q)
        → shares d vanilla s es ≡ add_pair d x (shares d vanilla s n.flying)
        → net_mass (record { peers = set n.peers i q; flying = es }) ≡ net_mass n
    unfolding net_mass
    gives n i p q es x g h k =
        let flown = shares d vanilla s n.flying in
        let same = zeros_add d e (peer_mass p) ∙ h in
        let all = peers_mass-set n.peers i p q (zeros d) x g (sym same) in
        ap (add_pair d (peers_mass (set n.peers i q))) k
        ∙ pair_left_comm d e (peers_mass (set n.peers i q)) x flown
        ∙ sym (pair_assoc d e x (peers_mass (set n.peers i q)) flown)
        ∙ ap (λ z. add_pair d z flown) (all ∙ zeros_add d e (peers_mass n.peers))

    -- and where it takes it from one.
    pub takes :
        (n : Net d) (i : ℕ) (p q : Peer d) (es : List (Entries d)) (x : Pair d)
        → get_elem? n.peers i ≡ some p
        → peer_mass q ≡ add_pair d x (peer_mass p)
        → shares d vanilla s n.flying ≡ add_pair d x (shares d vanilla s es)
        → net_mass (record { peers = set n.peers i q; flying = es }) ≡ net_mass n
    unfolding net_mass
    takes n i p q es x g h k =
        let flown = shares d vanilla s es in
        let all = peers_mass-set n.peers i p q x (zeros d) g (zeros_add d e (peer_mass q) ∙ h) in
        ap (λ z. add_pair d z flown) (sym (zeros_add d e (peers_mass (set n.peers i q))) ∙ all)
        ∙ pair_assoc d e x (peers_mass n.peers) flown
        ∙ pair_left_comm d e x (peers_mass n.peers) flown
        ∙ ap (add_pair d (peers_mass n.peers)) (sym k)

    pub keeps :
        (n : Net d) (i : ℕ) (p q : Peer d)
        → get_elem? n.peers i ≡ some p
        → peer_mass q ≡ peer_mass p
        → net_mass (record { peers = set n.peers i q; flying = n.flying }) ≡ net_mass n
    keeps n i p q g h =
        takes n i p q n.flying (zeros d) g (h ∙ sym (zeros_add d e (peer_mass p)))
          (sym (zeros_add d e (shares d vanilla s n.flying)))
