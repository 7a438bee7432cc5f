-- ===== src/Gossip/Conserved.antt =====
-- That the steps keep the mass of a signature in a team that gossips, chord-0.1-vasil/tools/gpsi.C: `xgossip exec` of
-- `main` with `consume_failed_msgs`.
use mathlib.Core.Option.{some-injective}
use mathlib.Core.Path.{subst}
use xgossip.Prelude.{
  ◌≡◌, refl, sym, ap, ◌∙◌, [], ◌∷◌, ◌++◌, some, Bool, true, false, All, All-middle,
}
use xgossip.Doubles.{Doubles}
use xgossip.Scale.{Freqs, Vecomap}
use xgossip.Sig.{Sig, dummysig, sigcmp}
use xgossip.Merge.{add_pair}
use xgossip.Collect.{Entries, vecomap2vec}
use xgossip.Gossip.{
  Peer, Net, Step, merges, sends, fails, delivers, Reach, start, later, merge_peer, message,
  after_success, after_failure, receive,
}
use xgossip.Gossip.Exact.{Exact, zeros, pair_comm, pair_assoc, pair_left_comm, zeros_add}
use xgossip.Gossip.Mass.{share, shares, Sound}
use xgossip.Gossip.Scaled.{scale, doubled, multiplyfreq-doubled, mergelists-Halved, share-doubled}
use xgossip.Gossip.Healthy.{Healthy, Filled, Sound-Keeps, peer, filled, again}
use xgossip.Gossip.Weights.{peer_mass, net_mass, shares-middle, shares-snoc, gives, takes, keeps}
use xgossip.Gossip.Safety.{Reach-Keeps}

module _ (d : Doubles) (vanilla : Bool) (s : Sig) (e : Exact d) where
  -- A peer that receives a list gains its share.
  gained :
      (v : Vecomap d) (b : Bool) (t : Freqs d)
      → Filled d (Sound d vanilla) (peer d v b)
      → peer_mass d vanilla s (peer d (v ++ t ∷ []) b)
        ≡ add_pair d (share d vanilla s t) (peer_mass d vanilla s (peer d v b))
  unfolding peer_mass
  gained [] b t a = absurd a
  gained (u ∷ us) false t a = shares-snoc d vanilla s e (u ∷ us) t
  gained (u ∷ us) true t a =
      ap (add_pair d (share d vanilla s u)) (shares-snoc d vanilla s e (u ∷ us) t)
      ∙ pair_left_comm d e (share d vanilla s u) (share d vanilla s t) (shares d vanilla s (u ∷ us))

  -- A peer that sends its list loses the list's share.
  lost :
      (v : Vecomap d) (es : Entries d)
      → message d (peer d v true) ≡ some es
      → peer_mass d vanilla s (peer d v true)
        ≡ add_pair d (share d vanilla s es) (peer_mass d vanilla s (peer d v false))
  unfolding peer_mass message vecomap2vec
  lost [] es h = cc
  lost (t ∷ ts) es h =
      ap (λ z. add_pair d (share d vanilla s z) (shares d vanilla s (t ∷ ts)))
        (some-injective t es h)

  merged_mass :
      (t : Freqs d)
      → peer_mass d vanilla s (peer d (t ∷ []) true)
        ≡ add_pair d (share d vanilla s t) (share d vanilla s t)
  unfolding peer_mass shares
  merged_mass t =
      let a = share d vanilla s t in ap (add_pair d a) (pair_comm d e a (zeros d) ∙ zeros_add d e a)

  -- Merging halves what the lists have, and the peer has both halves until it sends one.
  halved :
      (v : Vecomap d) (q : Peer d)
      → sigcmp dummysig s ≡ true
      → Filled d (Sound d vanilla) (peer d v false)
      → merge_peer d vanilla (peer d v false) ≡ some q
      → peer_mass d vanilla s q ≡ peer_mass d vanilla s (peer d v false)
  unfolding peer_mass merge_peer
  halved [] q h a c = absurd a
  halved (t ∷ ts) q h a c =
      let (t', m) = mergelists-Halved d e vanilla t ts a in
      let done : some (peer d (t' ∷ []) true) ≡ some q = sym (rw m.call refl) ∙ c in
      ap (peer_mass d vanilla s) (sym (some-injective _ q done)) ∙ merged_mass t' ∙ m.mass s h

  -- The list that was not sent is doubled.
  taken_back :
      (v : Vecomap d) (q : Peer d)
      → Filled d (Sound d vanilla) (peer d v true)
      → after_failure d true (peer d v true) ≡ some q
      → peer_mass d vanilla s q ≡ peer_mass d vanilla s (peer d v true)
  unfolding peer_mass after_failure shares
  taken_back [] q a c = absurd a
  taken_back (t ∷ ts) q a c =
      let done : some (peer d (scale d (doubled d) t ∷ ts) false) ≡ some q =
        sym (rw (multiplyfreq-doubled d vanilla t ts a.0.0) refl) ∙ c in
      let x = share d vanilla s t in
      ap (peer_mass d vanilla s) (sym (some-injective _ q done))
      ∙ ap (λ z. add_pair d z (shares d vanilla s ts)) (share-doubled d e vanilla s t a.0.0)
      ∙ pair_assoc d e x x (shares d vanilla s ts)

  at_pending : (p : Peer d) (b : Bool) → p.pending ≡ b → p ≡ peer d p.lists b
  at_pending p b w = ap (peer d p.lists) w

  pub Step-mass :
      (n m : Net d)
      → sigcmp dummysig s ≡ true
      → Healthy d (Sound d vanilla) n
      → Step d vanilla true n m
      → net_mass d vanilla s m ≡ net_mass d vanilla s n
  unfolding shares after_success receive
  Step-mass n m h a (merges i p q g w c) =
      let same = at_pending p false w in
      keeps d vanilla s e n i p q g (
        halved p.lists q h
          (filled d vanilla true (Sound d vanilla) (Sound-Keeps d e vanilla) n i p g a)
          (ap (merge_peer d vanilla) (sym same) ∙ c)
        ∙ ap (peer_mass d vanilla s) (sym same))
  Step-mass n m h a (sends i p es g w c) =
      let same = at_pending p true w in
      gives d vanilla s e n i p (after_success d p) (es ∷ n.flying) (share d vanilla s es) g
        (ap (peer_mass d vanilla s) same ∙ lost p.lists es (ap (message d) (sym same) ∙ c)) refl
  Step-mass n m h a (fails i p q g w c) =
      let same = at_pending p true w in
      keeps d vanilla s e n i p q g (
        taken_back p.lists q
          (filled d vanilla true (Sound d vanilla) (Sound-Keeps d e vanilla) n i p g a)
          (ap (after_failure d true) (sym same) ∙ c)
        ∙ ap (peer_mass d vanilla s) (sym same))
  Step-mass n m h a (delivers i p xs es ys g f) =
      let keep = Sound-Keeps d e vanilla in
      let sent = All-middle (Sound d vanilla) xs es ys (subst (All (Sound d vanilla)) f a.1) in
      takes d vanilla s e n i p (receive d es p) (xs ++ ys) (share d vanilla s es) g
        (ap (λ t. peer_mass d vanilla s (peer d (p.lists ++ t ∷ []) p.pending))
            (again d vanilla true (Sound d vanilla) keep es sent.0)
          ∙ gained p.lists p.pending es (filled d vanilla true (Sound d vanilla) keep n i p g a))
        (ap (shares d vanilla s) f ∙ shares-middle d vanilla s e xs es ys)

-- Where addition and halving are exact and failed messages are taken back, no steps of the peers,
-- in any order, change the sum of a signature's frequencies and of its weights over all peers and
-- all messages on their way: for a team whose lists are of gossip's form, with dummies of frequency
-- 0, and any signature above the dummy. A list that is merged and not sent yet counts twice.
pub Reach-mass :
    (d : Doubles) (vanilla : Bool) (s : Sig) (n m : Net d)
    → Exact d
    → sigcmp dummysig s ≡ true
    → Healthy d (Sound d vanilla) n
    → Reach d vanilla true n m
    → net_mass d vanilla s m ≡ net_mass d vanilla s n
Reach-mass d vanilla s n m e h a start = refl
Reach-mass d vanilla s n m e h a (later {m = k} r c) =
    Step-mass d vanilla s e k m h
      (Reach-Keeps d vanilla true (Sound d vanilla) (Sound-Keeps d e vanilla) n a r) c
    ∙ Reach-mass d vanilla s n k e h a r
