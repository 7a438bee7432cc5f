-- ===== src/Init/Lists.antt =====
-- What one message of the initialisation phase does to a team's list,
-- chord-0.1-vasil/tools/gpsi.C: initgossiprecv.
use xgossip.Prelude.{
  Bool-cases, Option-cases, ◌∙◌, ap, ◌≡◌, refl, sym, ◌⊎◌, inl, inr, [], ◌∷◌, some, none, Option,
  true, false, if◌then◌else◌, arith,
}
use xgossip.Doubles.{Doubles}
use xgossip.Scale.{Pair, Freqs, Vecomap}
use xgossip.Sig.{Sig, dummysig, hldsig, samesig, sigcmp}
use xgossip.Sig.Order.{samesig-iff_eq, sigcmp_irrefl}
use xgossip.Table.{find, assign, same_key}
use xgossip.Table.Laws.{find-assign, assign_after, same_key_greater, same_key→eq}
use xgossip.Merge.Lookup.{hld_below, hld_trans, find-dummy, Listed}
use xgossip.Merge.Kept.{assign-Listed}
use xgossip.Init.{recv_list, start_list, recv_vecomap}

-- The dummy, or a signature above it.
abbrev pub Regular : Sig → Type 0
Regular s = (sigcmp dummysig s ≡ true)

samesig_above : (s : Sig) → Regular s → samesig s dummysig ≡ false
samesig_above s h = ground (arith, samesig-iff_eq s dummysig, sigcmp_irrefl dummysig)

module _ (d : Doubles) where
  -- A team's lists: a first list as gossip keeps it; or none yet.
  abbrev pub Started : Vecomap d → Type 0
  Started [] = ⊥
  Started (m ∷ ms) = Listed d false m

  abbrev pub StartedOrEmpty : Vecomap d → Type 0
  StartedOrEmpty [] = Unit
  StartedOrEmpty (m ∷ ms) = Listed d false m

  -- A list that holds only the first dummy.
  abbrev fresh : Freqs d
  fresh = (hldsig, (d.zero, d.one)) ∷ []

  find-fresh : (s : Sig) → sigcmp hldsig s ≡ true → find s fresh ≡ none
  unfolding find
  find-fresh s h = ground (arith, same_key_greater s hldsig h)

  dummy_before :
      (s : Sig) (p v : Pair d)
      → Regular s
      → assign dummysig p (assign s v []) ≡ (dummysig, p) ∷ (s, v) ∷ []
  unfolding assign
  dummy_before s p v r = ground arith

  recv_fresh :
      (s : Sig) (f w : d.Double)
      → Regular s
      → recv_list d s f w fresh ≡ (
        (hldsig, (d.zero, d.one)) ∷ (dummysig, (d.zero, d.one)) ∷ (s, (f, w)) ∷ [],
        some dummysig,
      )
  unfolding recv_list
  recv_fresh s f w r =
      rw (samesig_above s r, recv_list)
        (rw (find-fresh s (hld_trans d s r), find-fresh dummysig (hld_below d))
          (ap (λ m. (assign dummysig (d.zero, d.one) m, some dummysig))
              (assign_after s hldsig (f, w) (d.zero, d.one) [] (hld_trans d s r))
            ∙ ap (λ m. (m, some dummysig))
                (assign_after dummysig hldsig (d.zero, d.one) (d.zero, d.one) (assign s (f, w) [])
                    (hld_below d)
                  ∙ ap (λ m. (hldsig, (d.zero, d.one)) ∷ m)
                      (dummy_before s (d.zero, d.one) (f, w) r))))

  recv_fresh_dummy :
      (f w : d.Double)
      → recv_list d dummysig f w fresh
        ≡ ((hldsig, (d.zero, d.one)) ∷ (dummysig, (f, w)) ∷ [], some dummysig)
  unfolding recv_list samesig assign
  recv_fresh_dummy f w =
      rw (find-fresh dummysig (hld_below d), recv_list)
        (ap (λ m. (m, some dummysig))
          (assign_after dummysig hldsig (f, w) (d.zero, d.one) [] (hld_below d)))

  -- Behind a first dummy, a regular signature is assigned, and no word is sent.
  unfoldable pub updated : Option (Pair d) → d.Double → d.Double → Pair d
  updated none f w = (f, w)
  updated (some (a, b)) f w = (d.add a f, b)

  recv-Listed :
      (s : Sig) (f w : d.Double) (m : Freqs d)
      → Regular s
      → Listed d false m
      → recv_list d s f w m ≡ (assign s (updated (find s m) f w) m, none)
  unfolding recv_list updated
  recv-Listed s f w m r l =
      rw (samesig_above s r, recv_list)
        (elim (Option-cases (find s m)) [
          | inl e ↦ rw e (rw (find-dummy d false m l) refl)
          | inr (p, e) ↦ rw e refl
        ])

  recv-Listed_dummy :
      (f w : d.Double) (m : Freqs d) → Listed d false m → recv_list d dummysig f w m ≡ (m, none)
  unfolding recv_list samesig
  recv-Listed_dummy f w m l = rw (find-dummy d false m l, recv_list) refl

  -- What a signature has on the first list of a team.
  abbrev pub find_first : Sig → Vecomap d → Option (Pair d)
  find_first t [] = none
  find_first t (m ∷ ms) = find t m

  -- Word is sent when the team had no list.
  abbrev pub told : Vecomap d → Option Sig
  told [] = some dummysig
  told (m ∷ ms) = none

  -- What is read of a team's lists at t after a message (s, f, w).
  abbrev pub Received : Sig → Sig → d.Double → d.Double → Vecomap d → Vecomap d → Type 0
  Received t s f w v v' =
      Started v'
      × (find_first t v'
          ≡ (if same_key t s then some (updated (find_first t v) f w) else find_first t v))

  find_above_dummies :
      (t : Sig) (q p : Pair d) (m : Freqs d)
      → Regular t
      → find t ((hldsig, q) ∷ (dummysig, p) ∷ m) ≡ find t m
  unfolding find
  find_above_dummies t q p m r =
      ground (arith, same_key_greater t hldsig (hld_trans d t r), same_key_greater t dummysig r)

  reads_dummy :
      (t : Sig) (f w : d.Double) (o : Option (Pair d))
      → Regular t
      → o ≡ (if same_key t dummysig then some (updated o f w) else o)
  reads_dummy t f w o r = ground (arith, same_key_greater t dummysig r)

  reads_none :
      (t : Sig) (f w : d.Double)
      → Regular t
      → find t [] ≡ (if same_key t dummysig then some (updated none f w) else none)
  unfolding find
  reads_none t f w r = reads_dummy t f w none r

  reads_fresh :
      (t s : Sig) (q p : Pair d) (f w : d.Double)
      → Regular t
      → find t ((hldsig, q) ∷ (dummysig, p) ∷ (s, (f, w)) ∷ [])
        ≡ (if same_key t s then some (updated none f w) else none)
  unfolding updated find
  reads_fresh t s q p f w r = find_above_dummies t q p ((s, (f, w)) ∷ []) r

  reads_listed :
      (t s : Sig) (f w : d.Double) (m : Freqs d)
      → find t (assign s (updated (find s m) f w) m)
        ≡ (if same_key t s then some (updated (find t m) f w) else find t m)
  reads_listed t s f w m = elim (Bool-cases (same_key t s)) [
    | inl e ↦
        find-assign s t (updated (find s m) f w) m
        ∙ ap (λ u. if same_key t s then some (updated (find u m) f w) else find t m)
            (sym (same_key→eq t s e))
    | inr e ↦ find-assign s t (updated (find s m) f w) m ∙ rw e refl
  ]

  pub recv_vecomap-Received :
      (t s : Sig) (f w : d.Double) (v : Vecomap d)
      → Regular t
      → (s ≡ dummysig) ⊎ Regular s
      → StartedOrEmpty v
      → Received t s f w v (recv_vecomap d s f w v).0 × ((recv_vecomap d s f w v).1 ≡ told v)
  unfolding recv_vecomap start_list assign
  recv_vecomap-Received t s f w [] q (inl e) h =
      rw (e, recv_vecomap)
        (rw (recv_fresh_dummy f w) (
          ((refl, refl, tt), find_above_dummies t (d.zero, d.one) (f, w) [] q ∙ reads_none t f w q),
          refl,
        ))
  recv_vecomap-Received t s f w [] q (inr r) h =
      rw (recv_fresh s f w r)
        (((refl, refl, (r, tt)), reads_fresh t s (d.zero, d.one) (d.zero, d.one) f w q), refl)
  recv_vecomap-Received t s f w (m ∷ ms) q (inl e) h =
      rw e (rw (recv-Listed_dummy f w m h) ((h, reads_dummy t f w (find t m) q), refl))
  recv_vecomap-Received t s f w (m ∷ ms) q (inr r) h =
      rw (recv-Listed s f w m r h) (
        (assign-Listed d false s (updated (find s m) f w) m (inr r) h, reads_listed t s f w m),
        refl,
      )
