-- ===== src/Gossip/Scaled.antt =====
-- Lists with all values scaled: the lone list of `mergelists`, and the list of a message that could
-- not be sent, chord-0.1-vasil/tools/gpsi.C: dividefreq and multiplyfreq.
use mathlib.Core.Path.{ap₂}
use xgossip.Prelude.{
  ◌≡◌, refl, sym, ap, ◌∙◌, [], ◌∷◌, some, Bool, true, false, All, arith, inl, inr, Bool-cases,
}
use xgossip.Doubles.{Doubles}
use xgossip.Scale.{
  Pair, Freqs, Vecomap, divide_all, multiply_all, at_list, dividefreq, multiply_list, multiplyfreq,
}
use xgossip.Sig.{Sig, dummysig, sigcmp, samesig}
use xgossip.Table.{find, SortedAbove}
use xgossip.Merge.{add_pair, halve, mergelists}
use xgossip.Merge.Rounds.{value_or}
use xgossip.Merge.Kept.{mergelists-Listed}
use xgossip.Merge.Lookup.{Listed, dummy_of}
use xgossip.Gossip.Exact.{Exact, zeros, pair_comm, zeros_add, pair_halves}
use xgossip.Gossip.Mass.{share, shares, Sound, mergelists-Merged, merged_dummy, mass_kept}

module _ (d : Doubles) where
  -- All pairs of a list through a function.
  unfoldable pub scale : (Pair d → Pair d) → Freqs d → Freqs d
  scale f [] = []
  scale f ((s, p) ∷ m) = (s, f p) ∷ scale f m

  divide_all-scale : (m : Freqs d) → divide_all d 2 2 m ≡ scale (halve d) m
  unfolding divide_all scale halve
  divide_all-scale [] = refl
  divide_all-scale ((s, p) ∷ m) = ap (λ z. (s, halve d p) ∷ z) (divide_all-scale m)

  abbrev pub doubled : Pair d → Pair d
  doubled p = (d.mul_int p.0 2, d.mul_int p.1 2)

  multiply_all-scale : (m : Freqs d) → multiply_all d 2 2 m ≡ scale doubled m
  unfolding multiply_all scale
  multiply_all-scale [] = refl
  multiply_all-scale ((s, p) ∷ m) = ap (λ z. (s, doubled p) ∷ z) (multiply_all-scale m)

  module _ (f : Pair d → Pair d) where
    value_or-scale :
        (s : Sig) (m : Freqs d) (p : Pair d)
        → value_or (find s (scale f m)) (f p) ≡ f (value_or (find s m) p)
    unfolding find scale
    value_or-scale s [] p = refl
    value_or-scale s ((t, q) ∷ m) p = ground (arith, value_or-scale s m p)

    SortedAbove-scale : (b : Sig) (m : Freqs d) → SortedAbove b m → SortedAbove b (scale f m)
    unfolding scale
    SortedAbove-scale b [] o = tt
    SortedAbove-scale b ((s, p) ∷ m) o = (o.0, SortedAbove-scale s m o.1)

    pub share-scale :
        (vanilla : Bool) (s : Sig) (t : Freqs d)
        → Listed d vanilla t
        → share d vanilla s (scale f t) ≡ f (share d vanilla s t)
    unfolding share scale
    share-scale true s [] l = absurd l
    share-scale true s ((k, p) ∷ m) l = value_or-scale s m p
    share-scale false s [] l = absurd l
    share-scale false s (e ∷ []) l = absurd l
    share-scale false s ((h, q) ∷ (k, p) ∷ m) l = value_or-scale s m p

    pub Listed-scale :
        (vanilla : Bool) (t : Freqs d) → Listed d vanilla t → Listed d vanilla (scale f t)
    unfolding scale
    Listed-scale true [] l = absurd l
    Listed-scale true ((k, p) ∷ m) l = (l.0, SortedAbove-scale dummysig m l.1)
    Listed-scale false [] l = absurd l
    Listed-scale false (e ∷ []) l = absurd l
    Listed-scale false ((h, q) ∷ (k, p) ∷ m) l = (l.0, l.1, SortedAbove-scale dummysig m l.2)

    dummy_of-scale :
        (vanilla : Bool) (t : Freqs d)
        → Listed d vanilla t
        → dummy_of d vanilla (scale f t) ≡ f (dummy_of d vanilla t)
    unfolding scale
    dummy_of-scale true [] l = absurd l
    dummy_of-scale true ((k, p) ∷ m) l = refl
    dummy_of-scale false [] l = absurd l
    dummy_of-scale false (e ∷ []) l = absurd l
    dummy_of-scale false ((h, q) ∷ (k, p) ∷ m) l = refl

  Listed-empty : (vanilla : Bool) → ¬ Listed d vanilla []
  Listed-empty true l = l
  Listed-empty false l = l

  module _ (vanilla : Bool) where
    multiply_list-doubled :
        (t : Freqs d) → Listed d vanilla t → multiply_list d 2 2 t ≡ some (scale doubled t)
    unfolding multiply_list
    multiply_list-doubled [] l = absurd (Listed-empty vanilla l)
    multiply_list-doubled ((s, p) ∷ m) l = elim (Bool-cases (samesig s dummysig)) [
      | inl h ↦ rw h (ap some (multiply_all-scale ((s, p) ∷ m)))
      | inr h ↦ rw h (ap some (multiply_all-scale ((s, p) ∷ m)))
    ]

    -- `multiplyfreq` by two doubles the first list.
    pub multiplyfreq-doubled :
        (t : Freqs d) (ts : Vecomap d)
        → Listed d vanilla t
        → multiplyfreq d (t ∷ ts) 0 2 2 ≡ some (scale doubled t ∷ ts)
    unfolding multiplyfreq at_list
    multiplyfreq-doubled t ts l = rw (multiply_list-doubled t l) refl

    -- `mergelists` on one or more lists of gossip's form leaves one of that form.
    pub mergelists_one :
        (t : Freqs d) (v : Vecomap d)
        → All (Listed d vanilla) (t ∷ v)
        → (t' : Freqs d) × (mergelists d vanilla (t ∷ v) ≡ some (t' ∷ [])) × Listed d vanilla t'
    unfolding mergelists dividefreq at_list
    mergelists_one t [] a = (
      scale (halve d) t,
      ap (λ m. some (m ∷ [])) (divide_all-scale t),
      Listed-scale (halve d) vanilla t a.0,
    )
    mergelists_one t (u ∷ v) a = mergelists-Listed d vanilla t u v a

  module _ (e : Exact d) (vanilla : Bool) where
    Sound-halve : (t : Freqs d) → Sound d vanilla t → Sound d vanilla (scale (halve d) t)
    unfolding halve
    Sound-halve t a = (
      Listed-scale (halve d) vanilla t a.0,
      ap (λ (p : Pair d). p.0) (dummy_of-scale (halve d) vanilla t a.0)
          ∙ ap (λ x. d.div_int x 2) a.1
          ∙ e.half_zero,
    )

    pub Sound-doubled : (t : Freqs d) → Sound d vanilla t → Sound d vanilla (scale doubled t)
    Sound-doubled t a = (
      Listed-scale doubled vanilla t a.0,
      ap (λ (p : Pair d). p.0) (dummy_of-scale doubled vanilla t a.0)
          ∙ ap (λ x. d.mul_int x 2) a.1
          ∙ e.twice d.zero
          ∙ e.zero_add d.zero,
    )

    -- What holds of the list that `mergelists` leaves of the lists v.
    pub record Halved (v : Vecomap d) (t' : Freqs d) : Type 0 where
      pub call : mergelists d vanilla v ≡ some (t' ∷ [])
      pub sound : Sound d vanilla t'
      pub mass :
          (s : Sig)
          → sigcmp dummysig s ≡ true
          → add_pair d (share d vanilla s t') (share d vanilla s t') ≡ shares d vanilla s v

    All-Listed : (v : Vecomap d) → All (Sound d vanilla) v → All (Listed d vanilla) v
    All-Listed [] a = tt
    All-Listed (t ∷ v) a = (a.0.0, All-Listed v a.1)

    -- `mergelists` on one or more sound lists leaves one, which twice has the shares of all.
    pub mergelists-Halved :
        (t : Freqs d) (v : Vecomap d)
        → All (Sound d vanilla) (t ∷ v)
        → (t' : Freqs d) × Halved (t ∷ v) t'
    unfolding mergelists dividefreq at_list shares
    mergelists-Halved t [] a = (
      scale (halve d) t,
      record {
        call = ap (λ m. some (m ∷ [])) (divide_all-scale t);
        sound = Sound-halve t a.0;
        mass = λ s h.
            ap (λ p. add_pair d p p) (share-scale (halve d) vanilla s t a.0.0)
            ∙ pair_halves d e (share d vanilla s t)
            ∙ sym (pair_comm d e (share d vanilla s t) (zeros d) ∙ zeros_add d e _);
      },
    )
    mergelists-Halved t (u ∷ v) a =
        let (t', m) = mergelists-Merged d vanilla t u v (All-Listed (t ∷ u ∷ v) a) in
        (
          t',
          record {
            call = m.call;
            sound = (
              m.listed,
              ap (λ (p : Pair d). p.0) (merged_dummy d vanilla t (u ∷ v) t' m) ∙ a.0.1,
            );
            mass = λ s h. mass_kept d vanilla t (u ∷ v) t' m e s h a;
          },
        )

    -- The share of a list with its values doubled.
    pub share-doubled :
        (s : Sig) (t : Freqs d)
        → Listed d vanilla t
        → share d vanilla s (scale doubled t)
          ≡ add_pair d (share d vanilla s t) (share d vanilla s t)
    unfolding add_pair
    share-doubled s t l =
        share-scale doubled vanilla s t l
        ∙ ap₂ (λ x y. (x, y)) (e.twice (share d vanilla s t).0) (e.twice (share d vanilla s t).1)
